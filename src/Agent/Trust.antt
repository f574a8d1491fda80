-- ===== src/Agent/Trust.antt =====
-- When a passport is trusted and when an action passes (`IsTrusted` and `VerifyAction` of agent.go).
use computeid_go.Common.{
  ◌≤◌, ◌≡◌, refl, ◌↔◌, ◌⊎◌, inl, inr, Bool, true, false, ◌&&◌, String, [], ◌∷◌, ◌++◌, arith, eq_iff,
  Bool-cases, if◌then◌else◌,
}
use mathlib.Core.Bool.{and-eq-true_iff}
use computeid_go.Sys.{Time, Sys}
use computeid_go.Capabilities.{Action, allows}
use computeid_go.Capabilities.Laws.{Grants, allows_iff}
use computeid_go.Agent.{
  AgentPassport, AuditEntry, status_active, status_expired, outcome_blocked, reason_details,
  log_action, is_trusted, deny, verify_action,
}
use computeid_go.Agent.Log.{IsEntry, log_action_lem}

-- The reading that the next call of `time.Now()` gives.
abbrev pub next_time : Sys → Time
next_time s = s.clock s.reads

-- Active, and at time `t` not past an expiry that is set.
abbrev pub IsLive : AgentPassport → Time → Type 0
IsLive p t = (p.status ≡ status_active) × ((p.expires_at ≡ 0) ⊎ (t ≤ p.expires_at))

-- A passport is trusted exactly when it is live at the time read by the call.
pub is_trusted_iff :
    (p : AgentPassport) (s : Sys) → ((is_trusted p s).0 ≡ true) ↔ IsLive p (next_time s)
unfolding is_trusted
is_trusted_iff p s = ground (arith, eq_iff p.status status_active)

-- What the call leaves behind: an active passport that is found past its expiry becomes expired;
-- any other stays as it was.
pub is_trusted_effect :
    (p : AgentPassport) (s : Sys)
    → ((is_trusted p s).1 ≡ p)
      ⊎ (((is_trusted p s).0 ≡ false)
          × (p.status ≡ status_active)
          × ((is_trusted p s).1 ≡ record p { status = status_expired }))
unfolding is_trusted
is_trusted_effect p s = ground (arith, eq_iff p.status status_active)

-- The refusal is one blocked entry for the action, with its reason, behind what is logged.
pub record IsRefused (a : Action) (why : String) (p : AgentPassport) (s : Sys) (q : AgentPassport)
    : Type 0 where
  pub entry : AuditEntry
  pub said : IsEntry p a (reason_details why) outcome_blocked s entry
  pub logged : q ≡ record p { audit_log = p.audit_log ++ entry ∷ [] }

pub deny-IsRefused :
    (a : Action) (why : String) (p : AgentPassport) (s : Sys)
    → ((deny a why p s).0 ≡ false) × IsRefused a why p s (deny a why p s).1
unfolding deny
deny-IsRefused a why p s =
    let (said, logged, _) = log_action_lem a (reason_details why) outcome_blocked p s in
    (
      refl,
      record {
        entry = (log_action a (reason_details why) outcome_blocked p s).0;
        said = said;
        logged = logged;
      },
    )

pub verify_untrusted :
    (a : Action) (p : AgentPassport) (s : Sys)
    → (is_trusted p s).0 ≡ false
    → verify_action a p s ≡ deny a "passport_invalid" (is_trusted p s).1 (is_trusted p s).2
unfolding verify_action
verify_untrusted a p s h = rw h

pub verify_trusted :
    (a : Action) (p : AgentPassport) (s : Sys)
    → (is_trusted p s).0 ≡ true
    → verify_action a p s ≡ (
        if allows (is_trusted p s).1.capabilities a
        then (true, (is_trusted p s).1, (is_trusted p s).2)
        else deny a "capability_not_granted" (is_trusted p s).1 (is_trusted p s).2)
unfolding verify_action
verify_trusted a p s h = rw h (ground arith)

-- The check changes no more of a passport than its status.
pub is_trusted_keeps :
    (p : AgentPassport) (s : Sys)
    → (is_trusted p s).1 ≡ record p { status = (is_trusted p s).1.status }
unfolding is_trusted
is_trusted_keeps p s = ground arith

pub is_trusted-true :
    (p : AgentPassport) (s : Sys) → (is_trusted p s).0 ≡ true → (is_trusted p s).1 ≡ p
is_trusted-true p s h = elim (is_trusted_effect p s) [ inl e ↦ e | inr (no_, _, _) ↦ cc ]

verify_action-result :
    (a : Action) (p : AgentPassport) (s : Sys)
    → (verify_action a p s).0 ≡ ((is_trusted p s).0 && allows p.capabilities a)
unfolding verify_action deny
verify_action-result a p s = elim (Bool-cases (is_trusted p s).0) [
  | inl t ↦ rw (verify_trusted a p s t, t, is_trusted-true p s t) (ground arith)
  | inr f ↦ rw (verify_untrusted a p s f, f)
]

-- An action passes exactly when the passport is live at the time read by the call and its
-- capabilities grant the action.
pub verify_action_iff :
    (a : Action) (p : AgentPassport) (s : Sys)
    → ((verify_action a p s).0 ≡ true) ↔ (IsLive p (next_time s) × Grants p.capabilities a)
verify_action_iff a p s =
    let (live, dead) = is_trusted_iff p s in
    let (grant, grants) = allows_iff p.capabilities a in
    let (split, join) = and-eq-true_iff (is_trusted p s).0 (allows p.capabilities a) in
    rw (verify_action-result a p s)
      ((λ h. (live (split h).0, grant (split h).1)), (λ h. join (dead h.0, grants h.1)))

-- What a call of `VerifyAction` leaves behind, by its result.
pub record Verdict (a : Action) (p : AgentPassport) (s : Sys) (r : Bool × AgentPassport × Sys)
    : Type 0 where
  pub passes : r.0 ≡ true → r.1 ≡ p
  pub invalid :
      r.0 ≡ false
      → ¬ IsLive p (next_time s)
      → IsRefused a "passport_invalid" (is_trusted p s).1 (is_trusted p s).2 r.1
  pub lacking :
      r.0 ≡ false
      → IsLive p (next_time s)
      → IsRefused a "capability_not_granted" p (is_trusted p s).2 r.1

module _ (a : Action) (p : AgentPassport) (s : Sys) where
  IsLive-of : (is_trusted p s).0 ≡ true → IsLive p (next_time s)
  IsLive-of = (is_trusted_iff p s).0

  Verdict-untrusted : (is_trusted p s).0 ≡ false → Verdict a p s (verify_action a p s)
  Verdict-untrusted f =
      let (stops, refused) =
        deny-IsRefused a "passport_invalid" (is_trusted p s).1 (is_trusted p s).2 in
      record {
        passes = λ h. cc (verify_untrusted a p s f, stops);
        invalid = λ h n. rw (verify_untrusted a p s f) refused;
        lacking = λ h l. cc ((is_trusted_iff p s).1 l);
      }

  Verdict-lacking :
      (is_trusted p s).0 ≡ true
      → allows p.capabilities a ≡ false
      → Verdict a p s (verify_action a p s)
  Verdict-lacking t n =
      let same = is_trusted-true p s t in
      let (stops, refused) = deny-IsRefused a "capability_not_granted" p (is_trusted p s).2 in
      rw (verify_trusted a p s t, same, n)
        (record {
          passes = λ h. cc stops;
          invalid = λ h dead. absurd (dead (IsLive-of t));
          lacking = λ h l. refused;
        })

  Verdict-granted :
      (is_trusted p s).0 ≡ true
      → allows p.capabilities a ≡ true
      → Verdict a p s (verify_action a p s)
  Verdict-granted t y =
      let same = is_trusted-true p s t in
      rw (verify_trusted a p s t, same, y)
        (record { passes = λ h. refl; invalid = λ h n. cc h; lacking = λ h l. cc h })

  -- A call of `VerifyAction` that passes leaves the passport as it was. One that does not either
  -- refuses the passport as invalid, where it is not live (an expired one is marked so), or the
  -- capability as not granted, where it is live and does not grant the action, and appends one
  -- blocked entry with that reason.
  pub verify_action-Verdict : Verdict a p s (verify_action a p s)
  verify_action-Verdict = elim (Bool-cases (is_trusted p s).0) [
    | inr f ↦ Verdict-untrusted f
    | inl t ↦ elim (Bool-cases (allows p.capabilities a)) [
      | inl y ↦ Verdict-granted t y
      | inr n ↦ Verdict-lacking t n
    ]
  ]
