-- ===== src/Agent/Validity.antt =====
-- The well-formedness of a passport, and that every call keeps it (agent.go).
use computeid_go.Common.{
  ◌≡◌, refl, ◌≢◌, ◌⊎◌, inl, inr, String, List, [], ◌∷◌, ◌++◌, arith, ◌==◌, eq_iff, All, All-append,
  none, sym, ◌∙◌, Bool-cases, text_cases, if◌then◌else◌,
}
use computeid_go.Common.Json.{Details}
use computeid_go.Sys.{Sys}
use computeid_go.Capabilities.{Action, allows}
use computeid_go.Agent.{
  AgentPassport, AuditEntry, ActionOutcome, status_active, status_revoked, status_expired,
  log_action, outcome_blocked, outcome_success, is_trusted, verify_action, revoke, deny,
}
use computeid_go.Agent.Log.{log_action_lem}
use computeid_go.Agent.Trust.{is_trusted_effect, verify_untrusted, verify_trusted}
use computeid_go.Agent.History.{Call, log, verify, check, withdraw, step, run}

-- An entry that passport `id` wrote.
abbrev pub IsOwn : String → AuditEntry → Type 0
IsOwn id e = (e.agent_id ≡ id) × (e.outcome ≢ "")

abbrev pub OpensWith : String → List AuditEntry → Type 0
OpensWith a [] = ⊥
OpensWith a (e ∷ es) = e.action ≡ a

pub record IsValid (p : AgentPassport) : Type 0 where
  pub known :
      (p.status ≡ status_active) ⊎ ((p.status ≡ status_revoked) ⊎ (p.status ≡ status_expired))
  pub dated : p.status ≡ status_revoked → (p.revoked_at ≢ none) × (p.revoke_reason ≢ "")
  pub undated : p.status ≢ status_revoked → (p.revoked_at ≡ none) × (p.revoke_reason ≡ "")
  pub own : All (IsOwn p.agent_id) p.audit_log
  pub opened : OpensWith "passport_issued" p.audit_log

OpensWith-append : (a : String) (xs ys : List AuditEntry) → OpensWith a xs → OpensWith a (xs ++ ys)
OpensWith-append a [] ys h = absurd h
OpensWith-append a (x ∷ xs) ys h = h

default-ne-empty : (o : ActionOutcome) → (if o == "" then outcome_success else o) ≢ ""
default-ne-empty o = elim (text_cases o "") [
  | inl e ↦ rw e (ground (arith, eq_iff outcome_success ""))
  | inr n ↦ rw n (ground (arith, eq_iff o ""))
]

pub log_action-IsValid :
    (a : String) (d : Details) (o : ActionOutcome) (p : AgentPassport) (s : Sys)
    → IsValid p
    → IsValid (log_action a d o p s).1
log_action-IsValid a d o p s v =
    let (said, e, _) = log_action_lem a d o p s in
    let own : IsOwn p.agent_id (log_action a d o p s).0 =
      (said.by, rw said.ends (default-ne-empty o)) in
    rw e (record {
      known = v.known;
      dated = v.dated;
      undated = v.undated;
      own = All-append (IsOwn p.agent_id) p.audit_log _ v.own (own, tt);
      opened = OpensWith-append "passport_issued" p.audit_log _ v.opened;
    })

pub status_facts :
    (◌≢◌ {A = String} status_active status_revoked)
    × (◌≢◌ {A = String} status_expired status_revoked)
    × (◌≢◌ {A = String} status_revoked status_active)
status_facts = (
  ground (arith, eq_iff status_active status_revoked),
  ground (arith, eq_iff status_expired status_revoked),
  ground (arith, eq_iff status_revoked status_active),
)

is_trusted-IsValid : (p : AgentPassport) (s : Sys) → IsValid p → IsValid (is_trusted p s).1
is_trusted-IsValid p s v = elim (is_trusted_effect p s) [
  | inl e ↦ rw e v
  | inr (_, active, e) ↦
      let unrevoked : p.status ≢ status_revoked = λ r. status_facts.2 (sym r ∙ active) in
      rw e (record {
        known = inr (inr refl);
        dated = λ h. absurd (status_facts.1 h);
        undated = λ _. v.undated unrevoked;
        own = v.own;
        opened = v.opened;
      })
]

verify_action-IsValid :
    (a : Action) (p : AgentPassport) (s : Sys) → IsValid p → IsValid (verify_action a p s).1
unfolding deny
verify_action-IsValid a p s v =
    let v' = is_trusted-IsValid p s v in
    elim (Bool-cases (is_trusted p s).0) [
      | inr f ↦ rw (verify_untrusted a p s f) (log_action-IsValid a _ outcome_blocked _ _ v')
      | inl t ↦ elim (Bool-cases (allows (is_trusted p s).1.capabilities a)) [
        | inl y ↦ rw (verify_trusted a p s t, y) v'
        | inr n ↦ rw (verify_trusted a p s t, n) (log_action-IsValid a _ outcome_blocked _ _ v')
      ]
    ]

reason-ne-empty : (r : String) → (if r == "" then "Manual revocation" else r) ≢ ""
reason-ne-empty r = elim (text_cases r "") [
  | inl e ↦ rw e (ground (arith, eq_iff "Manual revocation" ""))
  | inr n ↦ rw n (ground (arith, eq_iff r ""))
]

revoke-IsValid : (r : String) (p : AgentPassport) (s : Sys) → IsValid p → IsValid (revoke r p s).0
unfolding revoke
revoke-IsValid r p s v = log_action-IsValid "passport_revoked" _ outcome_success _ _ (record {
  known = inr (inl refl);
  dated = λ _. ((λ e. cc), reason-ne-empty r);
  undated = λ h. absurd (h refl);
  own = v.own;
  opened = v.opened;
})

step-IsValid : (c : Call) (w : AgentPassport × Sys) → IsValid w.0 → IsValid (step c w).0
unfolding step
step-IsValid (log a d o) (p, s) v = log_action-IsValid a d o p s v
step-IsValid (verify a) (p, s) v = verify_action-IsValid a p s v
step-IsValid check (p, s) v = is_trusted-IsValid p s v
step-IsValid (withdraw r) (p, s) v = revoke-IsValid r p s v

-- A well-formed passport stays well formed over any sequence of calls: its status is active,
-- revoked or expired, it has a date and a reason of revocation exactly when it is revoked, and its
-- trail opens with its issue and holds only entries of its own, each with an outcome.
pub run-IsValid : (cs : List Call) (w : AgentPassport × Sys) → IsValid w.0 → IsValid (run cs w).0
unfolding run
run-IsValid [] w v = v
run-IsValid (c ∷ cs) w v = run-IsValid cs (step c w) (step-IsValid c w v)
