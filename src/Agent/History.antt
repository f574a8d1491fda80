-- ===== src/Agent/History.antt =====
-- Sequences of calls on one passport (agent.go): the audit trail only grows, the status never
-- returns to active, and a revoked or expired passport grants nothing again.
use computeid_go.Common.{
  ◌≡◌, refl, ◌≢◌, inl, inr, String, List, [], ◌∷◌, arith, eq_iff, Extends, Extends-refl,
  Extends-trans, ap, ◌∙◌, Bool-cases,
}
use computeid_go.Common.Json.{Details}
use computeid_go.Sys.{Sys}
use computeid_go.Capabilities.{Action, allows}
use computeid_go.Agent.{
  AgentPassport, ActionOutcome, status_active, status_revoked, log_action, outcome_blocked,
  outcome_success, reason_details, is_trusted, verify_action, revoke, deny,
}
use computeid_go.Agent.Log.{log_action_lem}
use computeid_go.Agent.Trust.{is_trusted_effect, verify_untrusted, verify_trusted}

-- The calls that a holder of the passport can make.
pub data Call : Type 0 where
  log : String → Details → ActionOutcome → Call
  verify : Action → Call
  check : Call
  withdraw : String → Call

unfoldable pub step : Call → AgentPassport × Sys → AgentPassport × Sys
step (log a d o) (p, s) = let (_, p', s') = log_action a d o p s in (p', s')
step (verify a) (p, s) = let (_, p', s') = verify_action a p s in (p', s')
step check (p, s) = let (_, p', s') = is_trusted p s in (p', s')
step (withdraw r) (p, s) = revoke r p s

unfoldable pub run : List Call → AgentPassport × Sys → AgentPassport × Sys
run [] w = w
run (c ∷ cs) w = run cs (step c w)

-- Whoever issued the passport, and what it may do, stays: only the status, the revocation and the
-- trail have changed, and the trail has grown at its end.
pub record Follows (p q : AgentPassport) : Type 0 where
  pub keeps : q ≡ record p {
    status = q.status;
    revoked_at = q.revoked_at;
    revoke_reason = q.revoke_reason;
    audit_log = q.audit_log;
  }
  pub grows : Extends p.audit_log q.audit_log
  pub stays : p.status ≢ status_active → q.status ≢ status_active

pub Follows-refl : (p : AgentPassport) → Follows p p
Follows-refl p = record { keeps = refl; grows = Extends-refl p.audit_log; stays = λ h. h }

pub Follows-trans : (p q r : AgentPassport) → Follows p q → Follows q r → Follows p r
Follows-trans p q r f g = record {
  keeps =
      g.keeps
      ∙ ap
          (λ (u : AgentPassport). record u {
            status = r.status;
            revoked_at = r.revoked_at;
            revoke_reason = r.revoke_reason;
            audit_log = r.audit_log;
          })
          f.keeps;
  grows = Extends-trans _ _ _ f.grows g.grows;
  stays = λ h. g.stays (f.stays h);
}

log_action-Follows :
    (a : String) (d : Details) (o : ActionOutcome) (p : AgentPassport) (s : Sys)
    → Follows p (log_action a d o p s).1
log_action-Follows a d o p s =
    let (_, e, _) = log_action_lem a d o p s in
    rw e (record { keeps = refl; grows = (_, refl); stays = λ h. h })

pub is_trusted-Follows : (p : AgentPassport) (s : Sys) → Follows p (is_trusted p s).1
is_trusted-Follows p s = elim (is_trusted_effect p s) [
  | inl e ↦ rw e (Follows-refl p)
  | inr (_, active, e) ↦
      rw e
        (record { keeps = refl; grows = Extends-refl p.audit_log; stays = λ h. absurd (h active) })
]

deny-Follows :
    (a : Action) (why : String) (p : AgentPassport) (s : Sys) → Follows p (deny a why p s).1
unfolding deny
deny-Follows a why p s = log_action-Follows a (reason_details why) outcome_blocked p s

verify_action-Follows :
    (a : Action) (p : AgentPassport) (s : Sys) → Follows p (verify_action a p s).1
verify_action-Follows a p s = elim (Bool-cases (is_trusted p s).0) [
  | inr f ↦ rw (verify_untrusted a p s f) (
      Follows-trans p (is_trusted p s).1 _ (is_trusted-Follows p s)
        (deny-Follows a "passport_invalid" _ _))
  | inl t ↦ elim (Bool-cases (allows (is_trusted p s).1.capabilities a)) [
    | inl y ↦ rw (verify_trusted a p s t, y) (is_trusted-Follows p s)
    | inr n ↦
        rw (verify_trusted a p s t, n)
          (Follows-trans p (is_trusted p s).1 _ (is_trusted-Follows p s)
            (deny-Follows a "capability_not_granted" _ _))
  ]
]

pub revoked-ne-active : ◌≢◌ {A = String} status_revoked status_active
revoked-ne-active = ground (arith, eq_iff status_revoked status_active)

pub revoke-Follows : (r : String) (p : AgentPassport) (s : Sys) → Follows p (revoke r p s).0
unfolding revoke
revoke-Follows r p s =
    Follows-trans p _ _
      (record { keeps = refl; grows = Extends-refl p.audit_log; stays = λ h. revoked-ne-active })
      (log_action-Follows "passport_revoked" _ outcome_success _ _)

step-Follows : (c : Call) (w : AgentPassport × Sys) → Follows w.0 (step c w).0
unfolding step
step-Follows (log a d o) (p, s) = log_action-Follows a d o p s
step-Follows (verify a) (p, s) = verify_action-Follows a p s
step-Follows check (p, s) = is_trusted-Follows p s
step-Follows (withdraw r) (p, s) = revoke-Follows r p s

-- Over any sequence of calls the identity, the capabilities, the time of issue and the expiry of a
-- passport stay as they were, every entry of the audit trail stays in its place with new ones behind, and a passport
-- that is not active does not become active.
pub run-Follows : (cs : List Call) (w : AgentPassport × Sys) → Follows w.0 (run cs w).0
unfolding run
run-Follows [] w = Follows-refl w.0
run-Follows (c ∷ cs) w = Follows-trans w.0 _ _ (step-Follows c w) (run-Follows cs (step c w))
