-- ===== src/Agent/Finality.antt =====
-- A passport that is revoked, or past its expiry, grants nothing again (agent.go).
use computeid_go.Common.{◌<◌, ◌≡◌, refl, ◌≢◌, inl, inr, false, String, List, arith, ap, Bool-cases}
use computeid_go.Sys.{Sys, Monotone}
use computeid_go.Capabilities.{Action}
use computeid_go.Agent.{
  AgentPassport, status_active, status_revoked, log_action, verify_action, revoke,
}
use computeid_go.Agent.Trust.{IsLive, next_time, verify_action_iff}
use computeid_go.Agent.History.{Call, run, run-Follows, revoked-ne-active}
use computeid_go.Agent.Clock.{run-Later, Later-next_time}

pub dead-refused :
    (a : Action) (q : AgentPassport) (t : Sys)
    → ¬ IsLive q (next_time t)
    → (verify_action a q t).0 ≡ false
dead-refused a q t dead = elim (Bool-cases (verify_action a q t).0) [
  | inl passed ↦ absurd (dead ((verify_action_iff a q t).0 passed).0)
  | inr refused ↦ refused
]

pub revoke-status :
    (r : String) (p : AgentPassport) (s : Sys) → (revoke r p s).0.status ≡ status_revoked
unfolding revoke log_action
revoke-status r p s = refl

-- Once a passport is revoked, no later action passes, whatever calls came in between, what the
-- action is and whatever the clock shows.
pub revoke-final :
    (r : String) (p : AgentPassport) (s : Sys) (cs : List Call) (a : Action)
    → let (q, t) = run cs (revoke r p s) in (verify_action a q t).0 ≡ false
revoke-final r p s cs a =
    let stopped : (revoke r p s).0.status ≢ status_active =
      rw (revoke-status r p s) revoked-ne-active in
    dead-refused a _ _ (λ live. (run-Follows cs (revoke r p s)).stays stopped live.0)

-- Once the expiry of a passport has passed, on a clock that does not run backwards no later action
-- passes, whatever calls came in between.
pub expired-final :
    (p : AgentPassport) (s : Sys) (cs : List Call) (a : Action)
    → Monotone s
    → p.expires_at ≢ 0
    → p.expires_at < next_time s
    → let (q, t) = run cs (p, s) in (verify_action a q t).0 ≡ false
expired-final p s cs a m set past =
    let (q, t) = run cs (p, s) in
    let same : q.expires_at ≡ p.expires_at =
      ap (λ (u : AgentPassport). u.expires_at) (run-Follows cs (p, s)).keeps in
    let later = Later-next_time s t m (run-Later cs (p, s)) in
    dead-refused a q t (λ live. ground arith)
