-- ===== src/Agent/Log.antt =====
-- What one call of `LogAction` (agent.go) writes.
use computeid_go.Common.{◌+◌, ◌≡◌, refl, String, [], ◌∷◌, ◌++◌, ◌==◌, if◌then◌else◌}
use computeid_go.Common.Json.{Details}
use computeid_go.Sys.{Sys}
use computeid_go.Uuid.{new_uuid}
use computeid_go.Agent.{AgentPassport, AuditEntry, ActionOutcome, outcome_success, log_action}

-- Entry `e` for this action, outcome and time, written by passport `p`.
pub record IsEntry (p : AgentPassport) (a : String) (d : Details) (o : ActionOutcome) (s : Sys)
    (e : AuditEntry) : Type 0 where
  pub by : e.agent_id ≡ p.agent_id
  pub names : e.action ≡ a
  pub holds : e.details ≡ d
  pub ends : e.outcome ≡ o
  pub at : e.timestamp ≡ s.clock s.reads

-- The call appends one entry and changes nothing else; the system is read once each way.
pub log_action_lem :
    (a : String) (d : Details) (o : ActionOutcome) (p : AgentPassport) (s : Sys)
    → let (e, p', s') = log_action a d o p s in
      IsEntry p a d (if o == "" then outcome_success else o) s e
      × (p' ≡ record p { audit_log = p.audit_log ++ e ∷ [] })
      × (s' ≡ record s { reads = s.reads + 1; draws = s.draws + 1 })
unfolding log_action new_uuid
log_action_lem a d o p s =
    (record { by = refl; names = refl; holds = refl; ends = refl; at = refl }, refl, refl)
