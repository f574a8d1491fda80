-- ===== src/Agent.antt =====
-- agent.go: the local passport of an agent, and the methods that read or change it.
--
-- A method takes the passport and the system and gives its result, the passport and the system
-- after it. The mutex has no field: one call at a time is modelled here. `time.Now()` and
-- `newUUID` are read in the order in which the code calls them.
pub mod Log
pub mod Trust
pub mod History
pub mod Clock
pub mod Finality
pub mod Validity
use computeid_go.Common.{
  ℕ, String, Bool, true, false, not, Option, some, List, [], ◌∷◌, ◌++◌, ◌==◌, inl, inr, ◌⊎◌, length,
  if◌then◌else◌,
}
use computeid_go.Common.Json.{str, Details}
use computeid_go.Sys.{Time, Sys, now, is_zero, after}
use computeid_go.Uuid.{new_uuid}
use computeid_go.Capabilities.{TrustLevel, AgentCapabilities, Action, allows}

abbrev pub AgentStatus : Type 0
AgentStatus = String

abbrev pub status_active : AgentStatus
status_active = "active"

abbrev pub status_revoked : AgentStatus
status_revoked = "revoked"

abbrev pub status_expired : AgentStatus
status_expired = "expired"

abbrev pub ActionOutcome : Type 0
ActionOutcome = String

abbrev pub outcome_success : ActionOutcome
outcome_success = "success"

abbrev pub outcome_blocked : ActionOutcome
outcome_blocked = "blocked"

abbrev pub outcome_failure : ActionOutcome
outcome_failure = "failure"

pub record AuditEntry : Type 0 where
  pub log_id : String
  pub agent_id : String
  pub action : String
  pub details : Details
  pub outcome : ActionOutcome
  pub timestamp : Time

pub record AgentPassport : Type 0 where
  pub agent_id : String
  pub agent_name : String
  pub agent_type : String
  pub owner_org : String
  pub owner_email : String
  pub model : String
  pub version : String
  pub status : AgentStatus
  pub trust_level : TrustLevel
  pub parent_agent_id : String
  pub issued_at : Time
  pub expires_at : Time
  pub revoked_at : Option Time
  pub revoke_reason : String
  pub capabilities : AgentCapabilities
  pub fingerprint : String
  pub audit_log : List AuditEntry

-- `logID, _ := newUUID()`: the identifier is empty where the read failed.
log_id_of : String ⊎ String → String
log_id_of (inl _) = ""
log_id_of (inr u) = u

-- `(*AgentPassport).LogAction`
unfoldable pub log_action :
    String → Details → ActionOutcome → AgentPassport → Sys → AuditEntry × AgentPassport × Sys
unfolding log_id_of
log_action action details outcome p s =
    let o = if outcome == "" then outcome_success else outcome in
    let (drawn, s₁) = new_uuid s in
    let (t, s₂) = now s₁ in
    let entry : AuditEntry = record {
      log_id = log_id_of drawn;
      agent_id = p.agent_id;
      action = action;
      details = details;
      outcome = o;
      timestamp = t;
    } in
    (entry, record p { audit_log = p.audit_log ++ entry ∷ [] }, s₂)

-- `(*AgentPassport).IsTrusted`: the clock is read only for an active passport that can expire.
unfoldable pub is_trusted : AgentPassport → Sys → Bool × AgentPassport × Sys
is_trusted p s =
    if not (p.status == status_active)
    then (false, p, s)
    else if is_zero p.expires_at
    then (true, p, s)
    else let (t, s') = now s in
      if after t p.expires_at
      then (false, record p { status = status_expired }, s')
      else (true, p, s')

abbrev pub reason_details : String → Details
reason_details r = ("reason", str r) ∷ []

-- A refusal is logged as a blocked action, with its reason.
pub deny : Action → String → AgentPassport → Sys → Bool × AgentPassport × Sys
unfolding log_action
deny action reason p s =
    let (_, p', s') = log_action action (reason_details reason) outcome_blocked p s in
    (false, p', s')

-- `(*AgentPassport).VerifyAction`
unfoldable pub verify_action : Action → AgentPassport → Sys → Bool × AgentPassport × Sys
unfolding deny
verify_action action p s =
    let (trusted, p₁, s₁) = is_trusted p s in
    if not trusted
    then deny action "passport_invalid" p₁ s₁
    else if not (allows p₁.capabilities action)
    then deny action "capability_not_granted" p₁ s₁
    else (true, p₁, s₁)

-- `(*AgentPassport).Revoke`
unfoldable pub revoke : String → AgentPassport → Sys → AgentPassport × Sys
revoke reason p s =
    let r = if reason == "" then "Manual revocation" else reason in
    let (t, s₁) = now s in
    let p₁ = record p { status = status_revoked; revoked_at = some t; revoke_reason = r } in
    let (_, p₂, s₂) = log_action "passport_revoked" (reason_details r) outcome_success p₁ s₁ in
    (p₂, s₂)

pub record Summary : Type 0 where
  pub agent_id : String
  pub agent_name : String
  pub owner_org : String
  pub model : String
  pub status : AgentStatus
  pub trust_level : TrustLevel
  pub issued_at : Time
  pub expires_at : Time
  pub actions_logged : ℕ
  pub fingerprint : String

-- `(*AgentPassport).Summary`
unfoldable pub summary : AgentPassport → Summary
summary p = record {
  agent_id = p.agent_id;
  agent_name = p.agent_name;
  owner_org = p.owner_org;
  model = p.model;
  status = p.status;
  trust_level = p.trust_level;
  issued_at = p.issued_at;
  expires_at = p.expires_at;
  actions_logged = length p.audit_log;
  fingerprint = p.fingerprint;
}
