-- ===== src/Export.antt =====
-- `Export` and `LoadAgentPassport` of agent.go. JSON text is the standard library's: a `Codec` gives
-- `json.MarshalIndent` and `json.Unmarshal` at the exported type, each of which may fail.
pub mod Laws
use computeid_go.Common.{String, Option, none, some, List, ◌⊎◌, inl, inr}
use computeid_go.Sys.{Time}
use computeid_go.Errors.{Sentinel, wrapped, Result, ok, err}
use computeid_go.Capabilities.{AgentCapabilities}
use computeid_go.Agent.{AgentPassport, AuditEntry, Summary, summary}

-- `exportedPassport`
pub record ExportedPassport : Type 0 where
  pub head : Summary
  pub capabilities : AgentCapabilities
  pub audit_log : List AuditEntry
  pub parent_agent : String
  pub revoked_at : Option Time
  pub revoke_reason : String

-- The text of the error, or the value.
pub record Codec : Type 0 where
  pub marshal : ExportedPassport → String ⊎ String
  pub unmarshal : String → String ⊎ ExportedPassport

-- What `Export` gives to the encoder.
unfoldable pub exported : AgentPassport → ExportedPassport
exported p = record {
  head = summary p;
  capabilities = p.capabilities;
  audit_log = p.audit_log;
  parent_agent = p.parent_agent_id;
  revoked_at = p.revoked_at;
  revoke_reason = p.revoke_reason;
}

-- `(*AgentPassport).Export`
unfoldable pub export : Codec → AgentPassport → String ⊎ String
unfolding exported
export c p = c.marshal (exported p)

-- The passport that `LoadAgentPassport` builds: the fields that it does not set are the zero values.
unfoldable pub loaded : ExportedPassport → AgentPassport
loaded x = record {
  agent_id = x.head.agent_id;
  agent_name = x.head.agent_name;
  agent_type = "general";
  owner_org = x.head.owner_org;
  owner_email = "";
  model = x.head.model;
  version = "1.0.0";
  status = x.head.status;
  trust_level = x.head.trust_level;
  parent_agent_id = x.parent_agent;
  issued_at = x.head.issued_at;
  expires_at = x.head.expires_at;
  revoked_at = x.revoked_at;
  revoke_reason = x.revoke_reason;
  capabilities = x.capabilities;
  fingerprint = x.head.fingerprint;
  audit_log = x.audit_log;
}

-- `LoadAgentPassport`
unfoldable pub load_agent_passport : Codec → String → Result AgentPassport
unfolding loaded
load_agent_passport c text = elim (c.unmarshal text) [
  | inl e ↦ err (wrapped Sentinel.registration e)
  | inr x ↦ ok (loaded x)
]
