-- ===== src/Issue.antt =====
-- `IssueAgentPassport` of agent.go and `IssueAgentPassportQuick` of helpers.go.
--
-- The parent is a pointer in the code: its `IsTrusted` may mark it expired, so it comes back beside
-- the result. SHA-256 and the printed form of a `time.Time` are the standard library's and enter as
-- a `Digest`.
pub mod Laws
use Prim.Native.String
use computeid_go.Common.{
  ℕ, ◌+◌, ◌*◌, String, Bool, true, false, not, ◌||◌, Option, none, some, List, [], ◌∷◌, ◌==◌, inl,
  inr, ◌⊎◌, if◌then◌else◌,
}
use computeid_go.Common.Json.{str}
use computeid_go.Common.Int.{ℤ, pos, is_nonpositive, magnitude}
use computeid_go.Sys.{Time, Sys, now}
use computeid_go.Uuid.{new_uuid, hex}
use computeid_go.Errors.{Sentinel, wrapped, Result, ok, err}
use computeid_go.Capabilities.{TrustLevel, AgentCapabilities, capabilities_for}
use computeid_go.Agent.{AgentPassport, status_active, outcome_success, log_action, is_trusted}

pub record Digest : Type 0 where
  pub sha256 : String → List ℕ
  pub print_time : Time → String

pub record IssueOptions : Type 0 where
  pub agent_name : String
  pub agent_type : String
  pub owner_org : String
  pub owner_email : String
  pub capabilities : AgentCapabilities
  pub model : String
  pub version : String
  pub expires_in : ℤ
  pub parent_passport : Option AgentPassport

abbrev pub nanoseconds_per_hour : ℕ
nanoseconds_per_hour = 3600 * 1000000000

infixr 65 ◌++◌
abbrev ◌++◌ : String → String → String
s ++ t = String.◌++◌ s t

-- `computeFingerprint`, at the four parts that its one caller gives it. `fmt.Fprint` of one operand
-- adds nothing to it.
unfoldable pub compute_fingerprint : Digest → String → String → String → Time → String
compute_fingerprint g agent_id agent_name owner_org issued_at =
    String.slice (hex (g.sha256 (agent_id ++ agent_name ++ owner_org ++ g.print_time issued_at))) 0
      16

abbrev pub or_default : String → String → String
or_default s d = if s == "" then d else s

-- The two tests of the parent, and the parent after them.
unfoldable pub check_parent :
    Option AgentPassport → Sys → Result (Unit {0}) × Option AgentPassport × Sys
check_parent none s = (ok tt, none, s)
check_parent (some parent) s =
    if not parent.capabilities.can_spawn_agents
    then (err (wrapped Sentinel.trust "parent agent cannot spawn child agents"), some parent, s)
    else (let (trusted, parent', s') = is_trusted parent s in
        if not trusted
        then (err (wrapped Sentinel.trust "parent agent is not trusted"), some parent', s')
        else (ok tt, some parent', s'))

abbrev pub parent_id : Option AgentPassport → String
parent_id none = ""
parent_id (some parent) = parent.agent_id

-- The duration, or a day.
abbrev pub lifetime : ℤ → ℕ
lifetime d = if is_nonpositive d then 24 * nanoseconds_per_hour else magnitude d

-- The passport before its first entry.
unfoldable pub new_passport :
    Digest → IssueOptions → Option AgentPassport → String → Time → AgentPassport
new_passport g opts parent agent_id t = record {
  agent_id = agent_id;
  agent_name = opts.agent_name;
  agent_type = or_default opts.agent_type "general";
  owner_org = opts.owner_org;
  owner_email = opts.owner_email;
  model = or_default opts.model "unknown";
  version = or_default opts.version "1.0.0";
  status = status_active;
  trust_level = opts.capabilities.trust_level;
  parent_agent_id = parent_id parent;
  issued_at = t;
  expires_at = t + lifetime opts.expires_in;
  revoked_at = none;
  revoke_reason = "";
  capabilities = opts.capabilities;
  fingerprint = compute_fingerprint g agent_id opts.agent_name opts.owner_org t;
  audit_log = [];
}

-- What follows once the parent has passed: the clock, then the identifier, then the first entry.
unfoldable pub mint :
    Digest
    → IssueOptions
    → Option AgentPassport
    → Sys
    → Result AgentPassport × Option AgentPassport × Sys
mint g opts parent s =
    let (t, s₁) = now s in
    let (drawn, s₂) = new_uuid s₁ in
    elim drawn [
      | inl e ↦ (err (wrapped Sentinel.registration e), parent, s₂)
      | inr agent_id ↦
          let (_, p, s₃) =
            log_action "passport_issued" (("agent_name", str opts.agent_name) ∷ []) outcome_success
              (new_passport g opts parent agent_id t) s₂ in
          (ok p, parent, s₃)
    ]

abbrev pub missing_required : IssueOptions → Bool
missing_required opts = opts.agent_name == "" || opts.owner_org == "" || opts.owner_email == ""

-- `IssueAgentPassport`
unfoldable pub issue_agent_passport :
    Digest → IssueOptions → Sys → Result AgentPassport × Option AgentPassport × Sys
issue_agent_passport g opts s =
    if missing_required opts
    then (
      err (wrapped Sentinel.registration "agent_name, owner_org and owner_email are required"),
      opts.parent_passport,
      s,
    )
    else (let (checked, parent, s₁) = check_parent opts.parent_passport s in
        elim checked [ err e ↦ (err e, parent, s₁) | ok _ ↦ mint g opts parent s₁ ])

-- `IssueAgentPassportQuick`
unfoldable pub issue_agent_passport_quick :
    Digest
    → String
    → String
    → String
    → String
    → TrustLevel
    → Sys
    → Result AgentPassport × Option AgentPassport × Sys
issue_agent_passport_quick g agent_name owner_org owner_email model level s =
    issue_agent_passport g
      (record {
        agent_name = agent_name;
        agent_type = "general";
        owner_org = owner_org;
        owner_email = owner_email;
        capabilities = capabilities_for level;
        model = model;
        version = "";
        expires_in = pos 0;
        parent_passport = none;
      })
      s
