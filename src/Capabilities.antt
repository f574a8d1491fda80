-- ===== src/Capabilities.antt =====
-- capabilities.go: trust levels, capability sets, the four presets and the test of an action.
--
-- `TrustLevel` and `Action` are Go strings, so a caller may pass any text.
pub mod Laws
use computeid_go.Common.Int.{ℤ, pos}
use computeid_go.Common.{ℕ, String, Bool, true, false, Option, none, List, [], ◌==◌, if◌then◌else◌}
use computeid_go.Common.Json.{Details}

abbrev pub TrustLevel : Type 0
TrustLevel = String

abbrev pub trust_restricted : TrustLevel
trust_restricted = "restricted"

abbrev pub trust_standard : TrustLevel
trust_standard = "standard"

abbrev pub trust_elevated : TrustLevel
trust_elevated = "elevated"

abbrev pub trust_autonomous : TrustLevel
trust_autonomous = "autonomous"

pub record AgentCapabilities : Type 0 where
  pub can_browse_web : Bool
  pub can_execute_code : Bool
  pub can_access_files : Bool
  pub can_call_apis : Bool
  pub can_spawn_agents : Bool
  pub can_access_database : Bool
  pub can_send_email : Bool
  pub max_actions_per_hour : ℤ
  pub trust_level : TrustLevel
  pub human_in_loop : Bool
  pub allowed_domains : List String
  pub allowed_tools : List String
  pub max_token_budget : Option ℤ
  pub custom_permissions : Details

-- The zero value, which a composite literal starts from.
abbrev pub no_capabilities : AgentCapabilities
no_capabilities = record {
  can_browse_web = false;
  can_execute_code = false;
  can_access_files = false;
  can_call_apis = false;
  can_spawn_agents = false;
  can_access_database = false;
  can_send_email = false;
  max_actions_per_hour = pos 0;
  trust_level = "";
  human_in_loop = false;
  allowed_domains = [];
  allowed_tools = [];
  max_token_budget = none;
  custom_permissions = [];
}

unfoldable pub restricted_capabilities : AgentCapabilities
restricted_capabilities = record no_capabilities {
  can_call_apis = true;
  max_actions_per_hour = pos 50;
  trust_level = trust_restricted;
  human_in_loop = true;
}

unfoldable pub standard_capabilities : AgentCapabilities
standard_capabilities = record no_capabilities {
  can_browse_web = true;
  can_call_apis = true;
  can_access_files = true;
  max_actions_per_hour = pos 200;
  trust_level = trust_standard;
  human_in_loop = true;
}

unfoldable pub elevated_capabilities : AgentCapabilities
elevated_capabilities = record no_capabilities {
  can_browse_web = true;
  can_execute_code = true;
  can_call_apis = true;
  can_access_files = true;
  can_spawn_agents = true;
  max_actions_per_hour = pos 1000;
  trust_level = trust_elevated;
  human_in_loop = false;
}

unfoldable pub autonomous_capabilities : AgentCapabilities
autonomous_capabilities = record no_capabilities {
  can_browse_web = true;
  can_execute_code = true;
  can_call_apis = true;
  can_access_files = true;
  can_spawn_agents = true;
  can_access_database = true;
  can_send_email = true;
  max_actions_per_hour = pos 10000;
  trust_level = trust_autonomous;
  human_in_loop = false;
}

unfoldable pub capabilities_for : TrustLevel → AgentCapabilities
unfolding restricted_capabilities standard_capabilities elevated_capabilities
    autonomous_capabilities
capabilities_for level =
    if level == trust_restricted
    then restricted_capabilities
    else if level == trust_elevated
    then elevated_capabilities
    else if level == trust_autonomous
    then autonomous_capabilities
    else standard_capabilities

abbrev pub Action : Type 0
Action = String

abbrev pub action_browse_web : Action
action_browse_web = "browse_web"

abbrev pub action_execute_code : Action
action_execute_code = "execute_code"

abbrev pub action_access_files : Action
action_access_files = "access_files"

abbrev pub action_call_api : Action
action_call_api = "call_api"

abbrev pub action_spawn_agent : Action
action_spawn_agent = "spawn_agent"

abbrev pub action_access_database : Action
action_access_database = "access_database"

abbrev pub action_send_email : Action
action_send_email = "send_email"

unfoldable pub allows : AgentCapabilities → Action → Bool
allows c a =
    if a == action_browse_web
    then c.can_browse_web
    else if a == action_execute_code
    then c.can_execute_code
    else if a == action_access_files
    then c.can_access_files
    else if a == action_call_api
    then c.can_call_apis
    else if a == action_spawn_agent
    then c.can_spawn_agents
    else if a == action_access_database
    then c.can_access_database
    else if a == action_send_email
    then c.can_send_email
    else false
