-- ===== src/Client/Endpoints.antt =====
-- client.go, device.go and helpers.go: the calls of the REST API, one exchange each.
use computeid_go.Common.{
  ℕ, String, Bool, false, ◌&&◌, Option, none, some, List, [], ◌∷◌, ◌⊎◌, ◌==◌, if◌then◌else◌,
}
use computeid_go.Common.Dict.{Dict}
use computeid_go.Common.Int.{ℤ, is_nonpositive, magnitude}
use computeid_go.Common.Json.{Details}
use computeid_go.Sys.{Time}
use computeid_go.Errors.{Result}
use computeid_go.Device.{DevicePassport}
use computeid_go.Server.Text.{Decoder}
use computeid_go.Url.{path_escape, query_escape}
use computeid_go.Client.{◌++◌, Client, Transport, Net, new_client, with_api_key}
use computeid_go.Client.Requests.{do_request}

pub record AgentRegistration : Type 0 where
  pub name : String
  pub description : String
  pub organization : String
  pub capabilities : List String

pub record ServerAgentPassport : Type 0 where
  pub passport_id : String
  pub name : String
  pub description : String
  pub organization : String
  pub status : String
  pub public_key : String
  pub signature : String
  pub signature_algorithm : String
  pub capabilities : List String
  pub issued_at : Time

pub record VerificationResult : Type 0 where
  pub passport_id : String
  pub status : String
  pub signature_valid : Bool
  pub capabilities : List String
  pub issued_at : Time
  pub revoked_at : Option Time

-- `(VerificationResult).IsTrusted`
unfoldable pub result_is_trusted : VerificationResult → Bool
result_is_trusted v = v.status == "active" && v.signature_valid

pub record CapabilityCheck : Type 0 where
  pub granted : Bool
  pub capability : String
  pub scope : Details
  pub bound_at : Option Time
  pub reason : String

pub record ServerActionLog : Type 0 where
  pub action_id : String
  pub action : String
  pub details : Details
  pub outcome : String
  pub timestamp : Time

pub record LogActionRequest : Type 0 where
  pub action : String
  pub details : Details
  pub outcome : String

pub record RegisterDeviceRequest : Type 0 where
  pub name : String
  pub device_type : String
  pub ip_address : String

-- `json.Marshal` and `json.Unmarshal` at the types of the calls, and `strconv.Itoa`.
pub record Codec : Type 0 where
  pub net : Net
  pub registration : AgentRegistration → String ⊎ List ℕ
  pub action_request : LogActionRequest → String ⊎ List ℕ
  pub device_request : RegisterDeviceRequest → String ⊎ List ℕ
  pub texts : Dict String → String ⊎ List ℕ
  pub passport : Decoder ServerAgentPassport
  pub verification : Decoder VerificationResult
  pub check : Decoder CapabilityCheck
  pub actions : Decoder (List ServerActionLog)
  pub agents : Decoder (List ServerAgentPassport)
  pub device : Decoder DevicePassport
  pub access_token : Decoder String
  pub itoa : ℕ → String

-- The zero values that `out` starts as.
abbrev pub no_passport : ServerAgentPassport
no_passport = record {
  passport_id = "";
  name = "";
  description = "";
  organization = "";
  status = "";
  public_key = "";
  signature = "";
  signature_algorithm = "";
  capabilities = [];
  issued_at = 0;
}

abbrev pub no_verification : VerificationResult
no_verification = record {
  passport_id = "";
  status = "";
  signature_valid = false;
  capabilities = [];
  issued_at = 0;
  revoked_at = none;
}

abbrev pub no_check : CapabilityCheck
no_check = record { granted = false; capability = ""; scope = []; bound_at = none; reason = "" }

abbrev pub no_device : DevicePassport
no_device = record {
  device_id = "";
  device_code = "";
  name = "";
  device_type = "";
  ip_address = "";
  status = "";
  issued_at = 0;
}

-- The paths.
unfoldable pub verify_path : String → String
verify_path id = "/v1/agents/" ++ path_escape id ++ "/verify"

unfoldable pub capability_path : String → String → String
capability_path id name = "/v1/agents/" ++ path_escape id ++ "/capabilities/" ++ path_escape name

unfoldable pub actions_path : String → String
actions_path id = "/v1/agents/" ++ path_escape id ++ "/actions"

unfoldable pub limit_query : (ℕ → String) → ℤ → String
limit_query itoa limit = if is_nonpositive limit then "" else "?limit=" ++ itoa (magnitude limit)

unfoldable pub revoke_path : String → String
revoke_path id = "/v1/agents/" ++ path_escape id ++ "/revoke"

unfoldable pub agents_path : String → String
agents_path status =
    if status == "" then "/v1/agents" else "/v1/agents?status=" ++ query_escape status

module _ {W : Type 0} (k : Codec) (c : Client W) where
  unfoldable pub register_agent : AgentRegistration → W → Result ServerAgentPassport × W
  register_agent reg =
      do_request (k.net) c "POST" "/v1/agents/register" no_passport (some k.passport)
        (some (k.registration reg))

  unfoldable pub verify_agent : String → W → Result VerificationResult × W
  verify_agent id =
      do_request (k.net) c "GET" (verify_path id) no_verification (some k.verification) none

  unfoldable pub check_capability : String → String → W → Result CapabilityCheck × W
  check_capability id name =
      do_request (k.net) c "GET" (capability_path id name) no_check (some k.check) none

  unfoldable pub log_agent_action : String → LogActionRequest → W → Result (Unit {0}) × W
  log_agent_action id req =
      do_request (k.net) c "POST" (actions_path id) tt none (some (k.action_request req))

  unfoldable pub list_agent_actions : String → ℤ → W → Result (List ServerActionLog) × W
  list_agent_actions id limit =
      do_request (k.net) c "GET" (actions_path id ++ limit_query k.itoa limit) [] (some k.actions)
        none

  unfoldable pub revoke_agent : String → String → W → Result (Unit {0}) × W
  revoke_agent id reason =
      do_request (k.net) c "DELETE" (revoke_path id) tt none
        (some (k.texts (("reason", reason) ∷ [])))

  unfoldable pub list_agents : String → W → Result (List ServerAgentPassport) × W
  list_agents status = do_request (k.net) c "GET" (agents_path status) [] (some k.agents) none

  unfoldable pub register_device : RegisterDeviceRequest → W → Result DevicePassport × W
  register_device req =
      do_request (k.net) c "POST" "/api/devices/register" no_device (some k.device)
        (some (k.device_request req))

  unfoldable pub authenticate_device : String → W → Result String × W
  authenticate_device code =
      do_request (k.net) c "POST" "/api/devices/authenticate" "" (some k.access_token)
        (some (k.texts (("device_code", code) ∷ [])))

-- The calls that need no `Client`: `standard` is the transport of `NewClient`.
module _ {W : Type 0} (k : Codec) (standard : Transport W) where
  -- `RegisterDevice` of device.go
  unfoldable pub register_device_default :
      RegisterDeviceRequest → String → W → Result DevicePassport × W
  register_device_default req key =
      register_device k (new_client standard (with_api_key key ∷ [])) req

  -- `AuthenticateDevice` of device.go
  unfoldable pub authenticate_device_default : String → W → Result String × W
  authenticate_device_default code = authenticate_device k (new_client standard []) code

  -- `RegisterGPU` of helpers.go
  unfoldable pub register_gpu : String → String → String → W → Result DevicePassport × W
  register_gpu name ip key =
      register_device_default (record { name = name; device_type = "GPU"; ip_address = ip }) key
