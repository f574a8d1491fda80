-- ===== src/Server/Platform.antt =====
-- What the handlers take from outside the repository besides the database: the standard library's
-- cryptography, JSON and text formats, and the input syntax of PostgreSQL's `uuid` and `jsonb`.
use computeid_go.Common.{String, List, Option}
use computeid_go.Common.Json.{Json, Details}
use computeid_go.Sys.{Time}
use computeid_go.Server.Text.{Decoder}
use computeid_go.Server.Signer.{Crypto}

pub record AgentRegisterRequest : Type 0 where
  pub name : String
  pub description : String
  pub organization : String
  pub capabilities : List String

pub record LogActionRequest : Type 0 where
  pub action : String
  pub details : Details
  pub outcome : String

pub record RevokeRequest : Type 0 where
  pub reason : String

pub record DeviceRegisterRequest : Type 0 where
  pub name : String
  pub device_type : String
  pub ip_address : String

pub record DeviceAuthRequest : Type 0 where
  pub device_code : String

pub record Platform : Type 0 where
  pub crypto : Crypto
  -- `%q`
  pub quote : String → String
  -- `time.RFC3339Nano`
  pub format_time : Time → String
  -- `json.Marshal` of a `map[string]any`
  pub marshal_details : Details → String
  -- `json.Unmarshal` into each request
  pub agent_register : Decoder AgentRegisterRequest
  pub log_action : Decoder LogActionRequest
  pub revoke : Decoder RevokeRequest
  pub device_register : Decoder DeviceRegisterRequest
  pub device_auth : Decoder DeviceAuthRequest
  -- the canonical form of a text that PostgreSQL reads as a uuid, and its reading of `jsonb`
  pub uuid_of : String → Option String
  pub jsonb_of : String → Option Json
  -- `strings.ToUpper`
  pub to_upper : String → String
