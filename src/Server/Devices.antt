-- ===== src/Server/Devices.antt =====
-- server/handlers_devices.go: how a device that was registered is approved and gets a token.
pub mod Laws
pub mod Approval
pub mod Register
pub mod Jwt
use Prim.Native.String
use computeid_go.Common.{
  ℕ, zero, suc, ◌+◌, ◌*◌, String, Bool, true, false, ◌&&◌, not, Option, none, some, List, [], ◌∷◌,
  ◌⊎◌, inl, inr, ◌==◌, if◌then◌else◌,
}
use computeid_go.Common.Int.{ℤ}
use computeid_go.Sys.{Time}
use computeid_go.Server.Db.{
  DeviceRow, Db, World, M, ◌>>=◌, pure, Statement, Sql, execute, read_clock,
}
use computeid_go.Server.Text.{RequestBody, read_json, Response, answer, error}
use computeid_go.Server.Platform.{Platform, DeviceAuthRequest}
use computeid_go.Server.Tables.{with_uuid}

infixr 65 ◌++◌
abbrev ◌++◌ : String → String → String
s ++ t = String.◌++◌ s t

-- The claims that a token carries.
pub record Claims : Type 0 where
  pub sub : String
  pub device_code : String
  pub exp : ℤ
  pub iss : String

-- JSON, base64, HMAC and Unix time are the standard library's; `header` is the JSON of the header.
pub record JwtKit : Type 0 where
  pub header : String
  pub marshal_claims : Claims → String ⊎ String
  pub base64url : String → String
  pub hmac_sha256 : String → String → String
  pub unix : Time → ℤ

-- `signJWT`
unfoldable pub sign_jwt : JwtKit → String → Claims → String ⊎ String
sign_jwt k secret claims = elim (k.marshal_claims claims) [
  | inl e ↦ inl e
  | inr c ↦
      let head = k.base64url k.header in
      let payload = k.base64url c in
      let mac = k.base64url (k.hmac_sha256 secret (head ++ "." ++ payload)) in
      inr (head ++ "." ++ payload ++ "." ++ mac)
]

-- `SELECT device_id::text, status FROM devices WHERE device_code = $1`
unfoldable pub find_device : String → List DeviceRow → Option DeviceRow
find_device code [] = none
find_device code (d ∷ ds) = if d.device_code == code then some d else find_device code ds

unfoldable pub select_device : String → Sql (Option DeviceRow)
select_device code st d = inr (find_device code d.devices, d)

pub record DeviceAuthResponse : Type 0 where
  pub access_token : String
  pub token_type : String
  pub expires_at : Time

abbrev pub hour : ℕ
hour = 3600 * 1000000000

abbrev pub claims_of : JwtKit → String → DeviceRow → Time → Claims
claims_of k code d expires = record {
  sub = d.device_id;
  device_code = code;
  exp = k.unix expires;
  iss = "computeid-server";
}

abbrev pub token_answer : Time → String ⊎ String → Response DeviceAuthResponse
token_answer expires (inl e) = error 500 ("sign token: " ++ e)
token_answer expires (inr token) =
    answer 200 (record { access_token = token; token_type = "Bearer"; expires_at = expires })

-- The token for an active device.
unfoldable pub issue_token : JwtKit → String → String → DeviceRow → M (Response DeviceAuthResponse)
issue_token k secret code d = do
  t ← read_clock
  pure (token_answer (t + hour) (sign_jwt k secret (claims_of k code d (t + hour))))

-- After the query.
unfoldable pub after_select :
    JwtKit → String → String → String ⊎ Option DeviceRow → M (Response DeviceAuthResponse)
after_select k secret code (inl e) = pure (error 500 e)
after_select k secret code (inr none) = pure (error 404 "device not found")
after_select k secret code (inr (some d)) =
    if not (d.status == "active")
    then pure (error 403 ("device status is " ++ d.status ++ "; cannot authenticate"))
    else issue_token k secret code d

unfoldable pub authenticate_decoded :
    JwtKit → String → DeviceAuthRequest × Option String → M (Response DeviceAuthResponse)
authenticate_decoded k secret (req, some e) = pure (error 400 ("invalid JSON: " ++ e))
authenticate_decoded k secret (req, none) =
    if req.device_code == "" then pure (error 400 "device_code is required") else (do
      row ← execute (select_device req.device_code)
      after_select k secret req.device_code row)

abbrev pub no_code : DeviceAuthRequest
no_code = record { device_code = "" }

-- `handleDeviceAuthenticate`
unfoldable pub handle_device_authenticate :
    Platform → JwtKit → String → RequestBody → M (Response DeviceAuthResponse)
handle_device_authenticate pl k secret body =
    authenticate_decoded k secret (read_json no_code pl.device_auth body)

-- `UPDATE devices SET status = 'active', approved_at = now() WHERE device_id = $1 AND status = 'pending'`
abbrev pub is_waiting : String → DeviceRow → Bool
is_waiting id d = d.device_id == id && d.status == "pending"

abbrev pub approved : Statement → DeviceRow → DeviceRow
approved st d = record d { status = "active"; approved_at = some st.time }

unfoldable pub approve_rows : String → Statement → List DeviceRow → List DeviceRow
approve_rows id st [] = []
approve_rows id st (d ∷ ds) = (if is_waiting id d then approved st d else d) ∷ approve_rows id st ds

unfoldable pub count_waiting : String → List DeviceRow → ℕ
count_waiting id [] = 0
count_waiting id (d ∷ ds) = if is_waiting id d then count_waiting id ds + 1 else count_waiting id ds

unfoldable pub approve_device : String → Sql ℕ
approve_device id st d =
    inr (count_waiting id d.devices, record d { devices = approve_rows id st d.devices })

-- `{"status": "active"}`
pub data Approved : Type 0 where
  approved_active : Approved

unfoldable pub after_approve : String ⊎ ℕ → Response Approved
after_approve (inl e) = error 500 e
after_approve (inr zero) = error 404 "device not found or not pending"
after_approve (inr (suc n)) = answer 200 approved_active

-- `handleDeviceApprove`
unfoldable pub handle_device_approve : Platform → String → M (Response Approved)
handle_device_approve pl id = do
  rows ← execute (with_uuid pl id approve_device)
  pure (after_approve rows)
