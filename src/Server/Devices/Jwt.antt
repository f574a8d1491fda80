-- ===== src/Server/Devices/Jwt.antt =====
-- `verifyJWT` of server/handlers_devices.go.
--
-- `hmac.Equal` decides equality of byte strings. Decoding base64 and JSON is the standard
-- library's: a `JwtReader` gives it, with the text of an error or the value; claims are read as a
-- `map[string]any`.
pub mod Laws
use Prim.Native.Char.{Char, code}
use Prim.Native.String
use computeid_go.Common.{
  ℕ, String, Bool, true, false, not, List, [], ◌∷◌, ◌⊎◌, inl, inr, ◌==◌, nat_eq, if◌then◌else◌,
}
use computeid_go.Common.Json.{Details}
use computeid_go.Common.Chars.{split_on}
use computeid_go.Server.Devices.{JwtKit}

infixr 65 ◌++◌
abbrev ◌++◌ : String → String → String
s ++ t = String.◌++◌ s t

pub record JwtReader : Type 0 where
  pub decode : String → String ⊎ String
  pub unmarshal_claims : String → String ⊎ Details

-- The signature that belongs to a header and a payload.
abbrev pub mac_of : JwtKit → String → String → String → String
mac_of k secret head payload = k.base64url (k.hmac_sha256 secret (head ++ "." ++ payload))

unfoldable pub read_claims : JwtReader → String → String ⊎ Details
read_claims r payload = elim (r.decode payload) [ inl e ↦ inl e | inr raw ↦ r.unmarshal_claims raw ]

unfoldable pub verify_parts : JwtKit → JwtReader → String → List String → String ⊎ Details
verify_parts k r secret (head ∷ payload ∷ sig ∷ []) =
    if not (mac_of k secret head payload == sig) then inl "bad signature" else read_claims r payload
verify_parts k r secret _ = inl "malformed token"

-- `verifyJWT`
unfoldable pub verify_jwt : JwtKit → JwtReader → String → String → String ⊎ Details
verify_jwt k r secret token = verify_parts k r secret (split_on b'.' token)
