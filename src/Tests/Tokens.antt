-- ===== src/Tests/Tokens.antt =====
-- A token that is signed and verified, with an encoding that is free of dots: server/handlers_devices.go.
use Prim.Native.Char.{code}
use text.Mathlib.TextEquality.{Char-path}
use computeid_go.Common.{
  ◌≡◌, refl, inl, inr, arith, ap, sym, String, Bool, true, false, nat_eq, nat_eq_iff, if◌then◌else◌,
  Bool-cases,
}
use computeid_go.Common.{[], ◌∷◌}
use computeid_go.Common.Json.{Details, str}
use computeid_go.Common.Int.{pos}
use computeid_go.Common.Chars.{Lacks, split_on, onto_first}
use computeid_go.Server.Db.{inr_injective}
use computeid_go.Server.Devices.{JwtKit, Claims, sign_jwt}
use computeid_go.Server.Devices.Jwt.{JwtReader, verify_jwt, verify_parts}
use computeid_go.Server.Devices.Jwt.Laws.{IsFaithful, verify_jwt-sign_jwt}

encode : String → String
encode String.[] = String.[]
encode (String.◌∷◌ c s) =
    let rest = encode s in
    if nat_eq (code c) b'.'
    then String.◌∷◌ "~" (String.◌∷◌ "0" rest)
    else if nat_eq (code c) b'~'
    then String.◌∷◌ "~" (String.◌∷◌ "~" rest)
    else String.◌∷◌ c rest

decode : Bool → String → String
decode escaped String.[] = String.[]
decode true (String.◌∷◌ c s) =
    let rest = decode false s in
    if nat_eq (code c) b'0' then String.◌∷◌ "." rest else String.◌∷◌ c rest
decode false (String.◌∷◌ c s) =
    let rest = decode false s in
    let inside = decode true s in if nat_eq (code c) b'~' then inside else String.◌∷◌ c rest

encode-Lacks : (s : String) → Lacks b'.' (encode s)
unfolding encode
encode-Lacks String.[] = tt
encode-Lacks (String.◌∷◌ c s) = elim (Bool-cases (nat_eq (code c) b'.')) [
  | inl dot ↦ rw dot (λ e. omega arith, (λ e. omega arith, encode-Lacks s))
  | inr other ↦ elim (Bool-cases (nat_eq (code c) b'~')) [
    | inl tilde ↦ rw (other, tilde) (λ e. omega arith, (λ e. omega arith, encode-Lacks s))
    | inr plain ↦ rw (other, plain) (λ e. ground arith, encode-Lacks s)
  ]
]

decode-encode : (s : String) → decode false (encode s) ≡ s
unfolding encode decode
decode-encode String.[] = refl
decode-encode (String.◌∷◌ c s) = elim (Bool-cases (nat_eq (code c) b'.')) [
  | inl dot ↦ rw (dot, decode-encode s, Char-path c "." ((nat_eq_iff (code c) b'.').0 dot)) refl
  | inr other ↦ elim (Bool-cases (nat_eq (code c) b'~')) [
    | inl tilde ↦
        rw (other, tilde, decode-encode s, Char-path c "~" ((nat_eq_iff (code c) b'~').0 tilde))
          refl
    | inr plain ↦ rw (other, plain, decode-encode s, plain) refl
  ]
]

abbrev kit : JwtKit
kit = record {
  header = "h";
  marshal_claims = λ c. inr c.sub;
  base64url = encode;
  hmac_sha256 = λ secret text. secret;
  unix = λ t. pos t;
}

abbrev holder : String → Claims
holder sub = record { sub = sub; device_code = "GPU-001"; exp = pos 1; iss = "computeid-server" }

abbrev seen : String → Details
seen sub = ("sub", str sub) ∷ ("iss", str "computeid-server") ∷ []

abbrev reader : JwtReader
reader = record { decode = λ t. inr (decode false t); unmarshal_claims = λ t. inr (seen t) }

kit-IsFaithful : IsFaithful kit reader (holder "d1") (seen "d1")
kit-IsFaithful = record {
  dotless = encode-Lacks;
  decodes = λ s. ap inr (decode-encode s);
  reads = λ s h. ap (λ t. inr (seen t)) (inr_injective (sym h));
}

signed : sign_jwt kit "key" (holder "d1") ≡ inr "h.d1.key"
unfolding sign_jwt encode
signed = refl

verify_jwt-sign_jwt_example : verify_jwt kit reader "key" "h.d1.key" ≡ inr (seen "d1")
verify_jwt-sign_jwt_example =
    verify_jwt-sign_jwt kit reader "key" "h.d1.key" (holder "d1") (seen "d1") kit-IsFaithful signed

another_key : verify_jwt kit reader "key" "h.d1.lock" ≡ inl "bad signature"
unfolding verify_jwt verify_parts split_on onto_first encode
another_key = refl
