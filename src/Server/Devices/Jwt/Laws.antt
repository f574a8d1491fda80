-- ===== src/Server/Devices/Jwt/Laws.antt =====
-- Which tokens `verifyJWT` accepts, and that it accepts those of `signJWT` (server/handlers_devices.go).
use text.Mathlib.TextLemmas.{nil-append, cons-append}
use computeid_go.Common.{
  ◌≡◌, ◌↔◌, inl, inr, String, true, List, [], ◌∷◌, ◌==◌, eq_iff, eq_refl, sym, ap, ◌∙◌, text_cases,
  All,
}
use computeid_go.Common.Json.{Details}
use computeid_go.Common.Chars.{
  Lacks, joined, split_on, split_on-Lacks, split_on-append, split_on_sound,
}
use computeid_go.Server.Db.{Sum-cases, inr_injective}
use computeid_go.Server.Devices.{JwtKit, Claims, sign_jwt}
use computeid_go.Server.Devices.Jwt.{◌++◌, JwtReader, mac_of, read_claims, verify_parts, verify_jwt}

abbrev pub NoDot : String → Type 0
NoDot = Lacks b'.'

dotted : (s : String) → "." ++ s ≡ String.◌∷◌ "." s
dotted s = cons-append "." "" s ∙ ap (String.◌∷◌ ".") (nil-append s)

dots : (a b c : String) → joined "." (a ∷ b ∷ c ∷ []) ≡ a ++ "." ++ b ++ "." ++ c
unfolding joined
dots a b c = rw (dotted c, dotted (b ++ String.◌∷◌ "." c))

-- A token with these claims that carries the signature of its header and payload under the secret.
pub record Carries (k : JwtKit) (r : JwtReader) (secret token : String) (claims : Details)
    : Type 0 where
  pub head : String
  pub payload : String
  pub clear : NoDot head × NoDot payload × NoDot (mac_of k secret head payload)
  pub text : token ≡ head ++ "." ++ payload ++ "." ++ mac_of k secret head payload
  pub read : read_claims r payload ≡ inr claims

three_parts :
    (k : JwtKit) (r : JwtReader) (secret : String) (parts : List String) (claims : Details)
    → verify_parts k r secret parts ≡ inr claims
    → (head : String) × (payload : String) × (parts
        ≡ head ∷ payload ∷ mac_of k secret head payload ∷ [])
      × (read_claims r payload ≡ inr claims)
unfolding verify_parts
three_parts k r secret [] claims h = cc
three_parts k r secret (a ∷ []) claims h = cc
three_parts k r secret (a ∷ b ∷ []) claims h = cc
three_parts k r secret (a ∷ b ∷ c ∷ d ∷ ps) claims h = cc
three_parts k r secret (a ∷ b ∷ c ∷ []) claims h = elim (text_cases (mac_of k secret a b) c) [
  | inr other ↦ cc (rw (other, verify_parts) at h)
  | inl same ↦
      let test : (mac_of k secret a b == c) ≡ true = (eq_iff (mac_of k secret a b) c).1 same in
      (a, b, ap (λ (x : String). a ∷ b ∷ x ∷ []) (sym same), rw (test, verify_parts) at h)
]

pub verify_jwt_iff :
    (k : JwtKit) (r : JwtReader) (secret token : String) (claims : Details)
    → (verify_jwt k r secret token ≡ inr claims) ↔ Carries k r secret token claims
unfolding verify_jwt joined verify_parts
verify_jwt_iff k r secret token claims = (
  λ h.
      let (head, payload, parts, read) = three_parts k r secret (split_on b'.' token) claims h in
      let (clear, whole) = split_on_sound "." token in
      let (c₁, (c₂, (c₃, _))) : All NoDot (head ∷ payload ∷ mac_of k secret head payload ∷ []) =
        rw parts at clear in
      record {
        head = head;
        payload = payload;
        clear = (c₁, c₂, c₃);
        text = sym whole ∙ ap (joined ".") parts ∙ dots head payload (mac_of k secret head payload);
        read = read;
      },
  λ c.
      let (h, p, m) = c.clear in
      rw
        (
          c.text,
          ← dots c.head c.payload (mac_of k secret c.head c.payload),
          split_on-append "." c.head _ h,
          split_on-append "." c.payload _ p,
          split_on-Lacks "." _ m,
          eq_refl (mac_of k secret c.head c.payload),
        )
        c.read,
)

-- What is relied on of the standard library: base64 for URLs has no dots and decodes, and the JSON
-- of the claims is read as the map `seen`.
pub record IsFaithful (k : JwtKit) (r : JwtReader) (claims : Claims) (seen : Details) : Type 0 where
  pub dotless : (s : String) → NoDot (k.base64url s)
  pub decodes : (s : String) → r.decode (k.base64url s) ≡ inr s
  pub reads : (s : String) → k.marshal_claims claims ≡ inr s → r.unmarshal_claims s ≡ inr seen

-- With such a standard library, a token that `signJWT` makes is accepted under the same secret, and
-- gives what the JSON of its claims is read as.
pub verify_jwt-sign_jwt :
    (k : JwtKit) (r : JwtReader)
    → (secret token : String) (claims : Claims) (seen : Details) → IsFaithful k r claims seen
    → sign_jwt k secret claims ≡ inr token
    → verify_jwt k r secret token ≡ inr seen
unfolding sign_jwt read_claims
verify_jwt-sign_jwt k r secret token claims seen f h = elim (Sum-cases (k.marshal_claims claims)) [
  | inl (e, m) ↦ cc (rw (m, sign_jwt) at h)
  | inr (c, m) ↦
      let head = k.base64url k.header in
      let payload = k.base64url c in
      let made : (head ++ "." ++ payload ++ "." ++ mac_of k secret head payload) ≡ token =
        inr_injective (rw (m, sign_jwt) at h) in
      (verify_jwt_iff k r secret token seen).1 (record {
        head = head;
        payload = payload;
        clear = (
          f.dotless k.header,
          f.dotless c,
          f.dotless (k.hmac_sha256 secret (head ++ "." ++ payload)),
        );
        text = sym made;
        read = rw (f.decodes c, read_claims) (f.reads c m);
      })
]
