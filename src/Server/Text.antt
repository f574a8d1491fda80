-- ===== src/Server/Text.antt =====
-- Text and requests: what the handlers use of the standard library (`strings`, `encoding/json`,
-- `net/http`), and `readJSON` and `writeError` of server/server.go.
use Prim.Native.Char.{code}
use computeid_go.Common.{
  ℕ, ◌*◌, String, Bool, ◌&&◌, ◌||◌, Option, none, some, List, [], ◌∷◌, ◌==◌, leb, nat_eq, take,
  if◌then◌else◌,
}

-- `unicode.IsSpace`
unfoldable pub is_space : ℕ → Bool
is_space c =
    (leb 9 c && leb c 13)
    || (nat_eq c 0x20
        || (nat_eq c 0x85
            || (nat_eq c 0xa0
                || (nat_eq c 0x1680
                    || ((leb 0x2000 c && leb c 0x200a)
                        || (nat_eq c 0x2028
                            || (nat_eq c 0x2029
                                || (nat_eq c 0x202f || (nat_eq c 0x205f || nat_eq c 0x3000)))))))))

-- `strings.TrimSpace`
unfoldable pub trim_left : String → String
trim_left String.[] = String.[]
trim_left (String.◌∷◌ c s) = if is_space (code c) then trim_left s else String.◌∷◌ c s

unfoldable pub trim_right : String → String
trim_right String.[] = String.[]
trim_right (String.◌∷◌ c s) =
    let rest = trim_right s in
    if is_space (code c) && rest == "" then String.[] else String.◌∷◌ c rest

unfoldable pub trim_space : String → String
trim_space s = trim_right (trim_left s)

-- The body of a request: its bytes, or the error of reading it.
pub data RequestBody : Type 0 where
  sent : List ℕ → RequestBody
  broken : String → RequestBody

-- `io.LimitReader(r.Body, 1<<20)`
abbrev pub body_limit : ℕ
body_limit = 1024 * 1024

unfoldable pub limited : List ℕ → List ℕ
limited = take body_limit

-- `json.Unmarshal` into a value that was zero: what it has stored, and its error.
abbrev pub Decoder : Type 0 → Type 0
Decoder A = List ℕ → A × Option String

-- `readJSON`
unfoldable pub read_json : {A : Type 0} → A → Decoder A → RequestBody → A × Option String
read_json zero decode (broken e) = (zero, some e)
read_json zero decode (sent bytes) = elim (limited bytes) [
  | [] ↦ (zero, none)
  | b ∷ bs ↦ decode (b ∷ bs)
]

-- A response with its status code; a body of type `A`, or an error in the form of `writeError`.
pub data Response (A : Type 0) : Type 0 where
  answer : ℕ → A → Response A
  error : ℕ → String → Response A
