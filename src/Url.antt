-- ===== src/Url.antt =====
-- What the client and the server use of net/url: `PathEscape`, `QueryEscape`, and how the path of a
-- request is read. A Go string is a text whose characters are its bytes.
pub mod Laws
pub mod Inner
use Prim.Native.Char.{Char, char, code, nul, IsScalar}
use Prim.Native.Nat.{compare, Ordering}
use Prim.Native.String
use mathlib.Core.Logic.{dite}
use native.Mathlib.Decide.{dec_lt}
use computeid_go.Common.{
  ℕ, ◌+◌, ◌-◌, ◌*◌, ◌/◌, ◌%◌, ◌<◌, ◌≡◌, String, Bool, true, false, ◌||◌, ◌&&◌, not, Option, none,
  some, nat_eq, leb, if◌then◌else◌, arith,
}

infixr 65 ◌++◌
abbrev pub ◌++◌ : String → String → String
s ++ t = String.◌++◌ s t

below_surrogates : (n : ℕ) → n < 256 → compare n 55296 ≡ Ordering.lt
below_surrogates n h = ground arith

pub is_scalar : (n : ℕ) → n < 256 → IsScalar n
is_scalar n h = rw (below_surrogates n h) tt

-- The character of a byte.
unfoldable pub byte_char : ℕ → Char
unfolding dec_lt
byte_char n = dite (dec_lt n 256) (λ h. char n (is_scalar n h)) (λ _. nul)

-- `'A' <= c && c <= 'Z'` and the like.
abbrev pub between : ℕ → ℕ → ℕ → Bool
between a z c = leb a c && leb c z

unfoldable pub is_alnum : ℕ → Bool
is_alnum c = between b'a' b'z' c || (between b'A' b'Z' c || between b'0' b'9' c)

-- The characters that `shouldEscape` leaves alone everywhere.
unfoldable pub is_unreserved : ℕ → Bool
unfolding is_alnum
is_unreserved c =
    is_alnum c || (nat_eq c b'-' || (nat_eq c b'_' || (nat_eq c b'.' || nat_eq c b'~')))

-- In a path segment these are left alone too; `/ ; , ?` are not.
unfoldable pub is_plain : ℕ → Bool
unfolding is_unreserved
is_plain c =
    is_unreserved c
    || (nat_eq c b'$'
        || (nat_eq c b'&'
            || (nat_eq c b'+' || (nat_eq c b':' || (nat_eq c b'=' || nat_eq c b'@')))))

-- `"0123456789ABCDEF"[n]`
unfoldable pub upper_hex : ℕ → Char
unfolding byte_char
upper_hex n = byte_char (if leb n 9 then b'0' + n else b'A' + n - 10)

unfoldable pub percent : ℕ → String
unfolding upper_hex
percent c =
    String.◌∷◌ "%" (String.◌∷◌ (upper_hex (c / 16)) (String.◌∷◌ (upper_hex (c % 16)) String.[]))

unfoldable pub escape_with : (ℕ → String) → String → String
escape_with f String.[] = String.[]
escape_with f (String.◌∷◌ c s) = f (code c) ++ escape_with f s

abbrev pub one : ℕ → String
one c = String.◌∷◌ (byte_char c) String.[]

-- `url.PathEscape`
unfoldable pub escape_byte : ℕ → String
unfolding is_plain percent
escape_byte c = if is_plain c then one c else percent c

unfoldable pub path_escape : String → String
unfolding escape_with escape_byte
path_escape s = escape_with escape_byte s

-- `url.QueryEscape`
unfoldable pub query_byte : ℕ → String
unfolding is_unreserved percent
query_byte c = if is_unreserved c then one c else if nat_eq c b' ' then "+" else percent c

unfoldable pub query_escape : String → String
unfolding escape_with query_byte
query_escape s = escape_with query_byte s

-- The value of a hexadecimal digit.
unfoldable pub hex_value : ℕ → Option ℕ
hex_value c =
    if between b'0' b'9' c
    then some (c - b'0')
    else if between b'a' b'f' c
    then some (c - b'a' + 10)
    else if between b'A' b'F' c
    then some (c - b'A' + 10)
    else none

-- Where `unescape` stands: between characters, behind a percent sign, or behind its first digit.
pub data Pending : Type 0 where
  between_bytes : Pending
  after_percent : Pending
  after_digit : ℕ → Pending

abbrev pub push : Char → Option String → Option String
push c none = none
push c (some s) = some (String.◌∷◌ c s)

unfoldable pub read_escaped : Pending → String → Option String
read_escaped between_bytes String.[] = some String.[]
read_escaped after_percent String.[] = none
read_escaped (after_digit h) String.[] = none
read_escaped between_bytes (String.◌∷◌ c s) = elim (nat_eq (code c) b'%') [
  | true ↦ read_escaped after_percent s
  | false ↦ push c (read_escaped between_bytes s)
]
read_escaped after_percent (String.◌∷◌ c s) = elim (hex_value (code c)) [
  | none ↦ none
  | some h ↦ read_escaped (after_digit h) s
]
read_escaped (after_digit h) (String.◌∷◌ c s) = elim (hex_value (code c)) [
  | none ↦ none
  | some l ↦ push (byte_char (16 * h + l)) (read_escaped between_bytes s)
]

-- `unescape` of a path: a `+` stays.
unfoldable pub path_unescape : String → Option String
path_unescape s = read_escaped between_bytes s

-- The path of a request target ends at a query or a fragment.
unfoldable pub before_query : String → String
before_query String.[] = String.[]
before_query (String.◌∷◌ c s) =
    let rest = before_query s in
    if nat_eq (code c) b'?' || nat_eq (code c) b'#' then String.[] else String.◌∷◌ c rest
