-- ===== src/Uuid.antt =====
-- `newUUID` of agent.go and of server/server.go: RFC 4122 version 4 identifiers.
pub mod Laws
use Prim.Native.Nat.{bit_and, bit_or}
use Prim.Native.String
use computeid_go.Common.{
  ℕ, ◌-◌, ◌/◌, ◌%◌, String, ◌⊎◌, inl, inr, List, [], ◌∷◌, get_or, set, take, drop,
}
use computeid_go.Sys.{filled, failed, Sys, rand_read}

abbrev pub hex_digits : List String
hex_digits =
    "0" ∷ "1" ∷ "2" ∷ "3" ∷ "4" ∷ "5" ∷ "6" ∷ "7" ∷ "8" ∷ "9" ∷ "a" ∷ "b" ∷ "c" ∷ "d" ∷ "e" ∷ "f"
    ∷ []

abbrev pub hex_digit : ℕ → String
hex_digit n = get_or hex_digits n "?"

infixr 65 ◌++◌
abbrev ◌++◌ : String → String → String
s ++ t = String.◌++◌ s t

-- `%x` of a byte slice: two lower-case digits a byte.
unfoldable pub hex : List ℕ → String
hex [] = ""
hex (b ∷ bs) = hex_digit (b / 16) ++ hex_digit (b % 16) ++ hex bs

-- `b[6] = (b[6] & 0x0f) | 0x40` and `b[8] = (b[8] & 0x3f) | 0x80`
unfoldable pub set_version : ℕ → ℕ
set_version b = bit_or (bit_and b 0x0f) 0x40

unfoldable pub set_variant : ℕ → ℕ
set_variant b = bit_or (bit_and b 0x3f) 0x80

unfoldable pub stamp : List ℕ → List ℕ
stamp b = let c = set b 6 (set_version (get_or b 6 0)) in set c 8 (set_variant (get_or c 8 0))

-- `b[i:j]`
abbrev pub slice : ℕ → ℕ → List ℕ → List ℕ
slice i j b = take (j - i) (drop i b)

-- `fmt.Sprintf("%08x-%04x-%04x-%04x-%012x", ...)`: the slices have the widths of the formats, so
-- nothing is padded.
unfoldable pub format_uuid : List ℕ → String
format_uuid b =
    hex (slice 0 4 b)
    ++ "-"
    ++ hex (slice 4 6 b)
    ++ "-"
    ++ hex (slice 6 8 b)
    ++ "-"
    ++ hex (slice 8 10 b)
    ++ "-"
    ++ hex (slice 10 16 b)

-- `newUUID` of the SDK: the text of the error of `rand.Read`, or the identifier.
unfoldable pub new_uuid : Sys → (String ⊎ String) × Sys
new_uuid s =
    let (read, s') = rand_read s in
    (elim read [ failed e _ ↦ inl e | filled b ↦ inr (format_uuid (stamp b)) ], s')

-- `newUUID` of the server takes the array as it is, also where the read failed.
unfoldable pub new_uuid_unchecked : Sys → String × Sys
new_uuid_unchecked s =
    let (read, s') = rand_read s in
    (format_uuid (stamp (elim read [ failed _ b ↦ b | filled b ↦ b ])), s')
