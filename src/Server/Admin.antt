-- ===== src/Server/Admin.antt =====
-- `checkAdmin` and `constantTimeEq` of server/server.go. Tokens are the bytes of a Go string.
pub mod Bits
pub mod Laws
use Prim.Native.Nat.{bit_or, bit_xor}
use computeid_go.Common.{
  ℕ, Bool, true, false, not, ◌||◌, List, [], ◌∷◌, length, nat_eq, if◌then◌else◌,
}

-- The loop, on two texts of one length: `diff |= a[i] ^ b[i]`.
unfoldable pub difference : ℕ → List ℕ → List ℕ → ℕ
difference diff [] _ = diff
difference diff (_ ∷ _) [] = diff
difference diff (a ∷ as') (b ∷ bs) = difference (bit_or diff (bit_xor a b)) as' bs

-- `constantTimeEq`
unfoldable pub constant_time_eq : List ℕ → List ℕ → Bool
constant_time_eq a b =
    if not (nat_eq (length a) (length b)) then false else nat_eq (difference 0 a b) 0

abbrev is_empty : List ℕ → Bool
is_empty [] = true
is_empty (_ ∷ _) = false

-- `checkAdmin`: the configured token and the header that was provided; `false` is the answer 401.
unfoldable pub check_admin : List ℕ → List ℕ → Bool
check_admin admin_token provided =
    if is_empty admin_token
    then true
    else if is_empty provided || not (constant_time_eq provided admin_token)
    then false
    else true
