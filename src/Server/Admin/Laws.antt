-- ===== src/Server/Admin/Laws.antt =====
-- Who passes the admin check (server/server.go).
use computeid_go.Common.{
  ℕ, ◌≡◌, refl, ◌↔◌, ◌⊎◌, inl, inr, true, List, [], ◌∷◌, length, nat_cases, arith, Bool-cases, ap,
}
use Prim.Native.Nat.{bit_or, bit_xor}
use computeid_go.Server.Admin.{difference, constant_time_eq, check_admin}
use computeid_go.Server.Admin.Bits.{bit_xor-eq-zero_iff, bit_or-eq-zero_iff}

difference_iff :
    (d : ℕ) (a b : List ℕ) → length a ≡ length b → (difference d a b ≡ 0) ↔ ((d ≡ 0) × (a ≡ b))
unfolding difference
difference_iff d [] [] h = (λ e. (e, refl), λ e. e.0)
difference_iff d [] (y ∷ b) h = absurd (omega arith)
difference_iff d (x ∷ a) [] h = absurd (omega arith)
difference_iff d (x ∷ a) (y ∷ b) h =
    let ih = difference_iff (bit_or d (bit_xor x y)) a b (omega arith) in
    (
      λ e.
          let (both, rest) = ih.0 e in
          let (zero_d, zero_x) = (bit_or-eq-zero_iff d (bit_xor x y)).0 both in
          (zero_d, rw ((bit_xor-eq-zero_iff x y).0 zero_x, rest)),
      λ e. ih.1 (
        (bit_or-eq-zero_iff d (bit_xor x y)).1 (e.0, (bit_xor-eq-zero_iff x y).1 (ground arith)),
        ground arith,
      ),
    )

-- The comparison that looks at every byte decides equality.
pub constant_time_eq_iff : (a b : List ℕ) → (constant_time_eq a b ≡ true) ↔ (a ≡ b)
unfolding constant_time_eq
constant_time_eq_iff a b = elim (nat_cases (length a) (length b)) [
  | inl same ↦
      let (equal_of, of_equal) = difference_iff 0 a b same in
      (λ h. (equal_of (ground arith)).1, λ e. ground (arith, of_equal (refl, e)))
  | inr other ↦ (λ h. ground arith, λ e. absurd (other (ap length e)))
]

-- With no token configured every request passes; otherwise exactly those whose header is the token.
pub check_admin_iff :
    (admin_token provided : List ℕ)
    → (check_admin admin_token provided ≡ true) ↔ ((admin_token ≡ []) ⊎ (provided ≡ admin_token))
unfolding check_admin
check_admin_iff [] provided = (λ _. inl refl, λ _. refl)
check_admin_iff (x ∷ t) [] = (λ h. cc, λ h. ground arith)
check_admin_iff (x ∷ t) (y ∷ u) =
    let (to, from) = constant_time_eq_iff (y ∷ u) (x ∷ t) in
    elim (Bool-cases (constant_time_eq (y ∷ u) (x ∷ t))) [
      | inl same ↦ rw same (λ _. inr (to same), λ _. refl)
      | inr other ↦ rw other (λ h. cc, λ h. elim h [ inl e ↦ cc | inr e ↦ cc (other, from e) ])
    ]
