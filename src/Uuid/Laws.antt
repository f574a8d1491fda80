-- ===== src/Uuid/Laws.antt =====
-- What `newUUID` makes of its sixteen random bytes.
use computeid_go.Common.{
  ℕ, zero, suc, ◌+◌, ◌%◌, ◌<◌, ◌≡◌, ◌≢◌, refl, Bool, true, ◌&&◌, arith, nat_eq, List, get_elem?,
  set, some, get_elem?-set_self, get_elem?-set_ne, get_or-get_elem?, sym, ◌∙◌,
}
use computeid_go.Uuid.{set_version, set_variant, stamp}

-- Whether two functions agree on every number up to a bound, by evaluation.
agree : (ℕ → ℕ) → (ℕ → ℕ) → ℕ → Bool
agree f g zero = true
agree f g (suc n) = agree f g n && nat_eq (f n) (g n)

agree_at : (f g : ℕ → ℕ) (n x : ℕ) → x < n → agree f g n ≡ true → f x ≡ g x
unfolding agree
agree_at f g zero x below h = absurd (omega arith)
agree_at f g (suc n) x below h = ground (arith, agree_at f g n x)

versions : agree set_version (λ x. 64 + x % 16) 256 ≡ true
unfolding agree set_version
versions = refl

variants : agree set_variant (λ x. 128 + x % 64) 256 ≡ true
unfolding agree set_variant
variants = refl

abbrev pub IsByte : ℕ → Type 0
IsByte b = b < 256

-- A byte that has been marked as version 4, and one marked as variant 10: the low bits stay.
set_version_lem : (x : ℕ) → IsByte x → set_version x ≡ 64 + x % 16
set_version_lem x h = agree_at set_version (λ x. 64 + x % 16) 256 x h versions

set_variant_lem : (x : ℕ) → IsByte x → set_variant x ≡ 128 + x % 64
set_variant_lem x h = agree_at set_variant (λ x. 128 + x % 64) 256 x h variants

-- Where bytes 6 and 8 are there and below 256, they come to carry the version and the variant
-- above their low bits, and every other byte stays as it was.
pub stamp_lem :
    (b : List ℕ) (x y : ℕ)
    → get_elem? b 6 ≡ some x
    → get_elem? b 8 ≡ some y
    → IsByte x
    → IsByte y
    → (get_elem? (stamp b) 6 ≡ some (64 + x % 16))
      × (get_elem? (stamp b) 8 ≡ some (128 + y % 64))
      × ((i : ℕ) → i ≢ 6 → i ≢ 8 → get_elem? (stamp b) i ≡ get_elem? b i)
unfolding stamp
stamp_lem b x y six eight small_x small_y =
    let c = set b 6 (set_version x) in
    let there : get_elem? c 8 ≡ some y =
      get_elem?-set_ne b 6 8 (set_version x) (λ e. omega arith) ∙ eight in
    let same : stamp b ≡ set c 8 (set_variant y) =
      rw (get_or-get_elem? b 6 0 x six, get_or-get_elem? c 8 0 y there) in
    (
      rw (
        same,
        get_elem?-set_ne c 8 6 (set_variant y) (λ e. omega arith),
        get_elem?-set_self b 6 six,
        set_version_lem x small_x,
      ),
      rw (same, get_elem?-set_self c 8 there, set_variant_lem y small_y),
      λ i not_six not_eight. rw (
        same,
        get_elem?-set_ne c 8 i (set_variant y) (λ e. not_eight (sym e)),
        get_elem?-set_ne b 6 i (set_version x) (λ e. not_six (sym e)),
      ),
    )
