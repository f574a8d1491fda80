-- ===== src/Server/Migrate/Listing.antt =====
-- The up migrations of the directory, and their order (server/migrate.go).
use Prim.Native.String
use text.Mathlib.TextLemmas.{nil-append, cons-append}
use computeid_go.Common.{
  ◌≡◌, ◌⊎◌, ◌↔◌, inl, inr, String, false, some, List, [], ◌∷◌, sym, ap, ◌∙◌, eq_iff, Bool-cases,
  Option-cases, text_cases, All, text_leb, some_injective,
}
use computeid_go.Server.Migrate.{
  Files, Entry, strip_suffix, has_suffix, trim_suffix, up_names, place, sort_strings,
}

-- The directory lists the file.
pub Holds : Entry → List Entry → Type 0
Holds e [] = ⊥
Holds e (x ∷ xs) = (x ≡ e) ⊎ Holds e xs

-- The directory has the up migration of this version: the file, no directory itself, whose name is
-- the version and then ".up.sql".
abbrev pub IsUp : Files → String → String → Type 0
IsUp files v name =
    (entries : List Entry) × (files.read_dir ≡ inr entries)
    × Holds (record { name = name; is_dir = false }) entries
    × (name ≡ String.◌++◌ v ".up.sql")

place-All :
    (P : String → Type 0) (x : String) (ys : List String) → All P (place x ys) ↔ (P x × All P ys)
unfolding place
place-All P x [] = (λ h. h, λ h. h)
place-All P x (y ∷ ys) = elim (Bool-cases (text_leb x y)) [
  | inl le ↦ rw le (λ h. h, λ h. h)
  | inr gt ↦
      let (out, back) = place-All P x ys in
      rw gt (
        λ (py, rest). ((out rest).0, (py, (out rest).1)),
        λ (px, (py, rest)). (py, back (px, rest)),
      )
]

-- Sorting keeps what holds of every name.
pub sort_strings-All : (P : String → Type 0) (xs : List String) → All P (sort_strings xs) ↔ All P xs
unfolding sort_strings
sort_strings-All P [] = (λ h. h, λ h. h)
sort_strings-All P (x ∷ xs) =
    let (out, back) = place-All P x (sort_strings xs) in
    let (all_out, all_back) = sort_strings-All P xs in
    (λ h. ((out h).0, all_out (out h).1), λ (px, rest). back (px, all_back rest))

strip_suffix_sound :
    (suffix s t : String) → strip_suffix suffix s ≡ some t → s ≡ String.◌++◌ t suffix
unfolding strip_suffix
strip_suffix_sound suffix String.[] t h = elim (text_cases String.[] suffix) [
  | inl e ↦
      let empty : ◌≡◌ {A = String} "" t = some_injective (rw (← e, strip_suffix) at h) in
      sym (ap (λ u. String.◌++◌ u suffix) (sym empty) ∙ nil-append suffix ∙ sym e)
  | inr n ↦ cc (rw (n, strip_suffix) at h)
]
strip_suffix_sound suffix (String.◌∷◌ c s) t h = elim (text_cases (String.◌∷◌ c s) suffix) [
  | inl e ↦
      let empty : ◌≡◌ {A = String} "" t =
        some_injective (rw ((eq_iff (String.◌∷◌ c s) suffix).1 e, strip_suffix) at h) in
      sym (ap (λ u. String.◌++◌ u suffix) (sym empty) ∙ nil-append suffix ∙ sym e)
  | inr n ↦ elim (Option-cases (strip_suffix suffix s)) [
    | inl lost ↦ cc (rw (n, strip_suffix, lost) at h)
    | inr (u, rest) ↦
        let whole : String.◌∷◌ c u ≡ t = some_injective (rw (n, strip_suffix, rest) at h) in
        ap (String.◌∷◌ c) (strip_suffix_sound suffix s u rest)
        ∙ sym (cons-append c u suffix)
        ∙ ap (λ w. String.◌++◌ w suffix) whole
  ]
]

-- What holds of every file of the listing whose name is a stem and then ".up.sql" holds of every
-- name that the loop collects.
pub up_names-All :
    (P : String → Type 0) (es : List Entry)
    → ((n : String)
        → Holds (record { name = n; is_dir = false }) es
        → n ≡ String.◌++◌ (trim_suffix n ".up.sql") ".up.sql"
        → P n)
    → All P (up_names es)
unfolding up_names Holds
up_names-All P [] h = tt
up_names-All P (e ∷ es) h =
    let next = up_names-All P es (λ n there. h n (inr there)) in
    elim (Bool-cases e.is_dir) [
      | inl dir ↦ rw dir next
      | inr file ↦ elim (Option-cases (strip_suffix ".up.sql" e.name)) [
        | inl other ↦ rw (file, has_suffix, other) next
        | inr (t, stem) ↦
            let known : record { name = e.name; is_dir = false } ≡ e =
              λ i. record { name = e.name; is_dir = sym file i } in
            rw (file, has_suffix, stem)
              (
                h e.name (inl (sym known))
                    (rw (trim_suffix, stem) (strip_suffix_sound ".up.sql" e.name t stem)),
                next,
              )
      ]
    ]
