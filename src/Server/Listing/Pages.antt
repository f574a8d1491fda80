-- ===== src/Server/Listing/Pages.antt =====
-- What a page of rows is: the newest of those that a condition keeps, newest first, up to a limit.
use mathlib.Core.List.{Perm}
use computeid_go.Common.{
  ℕ, zero, suc, ◌≤◌, ◌≡◌, refl, ◌≢◌, Option, none, some, List, [], ◌∷◌, ◌++◌, take, drop, length,
  length-take_le, All, ap, sym, subst, some_injective,
}
use computeid_go.Sys.{Time}
use computeid_go.Server.Listing.{Lister, limit_rows}

-- Each is at least as new as what follows.
abbrev pub Descending : {A : Type 0} → (A → Time) → List A → Type 0
Descending key [] = Unit
Descending key (x ∷ xs) = All (λ y. key y ≤ key x) xs × Descending key xs

-- What PostgreSQL's `ORDER BY` gives: the same rows, the newest first.
pub record IsOrdering (ls : Lister) : Type 1 where
  pub same_rows : {A : Type 0} (key : A → Time) (xs : List A) → Perm (ls.newest_first key xs) xs
  pub ordered :
      {A : Type 0} (key : A → Time) (xs : List A) → Descending key (ls.newest_first key xs)

module _ {A : Type 0} (key : A → Time) (limit : Option ℕ) (rows : List A) where
  -- `out` begins an arrangement of the rows, newest first; it keeps the limit, and leaves rows out
  -- only if it has as many as the limit allows.
  pub record Page (out : List A) : Type 0 where
    pub rest : List A
    pub same : Perm (out ++ rest) rows
    pub newest : Descending key (out ++ rest)
    pub within : (l : ℕ) → limit ≡ some l → length out ≤ l
    pub full : rest ≢ [] → limit ≡ some (length out)

module _ {A : Type 0} where
  take-drop : (n : ℕ) (xs : List A) → take n xs ++ drop n xs ≡ xs
  take-drop zero xs = refl
  take-drop (suc n) [] = refl
  take-drop (suc n) (x ∷ xs) = ap (λ ys. x ∷ ys) (take-drop n xs)

  length-take : (n : ℕ) (xs : List A) → drop n xs ≢ [] → n ≡ length (take n xs)
  length-take zero xs h = refl
  length-take (suc n) [] h = absurd (h refl)
  length-take (suc n) (x ∷ xs) h = ap suc (length-take n xs h)

  append_nil : (xs : List A) → xs ++ [] ≡ xs
  append_nil [] = refl
  append_nil (x ∷ xs) = ap (λ ys. x ∷ ys) (append_nil xs)

  module _ (ls : Lister) (o : IsOrdering ls) (key : A → Time) (rows : List A) where
    pub limit_rows-Page :
        (limit : Option ℕ) → Page key limit rows (limit_rows limit (ls.newest_first key rows))
    unfolding limit_rows
    limit_rows-Page none =
        let sorted = ls.newest_first key rows in
        let whole = sym (append_nil sorted) in
        record {
          rest = [];
          same = subst (λ ys. Perm ys rows) whole (o.same_rows key rows);
          newest = subst (Descending key) whole (o.ordered key rows);
          within = λ l h. cc;
          full = λ h. absurd (h refl);
        }
    limit_rows-Page (some n) =
        let sorted = ls.newest_first key rows in
        let whole = sym (take-drop n sorted) in
        record {
          rest = drop n sorted;
          same = subst (λ ys. Perm ys rows) whole (o.same_rows key rows);
          newest = subst (Descending key) whole (o.ordered key rows);
          within = λ l h.
              subst (λ m. length (take n sorted) ≤ m) (some_injective h) (length-take_le n sorted);
          full = λ h. ap some (length-take n sorted h);
        }
