-- ===== src/Common/Chars.antt =====
-- Texts by their characters: a predicate on all of them, and `strings.Split` at one of them.
use Prim.Native.Char.{Char, code}
use Prim.Native.Nat.{ℕ}
use Prim.Native.String
use Prim.Native.String.{String}
use mathlib.Core.Path.{◌≡◌, refl, ap, ◌∙◌}
use mathlib.Core.Logic.{◌≢◌, inl, inr}
use mathlib.Core.Bool.{false}
use mathlib.Core.List.{List, [], ◌∷◌}
use native.Mathlib.Omega.{arith}
use text.Mathlib.TextEquality.{Char-path}
use text.Mathlib.TextLemmas.{nil-append, cons-append}
use computeid_go.Common.Tests.{nat_eq, nat_eq_iff, if◌then◌else◌, Bool-cases}
use computeid_go.Common.Lists.{All}

infixr 65 ◌+++◌
abbrev ◌+++◌ : String → String → String
s +++ t = String.◌++◌ s t

abbrev pub AllChars : (ℕ → Type 0) → String → Type 0
AllChars P String.[] = Unit
AllChars P (String.◌∷◌ c s) = P (code c) × AllChars P s

-- The text is free of the character with that code.
abbrev pub Lacks : ℕ → String → Type 0
Lacks n = AllChars (λ c. c ≢ n)

module _ (P : ℕ → Type 0) where
  pub AllChars-append : (s t : String) → AllChars P s → AllChars P t → AllChars P (s +++ t)
  AllChars-append String.[] t hs ht = rw (nil-append t) ht
  AllChars-append (String.◌∷◌ c s) t (p, hs) ht =
      rw (cons-append c s t) (p, AllChars-append s t hs ht)

module _ (P Q : ℕ → Type 0) (f : (n : ℕ) → P n → Q n) where
  pub AllChars-map : (s : String) → AllChars P s → AllChars Q s
  AllChars-map String.[] h = tt
  AllChars-map (String.◌∷◌ c s) (p, h) = (f (code c) p, AllChars-map s h)

unfoldable pub onto_first : Char → List String → List String
onto_first c [] = []
onto_first c (p ∷ ps) = String.◌∷◌ c p ∷ ps

-- `strings.Split` at one character: it gives one part at least.
unfoldable pub split_on : ℕ → String → List String
split_on n String.[] = String.[] ∷ []
split_on n (String.◌∷◌ c s) =
    let rest = split_on n s in if nat_eq (code c) n then String.[] ∷ rest else onto_first c rest

module _ (d : Char) where
  abbrev sep : String → String
  sep s = String.◌∷◌ d s

  -- The parts with the character between each two.
  unfoldable pub joined : List String → String
  joined [] = ""
  joined (p ∷ []) = p
  joined (p ∷ q ∷ ps) = p +++ sep (joined (q ∷ ps))

  pub split_on-Lacks : (p : String) → Lacks (code d) p → split_on (code d) p ≡ p ∷ []
  unfolding split_on onto_first
  split_on-Lacks String.[] h = refl
  split_on-Lacks (String.◌∷◌ c p) (x, h) =
      let other : nat_eq (code c) (code d) ≡ false = ground arith in
      rw (other, split_on-Lacks p h) refl

  pub split_on-append :
      (p s : String) → Lacks (code d) p → split_on (code d) (p +++ sep s) ≡ p ∷ split_on (code d) s
  unfolding split_on onto_first
  split_on-append String.[] s h =
      rw (nil-append (sep s), (nat_eq_iff (code d) (code d)).1 refl) refl
  split_on-append (String.◌∷◌ c p) s (x, h) =
      let other : nat_eq (code c) (code d) ≡ false = ground arith in
      rw (cons-append c p (sep s), other, split_on-append p s h) refl

  split_on-cons : (t : String) → (p : String) × (ps : List String) × (split_on (code d) t ≡ p ∷ ps)
  unfolding split_on onto_first
  split_on-cons String.[] = ("", [], refl)
  split_on-cons (String.◌∷◌ c t) = elim (Bool-cases (nat_eq (code c) (code d))) [
    | inl dot ↦ ("", split_on (code d) t, rw dot refl)
    | inr other ↦ let (p, ps, e) = split_on-cons t in (String.◌∷◌ c p, ps, rw (other, e) refl)
  ]

  joined-onto_first :
      (c : Char) (p : String) (ps : List String)
      → joined (String.◌∷◌ c p ∷ ps) ≡ String.◌∷◌ c (joined (p ∷ ps))
  unfolding joined
  joined-onto_first c p [] = refl
  joined-onto_first c p (q ∷ ps) = cons-append c p (sep (joined (q ∷ ps)))

  joined_empty : (p : String) (ps : List String) → joined ("" ∷ p ∷ ps) ≡ sep (joined (p ∷ ps))
  unfolding joined
  joined_empty p ps = nil-append (sep (joined (p ∷ ps)))

  -- The parts lack the character, and give the text back.
  pub split_on_sound :
      (t : String) → All (Lacks (code d)) (split_on (code d) t) × (joined (split_on (code d) t) ≡ t)
  unfolding split_on onto_first joined
  split_on_sound String.[] = ((tt, tt), refl)
  split_on_sound (String.◌∷◌ c t) =
      let (clear, whole) = split_on_sound t in
      let (p, ps, e) = split_on-cons t in
      let clear' : All (Lacks (code d)) (p ∷ ps) = rw e at clear in
      let whole' : joined (p ∷ ps) ≡ t = rw e at whole in
      elim (Bool-cases (nat_eq (code c) (code d))) [
        | inl dot ↦
            let same : c ≡ d = Char-path c d ((nat_eq_iff (code c) (code d)).0 dot) in
            rw (dot, e) ((tt, clear'), joined_empty p ps ∙ rw same (ap (String.◌∷◌ d) whole'))
        | inr other ↦
            rw (other, e)
              (
                ((λ z. cc (other, (nat_eq_iff (code c) (code d)).1 z), clear'.0), clear'.1),
                joined-onto_first c p ps ∙ ap (String.◌∷◌ c) whole',
              )
      ]
