-- ===== src/Url/Inner.antt =====
-- What an escaped text is free of, and where a query begins.
use Prim.Native.Char.{code}
use text.Mathlib.TextLemmas.{nil-append, cons-append, append-nil}
use computeid_go.Common.{
  ℕ, ◌/◌, ◌%◌, ◌<◌, ◌≤◌, ◌≡◌, refl, ◌≢◌, inl, inr, String, true, false, some, nat_eq, arith, sym,
  ap, ◌∙◌, Bool-cases,
}
use computeid_go.Common.Chars.{AllChars, AllChars-append, Lacks}
use computeid_go.Url.{
  ◌++◌, is_alnum, is_unreserved, is_plain, upper_hex, percent, escape_with, escape_byte,
  path_escape, read_escaped, path_unescape, before_query,
}
use computeid_go.Url.Laws.{IsBytes, code-byte_char, hex_digit_le, read-path_escape}

-- The characters that end neither a segment nor a path.
pub record IsInner (c : ℕ) : Type 0 where
  pub no_slash : c ≢ b'/'
  pub no_query : c ≢ b'?'
  pub no_fragment : c ≢ b'#'

IsInner-of : (c : ℕ) → b'0' ≤ c → c ≢ b'?' → IsInner c
IsInner-of c h q = record {
  no_slash = λ e. omega arith;
  no_query = q;
  no_fragment = λ e. omega arith;
}

plain-IsInner : (c : ℕ) → is_plain c ≡ true → IsInner c
unfolding is_plain is_unreserved is_alnum
plain-IsInner c h = record {
  no_slash = λ e. ground arith;
  no_query = λ e. ground arith;
  no_fragment = λ e. ground arith;
}

upper_hex-IsInner : (n : ℕ) → n < 16 → IsInner (code (upper_hex n))
unfolding upper_hex
upper_hex-IsInner n h =
    rw (code-byte_char _ (hex_digit_le n h)) (IsInner-of _ (ground arith) (λ e. ground arith))

escape_byte-IsInner : (c : ℕ) → c < 256 → AllChars IsInner (escape_byte c)
unfolding escape_byte percent
escape_byte-IsInner c h = elim (Bool-cases (is_plain c)) [
  | inl plain ↦ rw plain (rw (code-byte_char c h) (plain-IsInner c plain), tt)
  | inr other ↦ rw other (inner_percent, (high, (low, tt)))
]
  where
    high : IsInner (code (upper_hex (c / 16)))
    high = upper_hex-IsInner (c / 16) (omega arith)

    low : IsInner (code (upper_hex (c % 16)))
    low = upper_hex-IsInner (c % 16) (omega arith)

    inner_percent : IsInner b'%'
    inner_percent = record {
      no_slash = λ e. omega arith;
      no_query = λ e. omega arith;
      no_fragment = λ e. omega arith;
    }

pub path_escape-IsInner : (s : String) → IsBytes s → AllChars IsInner (path_escape s)
unfolding path_escape escape_with
path_escape-IsInner String.[] h = tt
path_escape-IsInner (String.◌∷◌ c s) (small, h) =
    AllChars-append IsInner (escape_byte (code c)) (escape_with escape_byte s)
      (escape_byte-IsInner (code c) small) (path_escape-IsInner s h)

-- An escaped text determines the text.
pub path_unescape-path_escape : (s : String) → IsBytes s → path_unescape (path_escape s) ≡ some s
unfolding path_unescape read_escaped
path_unescape-path_escape s h =
    ap path_unescape (sym (append-nil (path_escape s)))
    ∙ read-path_escape s "" h
    ∙ ap some (append-nil s)

-- What stands in front of a query is the path.
pub before_query-append :
    (s q : String) → Lacks b'?' s → Lacks b'#' s → before_query (s ++ q) ≡ s ++ before_query q
unfolding before_query
before_query-append String.[] q h k = rw (nil-append q, nil-append (before_query q)) refl
before_query-append (String.◌∷◌ c s) q (x, h) (y, k) =
    let query : nat_eq (code c) b'?' ≡ false = ground arith in
    let fragment : nat_eq (code c) b'#' ≡ false = ground arith in
    rw
      (
        cons-append c s q,
        query,
        fragment,
        cons-append c s (before_query q),
        before_query-append s q h k,
      )
      refl
