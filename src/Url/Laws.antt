-- ===== src/Url/Laws.antt =====
-- An escaped path is read back.
use Prim.Native.Char.{Char, code}
use mathlib.Core.Logic.{dif_pos}
use native.Mathlib.Decide.{dec_lt}
use native.Mathlib.Bridge.{le_prop}
use text.Mathlib.TextEquality.{Char-path}
use text.Mathlib.TextLemmas.{nil-append, cons-append, append_assoc}
use computeid_go.Common.{
  ℕ, ◌+◌, ◌-◌, ◌*◌, ◌/◌, ◌%◌, ◌<◌, ◌≡◌, refl, ◌≢◌, inl, inr, String, false, Option, none, some,
  nat_eq, leb, if◌then◌else◌, arith, sym, ap, ◌∙◌, Bool-cases,
}
use computeid_go.Common.Chars.{AllChars, Lacks}
use computeid_go.Url.{
  ◌++◌, byte_char, is_alnum, is_unreserved, is_plain, upper_hex, percent, escape_with, one,
  escape_byte, path_escape, hex_value, between_bytes, after_percent, after_digit, push,
  read_escaped,
}

-- The text is one of bytes.
abbrev pub IsBytes : String → Type 0
IsBytes = AllChars (λ c. c < 256)

pub code-byte_char : (n : ℕ) → n < 256 → code (byte_char n) ≡ n
unfolding byte_char
code-byte_char n h = rw (dif_pos (dec_lt n 256) le_prop h) refl

pub byte_char-code : (c : Char) → code c < 256 → byte_char (code c) ≡ c
byte_char-code c h = Char-path (byte_char (code c)) c (code-byte_char (code c) h)

pub hex_digit_le : (n : ℕ) → n < 16 → (if leb n 9 then b'0' + n else b'A' + n - 10) < 256
hex_digit_le n h = ground arith

hex_value-upper_hex : (n : ℕ) → n < 16 → hex_value (code (upper_hex n)) ≡ some n
unfolding hex_value upper_hex
hex_value-upper_hex n h = rw (code-byte_char _ (hex_digit_le n h)) (ground arith)

module _ (s : String) (c : Char) where
  step_plain :
      nat_eq (code c) b'%' ≡ false
      → read_escaped between_bytes (String.◌∷◌ c s) ≡ push c (read_escaped between_bytes s)
  unfolding read_escaped
  step_plain h = rw (h, read_escaped)

  step_high :
      (h : ℕ)
      → hex_value (code c) ≡ some h
      → read_escaped after_percent (String.◌∷◌ c s) ≡ read_escaped (after_digit h) s
  unfolding read_escaped
  step_high h e = rw (e, read_escaped)

  step_low :
      (h l : ℕ)
      → hex_value (code c) ≡ some l
      → read_escaped (after_digit h) (String.◌∷◌ c s)
        ≡ push (byte_char (16 * h + l)) (read_escaped between_bytes s)
  unfolding read_escaped
  step_low h l e = rw (e, read_escaped)

module _ (s : String) where
  read-percent :
      (c : ℕ)
      → c < 256
      → read_escaped between_bytes (percent c ++ s)
        ≡ push (byte_char c) (read_escaped between_bytes s)
  unfolding percent
  read-percent c h =
      let high = hex_value-upper_hex (c / 16) (omega arith) in
      let low = hex_value-upper_hex (c % 16) (omega arith) in
      let tail = String.◌∷◌ (upper_hex (c % 16)) s in
      let whole : 16 * (c / 16) + c % 16 ≡ c = omega arith in
      let spelled : percent c ++ s ≡ String.◌∷◌ "%" (String.◌∷◌ (upper_hex (c / 16)) tail) =
        rw
          (
            cons-append "%" (String.◌∷◌ (upper_hex (c / 16)) (String.◌∷◌ (upper_hex (c % 16)) ""))
                s,
            cons-append (upper_hex (c / 16)) (String.◌∷◌ (upper_hex (c % 16)) "") s,
            cons-append (upper_hex (c % 16)) "" s,
            nil-append s,
          )
          refl in
      rw spelled (
        started tail (upper_hex (c / 16))
        ∙ step_high tail (upper_hex (c / 16)) (c / 16) high
        ∙ step_low s (upper_hex (c % 16)) (c / 16) (c % 16) low
        ∙ ap (λ n. push (byte_char n) (read_escaped between_bytes s)) whole)
    where
      started :
          (t : String) (d : Char)
          → read_escaped between_bytes (String.◌∷◌ "%" (String.◌∷◌ d t))
            ≡ read_escaped after_percent (String.◌∷◌ d t)
      started t d = unfold read_escaped in refl

  read-one :
      (c : ℕ)
      → c < 256
      → c ≢ b'%'
      → read_escaped between_bytes (one c ++ s) ≡ push (byte_char c) (read_escaped between_bytes s)
  read-one c h ne =
      let same : nat_eq (code (byte_char c)) b'%' ≡ false =
        rw (code-byte_char c h) (ground arith) in
      rw (cons-append (byte_char c) "" s, nil-append s) (step_plain s (byte_char c) same)

  read-escape_byte :
      (c : ℕ)
      → c < 256
      → read_escaped between_bytes (escape_byte c ++ s)
        ≡ push (byte_char c) (read_escaped between_bytes s)
  unfolding escape_byte is_plain is_unreserved is_alnum
  read-escape_byte c h = elim (Bool-cases (is_plain c)) [
    | inl plain ↦ rw plain (read-one c h (λ e. ground arith))
    | inr other ↦ rw other (read-percent c h)
  ]

-- Text in front of what is read.
abbrev pub after_text : String → Option String → Option String
after_text s none = none
after_text s (some t) = some (s ++ t)

push-after_text :
    (c : Char) (s : String) (o : Option String)
    → push c (after_text s o) ≡ after_text (String.◌∷◌ c s) o
push-after_text c s none = refl
push-after_text c s (some t) = ap some (sym (cons-append c s t))

after_text_empty : (o : Option String) → o ≡ after_text "" o
after_text_empty none = refl
after_text_empty (some t) = ap some (sym (nil-append t))

-- An escaped text is read back, whatever follows it.
pub read-path_escape :
    (s rest : String)
    → IsBytes s
    → read_escaped between_bytes (path_escape s ++ rest)
      ≡ after_text s (read_escaped between_bytes rest)
unfolding path_escape escape_with
read-path_escape String.[] rest h =
    rw (nil-append rest) (after_text_empty (read_escaped between_bytes rest))
read-path_escape (String.◌∷◌ c s) rest (small, h) =
    rw (append_assoc (escape_byte (code c)) (escape_with escape_byte s) rest) (
      read-escape_byte (escape_with escape_byte s ++ rest) (code c) small
      ∙ ap (λ o. push (byte_char (code c)) o) (read-path_escape s rest h)
      ∙ rw (byte_char-code c small) (push-after_text c s (read_escaped between_bytes rest)))

-- Text without a percent sign is read as it stands.
pub read_literal :
    (s rest : String)
    → Lacks b'%' s
    → read_escaped between_bytes (s ++ rest) ≡ after_text s (read_escaped between_bytes rest)
read_literal String.[] rest h =
    rw (nil-append rest) (after_text_empty (read_escaped between_bytes rest))
read_literal (String.◌∷◌ c s) rest (ne, h) = rw (cons-append c s rest) (
    step_plain (s ++ rest) c (ground arith)
    ∙ ap (push c) (read_literal s rest h)
    ∙ push-after_text c s (read_escaped between_bytes rest))
