-- ===== src/Server/Route/Segments.antt =====
-- What the pieces of a path pattern match (server/server.go).
use Prim.Native.Char.{code}
use text.Mathlib.TextEquality.{Char-path}
use text.Mathlib.TextLemmas.{nil-append, cons-append}
use computeid_go.Common.{
  ◌≡◌, refl, ◌≢◌, inl, inr, String, false, none, some, ◌==◌, nat_eq, nat_eq_iff, if◌then◌else◌,
  arith, eq_iff, eq_refl, Bool-cases, Option-cases, sym, ap, ◌∙◌, text_cases, text_ne,
  some_injective,
}
use computeid_go.Common.Chars.{Lacks}
use computeid_go.Server.Route.{◌++◌, strip, segment, then_tail, match_path}

pub strip-append : (p t : String) → strip p (p ++ t) ≡ some t
unfolding strip
strip-append String.[] t = rw (nil-append t)
strip-append (String.◌∷◌ c p) t =
    rw (cons-append c p t, (nat_eq_iff (code c) (code c)).1 refl) (strip-append p t)

pub strip_sound : (p t r : String) → strip p t ≡ some r → t ≡ p ++ r
unfolding strip
strip_sound String.[] t r h = some_injective h ∙ sym (nil-append r)
strip_sound (String.◌∷◌ c p) String.[] r h = cc
strip_sound (String.◌∷◌ c p) (String.◌∷◌ d t) r h = elim (Bool-cases (nat_eq (code c) (code d))) [
  | inr other ↦ cc (rw (other, strip) at h)
  | inl same ↦
      let e = Char-path c d ((nat_eq_iff (code c) (code d)).0 same) in
      rw (cons-append c p r, e) (ap (String.◌∷◌ d) (strip_sound p t r (rw (same, strip) at h)))
]

abbrev pub NoSlash : String → Type 0
NoSlash = Lacks b'/'

-- The text is at its end or at a slash.
abbrev pub Stops : String → Type 0
Stops String.[] = Unit
Stops (String.◌∷◌ c s) = code c ≡ b'/'

pub segment-append : (a b : String) → NoSlash a → Stops b → segment (a ++ b) ≡ (a, b)
unfolding segment
segment-append String.[] String.[] n h = rw (nil-append "")
segment-append String.[] (String.◌∷◌ c b) n h =
    rw (nil-append (String.◌∷◌ c b), (nat_eq_iff (code c) b'/').1 h)
segment-append (String.◌∷◌ c a) b (x, n) h =
    let other : nat_eq (code c) b'/' ≡ false = ground arith in
    rw (cons-append c a b, other, segment-append a b n h)

pub segment_sound :
    (s : String)
    → (s ≡ (segment s).0 ++ (segment s).1) × NoSlash (segment s).0 × Stops (segment s).1
unfolding segment
segment_sound String.[] = (sym (nil-append ""), tt, tt)
segment_sound (String.◌∷◌ c s) = elim (Bool-cases (nat_eq (code c) b'/')) [
  | inl slash ↦ rw slash (sym (nil-append (String.◌∷◌ c s)), tt, (nat_eq_iff (code c) b'/').0 slash)
  | inr other ↦
      let (whole, clear, stop) = segment_sound s in
      rw other (
        ap (String.◌∷◌ c) whole ∙ sym (cons-append c _ _),
        (λ e. cc (other, (nat_eq_iff (code c) b'/').1 e), clear),
        stop,
      )
]

abbrev pub IsSegment : String → Type 0
IsSegment id = (id ≢ "") × NoSlash id

-- One segment and a literal tail that begins with a slash or is empty.
pub then_tail-append :
    (id rest tail : String)
    → IsSegment id
    → Stops rest
    → then_tail tail (id ++ rest) ≡ (if rest == tail then some id else none)
unfolding then_tail
then_tail-append id rest tail (ne, clear) stop =
    rw (segment-append id rest clear stop, text_ne id "" ne)

pub then_tail_sound :
    (tail t id : String) → then_tail tail t ≡ some id → (t ≡ id ++ tail) × IsSegment id
unfolding then_tail
then_tail_sound tail t id h = elim (text_cases (segment t).0 "") [
  | inl e ↦ cc (rw e at h)
  | inr ne ↦ elim (text_cases (segment t).1 tail) [
    | inr other ↦ cc (rw (ne, other) at h)
    | inl same ↦
        let (whole, clear, _) = segment_sound t in
        let e : (segment t).0 ≡ id = some_injective (rw (ne, same, eq_refl tail) at h) in
        (whole ∙ rw (e, same) refl, (rw (← e) (λ z. cc (ne, (eq_iff _ _).1 z)), rw (← e) clear))
  ]
]

pub match_path-append :
    (prefix id rest tail : String)
    → IsSegment id
    → Stops rest
    → match_path prefix tail (prefix ++ id ++ rest) ≡ (if rest == tail then some id else none)
unfolding match_path
match_path-append prefix id rest tail s stop =
    rw (strip-append prefix (id ++ rest), match_path) (then_tail-append id rest tail s stop)

pub match_path_sound :
    (prefix tail p id : String)
    → match_path prefix tail p ≡ some id
    → (p ≡ prefix ++ id ++ tail) × IsSegment id
unfolding match_path
match_path_sound prefix tail p id h = elim (Option-cases (strip prefix p)) [
  | inl lost ↦ cc (rw (lost, match_path) at h)
  | inr (t, found) ↦
      let (e, s) = then_tail_sound tail t id (rw (found, match_path) at h) in
      (strip_sound prefix p t found ∙ ap (λ u. prefix ++ u) e, s)
]
