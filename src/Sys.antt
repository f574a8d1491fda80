-- ===== src/Sys.antt =====
-- What the standard library gives a run of the program from outside: the readings of
-- `time.Now()` and the draws of `crypto/rand`, as two streams that are read in order.
--
-- A `Time` is the number of nanoseconds since Go's zero instant (January 1 of year 1, UTC).
-- `rand.Read` fills sixteen bytes (the program asks for nothing else), or fails.
use computeid_go.Common.{refl, ◌⊎◌, inl, inr, ℕ, ◌+◌, ◌≤◌, ◌≡◌, String, List, Bool, ltb, nat_eq}

abbrev pub Time : Type 0
Time = ℕ

-- A read that fails has the text of its error, and what it had put into the array by then.
pub data RandomRead : Type 0 where
  filled : List ℕ → RandomRead
  failed : String → List ℕ → RandomRead

pub record Sys : Type 0 where
  pub clock : ℕ → Time
  pub reads : ℕ
  pub random : ℕ → RandomRead
  pub draws : ℕ

-- `time.Now().UTC()`
abbrev pub now : Sys → Time × Sys
now s = (s.clock s.reads, record s { reads = s.reads + 1 })

-- `rand.Read(b[:])` for `b [16]byte`.
abbrev pub rand_read : Sys → RandomRead × Sys
rand_read s = (s.random s.draws, record s { draws = s.draws + 1 })

-- `t.IsZero()` and `t.After(u)`
abbrev pub is_zero : Time → Bool
is_zero t = nat_eq t 0

abbrev pub after : Time → Time → Bool
after t u = ltb u t

-- The clock does not run backwards.
abbrev pub Monotone : Sys → Type 0
Monotone s = (i : ℕ) → s.clock i ≤ s.clock (i + 1)

-- `t` is a run of the program later than `s`: the same streams, read at least as far.
pub record Later (s t : Sys) : Type 0 where
  pub same_clock : t.clock ≡ s.clock
  pub same_random : t.random ≡ s.random
  pub reads_le : s.reads ≤ t.reads
  pub draws_le : s.draws ≤ t.draws

-- To split on a draw and keep the equation.
pub RandomRead-cases :
    (r : RandomRead)
    → ((b : List ℕ) × (r ≡ filled b)) ⊎ ((e : String) × (b : List ℕ) × (r ≡ failed e b))
RandomRead-cases (filled b) = inl (b, refl)
RandomRead-cases (failed e b) = inr (e, b, refl)
