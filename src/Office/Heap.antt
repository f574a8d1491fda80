-- ===== src/Office/Heap.antt =====
-- The heap of passports under the checks of the registry (office.go).
use computeid_go.Common.{
  ℕ, ◌≡◌, ◌≢◌, inl, inr, false, String, Option, some, none, sym, ap, ◌∙◌, Option-cases, nat_cases,
  some_injective, get_elem?, set, get_elem?-set_self, get_elem?-set_ne, All,
}
use computeid_go.Sys.{Sys}
use computeid_go.Agent.{AgentPassport, is_trusted}
use computeid_go.Agent.History.{Follows, Follows-refl, is_trusted-Follows}
use computeid_go.Office.{World, trusted_at}

-- The passport behind a pointer.
abbrev pub at : World → ℕ → Option AgentPassport
at w ptr = get_elem? w.passports ptr

-- A pair of the map leads to a passport that carries the pair's key, which is not empty.
pub record IsEntryOf (w : World) (e : String × ℕ) : Type 0 where
  pub passport : AgentPassport
  pub found : at w e.1 ≡ some passport
  pub keyed : passport.agent_id ≡ e.0
  pub named : e.0 ≢ ""

abbrev pub IsRegistry : World → Type 0
IsRegistry w = All (IsEntryOf w) w.office.agents

-- The passports of `w'` are those of `w` later on: each in its place, with the same identifier.
abbrev pub Carries : World → World → Type 0
Carries w w' =
    (ptr : ℕ) (p : AgentPassport)
    → at w ptr ≡ some p
    → (q : AgentPassport) × (at w' ptr ≡ some q) × Follows p q

pub IsEntryOf-Carries :
    (w w' : World) → Carries w w' → (e : String × ℕ) → IsEntryOf w e → IsEntryOf w' e
IsEntryOf-Carries w w' c e h =
    let (q, found, follows) = c e.1 h.passport h.found in
    record {
      passport = q;
      found = found;
      keyed = ap (λ (u : AgentPassport). u.agent_id) follows.keeps ∙ h.keyed;
      named = h.named;
    }

pub write-Carries :
    (w : World) (ptr : ℕ) (p p' : AgentPassport) (s : Sys)
    → at w ptr ≡ some p
    → Follows p p'
    → Carries w (record w { passports = set w.passports ptr p'; sys = s })
write-Carries w ptr p p' s found follows i q h = elim (nat_cases ptr i) [
  | inl same ↦
      let e : p ≡ q = some_injective (sym found ∙ rw same h) in
      (p', rw (← same) (get_elem?-set_self w.passports ptr found), rw (← e) follows)
  | inr other ↦ (q, get_elem?-set_ne w.passports ptr i p' other ∙ h, Follows-refl q)
]

pub Carries-refl : (w : World) → Carries w w
Carries-refl w ptr p h = (p, h, Follows-refl p)

pub trusted_at-found :
    (ptr : ℕ) (w : World) (p : AgentPassport)
    → at w ptr ≡ some p
    → trusted_at ptr w ≡ (
      (is_trusted p w.sys).0,
      record w {
        passports = set w.passports ptr (is_trusted p w.sys).1;
        sys = (is_trusted p w.sys).2;
      },
    )
unfolding trusted_at
trusted_at-found ptr w p h = rw (h, trusted_at)

pub trusted_at-lost : (ptr : ℕ) (w : World) → at w ptr ≡ none → trusted_at ptr w ≡ (false, w)
unfolding trusted_at
trusted_at-lost ptr w h = rw (h, trusted_at)

pub trusted_at-Carries : (ptr : ℕ) (w : World) → Carries w (trusted_at ptr w).1
trusted_at-Carries ptr w = elim (Option-cases (at w ptr)) [
  | inl lost ↦ rw (trusted_at-lost ptr w lost) (Carries-refl w)
  | inr (p, found) ↦ rw (trusted_at-found ptr w p found) (
      write-Carries w ptr p (is_trusted p w.sys).1 (is_trusted p w.sys).2 found
        (is_trusted-Follows p w.sys))
]

pub trusted_at-office : (ptr : ℕ) (w : World) → (trusted_at ptr w).1.office ≡ w.office
trusted_at-office ptr w = elim (Option-cases (at w ptr)) [
  | inl lost ↦ rw (trusted_at-lost ptr w lost)
  | inr (p, found) ↦ rw (trusted_at-found ptr w p found)
]
