-- ===== src/Office/Registry.antt =====
-- The registry keeps its map right, and what is revoked through it stays revoked (office.go).
use computeid_go.Common.{
  ℕ, ◌≡◌, refl, inl, inr, String, [], ◌∷◌, ◌==◌, eq_iff, Option, some, none, ◌∙◌, Bool-cases,
  Option-cases, text_cases, if◌then◌else◌, set, All, All-map,
}
use computeid_go.Common.Dict.{Dict, lookup, insert}
use computeid_go.Agent.{AgentPassport, revoke}
use computeid_go.Agent.History.{Follows-trans, revoke-Follows}
use computeid_go.Office.{
  World, register_agent, trusted_at, office_is_trusted, revoke_at, revoke_agent, active_agents,
  audit_agents, with_agents,
}
use computeid_go.Office.Heap.{
  at, IsEntryOf, IsRegistry, Carries, IsEntryOf-Carries, write-Carries, Carries-refl,
  trusted_at-Carries, trusted_at-office,
}

insert-All :
    (P : String × ℕ → Type 0) (k : String) (v : ℕ) (m : Dict ℕ)
    → P (k, v)
    → All P m
    → All P (insert k v m)
unfolding insert
insert-All P k v [] p h = (p, tt)
insert-All P k v ((j, u) ∷ m) p h = elim (Bool-cases (j == k)) [
  | inl same ↦ rw same (p, h.1)
  | inr other ↦ rw other (h.0, insert-All P k v m p h.1)
]

pub register_agent-IsRegistry :
    (o : Option ℕ) (w : World) → IsRegistry w → IsRegistry (register_agent o w)
unfolding register_agent
register_agent-IsRegistry none w h = h
register_agent-IsRegistry (some ptr) w h = elim (Option-cases (at w ptr)) [
  | inl lost ↦ rw (lost, register_agent) h
  | inr (p, found) ↦ elim (text_cases p.agent_id "") [
    | inl e ↦ rw (found, register_agent, e) h
    | inr n ↦
        rw (found, register_agent, n)
          (insert-All (IsEntryOf (with_agents w (insert p.agent_id ptr w.office.agents))) p.agent_id
            ptr w.office.agents
            (record {
              passport = p;
              found = found;
              keyed = refl;
              named = λ e. cc ((eq_iff p.agent_id "").1 e);
            })
            (All-map (IsEntryOf w)
              (IsEntryOf (with_agents w (insert p.agent_id ptr w.office.agents)))
              (IsEntryOf-Carries w (with_agents w (insert p.agent_id ptr w.office.agents))
                (Carries-refl w))
              w.office.agents h))
  ]
]

pub register_agent-Carries : (o : Option ℕ) (w : World) → Carries w (register_agent o w)
unfolding register_agent
register_agent-Carries none w = Carries-refl w
register_agent-Carries (some ptr) w = elim (Option-cases (at w ptr)) [
  | inl lost ↦ rw (lost, register_agent) (Carries-refl w)
  | inr (p, found) ↦ elim (Bool-cases (p.agent_id == "")) [
    | inl e ↦ rw (found, register_agent, e) (Carries-refl w)
    | inr n ↦ rw (found, register_agent, n) (Carries-refl w)
  ]
]

pub revoke_at-found :
    (ptr : ℕ) (r : String) (w : World) (p : AgentPassport)
    → at w ptr ≡ some p
    → revoke_at ptr r w ≡ record w {
      passports = set w.passports ptr (revoke r p w.sys).0;
      sys = (revoke r p w.sys).1;
    }
unfolding revoke_at
revoke_at-found ptr r w p h = rw (h, revoke_at)

revoke_at-Carries : (ptr : ℕ) (r : String) (w : World) → Carries w (revoke_at ptr r w)
unfolding revoke_at
revoke_at-Carries ptr r w = elim (Option-cases (at w ptr)) [
  | inl lost ↦ rw (lost, revoke_at) (Carries-refl w)
  | inr (p, found) ↦
      rw (found, revoke_at)
        (write-Carries w ptr p (revoke r p w.sys).0 (revoke r p w.sys).1 found
          (revoke-Follows r p w.sys))
]

revoke_at-office : (ptr : ℕ) (r : String) (w : World) → (revoke_at ptr r w).office ≡ w.office
unfolding revoke_at
revoke_at-office ptr r w = elim (Option-cases (at w ptr)) [
  | inl lost ↦ rw (lost, revoke_at)
  | inr (p, found) ↦ rw (found, revoke_at)
]

abbrev pub Keeps : World → World → Type 0
Keeps w w' = Carries w w' × (w'.office ≡ w.office)

pub Keeps-refl : (w : World) → Keeps w w
Keeps-refl w = (Carries-refl w, refl)

pub Carries-trans : (u v w : World) → Carries u v → Carries v w → Carries u w
Carries-trans u v w f g ptr p h =
    let (q, there, first) = f ptr p h in
    let (r, here, second) = g ptr q there in (r, here, Follows-trans p q r first second)

Keeps-trans : (u v w : World) → Keeps u v → Keeps v w → Keeps u w
Keeps-trans u v w (f, e) (g, h) = (Carries-trans u v w f g, h ∙ e)

pub office_is_trusted-Keeps : (k : String) (w : World) → Keeps w (office_is_trusted k w).1
unfolding office_is_trusted
office_is_trusted-Keeps k w = elim (Option-cases (lookup k w.office.agents)) [
  | inl absent ↦ rw (absent, office_is_trusted) (Keeps-refl w)
  | inr (ptr, there) ↦
      rw (there, office_is_trusted) (trusted_at-Carries ptr w, trusted_at-office ptr w)
]

pub revoke_agent-Keeps : (k r : String) (w : World) → Keeps w (revoke_agent k r w).1
unfolding revoke_agent
revoke_agent-Keeps k r w = elim (Option-cases (lookup k w.office.agents)) [
  | inl absent ↦ rw (absent, revoke_agent) (Keeps-refl w)
  | inr (ptr, there) ↦
      rw (there, revoke_agent)
        (
          revoke_at-Carries ptr (if r == "" then "Revoked by PassportOffice" else r) w,
          revoke_at-office ptr (if r == "" then "Revoked by PassportOffice" else r) w,
        )
]

pub active_agents-Keeps : (order : Dict ℕ) (w : World) → Keeps w (active_agents order w).1
unfolding active_agents
active_agents-Keeps [] w = Keeps-refl w
active_agents-Keeps ((_, ptr) ∷ order) w =
    Keeps-trans w (trusted_at ptr w).1 (active_agents order (trusted_at ptr w).1).1
      (trusted_at-Carries ptr w, trusted_at-office ptr w)
      (active_agents-Keeps order (trusted_at ptr w).1)

pub audit_agents-Keeps : (order : Dict ℕ) (w : World) → Keeps w (audit_agents order w).2
unfolding audit_agents
audit_agents-Keeps [] w = Keeps-refl w
audit_agents-Keeps ((_, ptr) ∷ order) w =
    Keeps-trans w (trusted_at ptr w).1 (audit_agents order (trusted_at ptr w).1).2
      (trusted_at-Carries ptr w, trusted_at-office ptr w)
      (audit_agents-Keeps order (trusted_at ptr w).1)
