-- ===== src/Office/History.antt =====
-- Sequences of calls on the registry (office.go).
use computeid_go.Common.{
  ℕ, ◌≡◌, ◌≢◌, ◌⊎◌, inl, inr, true, false, String, List, [], ◌∷◌, ◌==◌, eq_refl, subst, Option,
  some, none, sym, Bool-cases, Option-cases, some_injective, text_cases, if◌then◌else◌, set,
  get_elem?-set_self, All, All-map,
}
use computeid_go.Common.Dict.{Dict, lookup}
use computeid_go.Sys.{now}
use computeid_go.Agent.{AgentPassport, status_active, is_trusted, revoke}
use computeid_go.Agent.Trust.{is_trusted_iff}
use computeid_go.Agent.History.{revoked-ne-active}
use computeid_go.Agent.Finality.{revoke-status}
use computeid_go.Office.{
  World, PassportOffice, register_agent, trusted_at, office_is_trusted, revoke_at, revoke_agent,
  active_agents, audit_report,
}
use computeid_go.Office.Heap.{
  at, IsEntryOf, IsRegistry, Carries, IsEntryOf-Carries, Carries-refl, trusted_at-found,
}
use computeid_go.Office.Registry.{
  register_agent-IsRegistry, register_agent-Carries, revoke_at-found, Keeps, Carries-trans,
  office_is_trusted-Keeps, revoke_agent-Keeps, active_agents-Keeps, audit_agents-Keeps,
}

-- The calls of an office that concern agents. `list` and `report` are given the order in which
-- they meet the map.
pub data OfficeCall : Type 0 where
  register : Option ℕ → OfficeCall
  check : String → OfficeCall
  withdraw : String → String → OfficeCall
  list : Dict ℕ → OfficeCall
  report : Dict ℕ → Dict ℕ → OfficeCall

unfoldable pub office_step : OfficeCall → World → World
office_step (register o) w = register_agent o w
office_step (check k) w = (office_is_trusted k w).1
office_step (withdraw k r) w = (revoke_agent k r w).1
office_step (list order) w = (active_agents order w).1
office_step (report a d) w = (audit_report a d w).1

unfoldable pub office_run : List OfficeCall → World → World
office_run [] w = w
office_run (c ∷ cs) w = office_run cs (office_step c w)

Keeps-IsRegistry : (w w' : World) → Keeps w w' → IsRegistry w → IsRegistry w'
Keeps-IsRegistry w w' (c, e) h =
    subst (λ (o : PassportOffice). All (IsEntryOf w') o.agents) (sym e)
      (All-map (IsEntryOf w) (IsEntryOf w') (IsEntryOf-Carries w w' c) w.office.agents h)

report-Keeps : (a d : Dict ℕ) (w : World) → Keeps w (audit_report a d w).1
unfolding audit_report
report-Keeps a d w = audit_agents-Keeps a (record w { sys = (now w.sys).1 })

office_step-IsRegistry : (c : OfficeCall) (w : World) → IsRegistry w → IsRegistry (office_step c w)
unfolding office_step
office_step-IsRegistry (register o) w h = register_agent-IsRegistry o w h
office_step-IsRegistry (check k) w h = Keeps-IsRegistry w _ (office_is_trusted-Keeps k w) h
office_step-IsRegistry (withdraw k r) w h = Keeps-IsRegistry w _ (revoke_agent-Keeps k r w) h
office_step-IsRegistry (list order) w h = Keeps-IsRegistry w _ (active_agents-Keeps order w) h
office_step-IsRegistry (report a d) w h = Keeps-IsRegistry w _ (report-Keeps a d w) h

office_step-Carries : (c : OfficeCall) (w : World) → Carries w (office_step c w)
unfolding office_step
office_step-Carries (register o) w = register_agent-Carries o w
office_step-Carries (check k) w = (office_is_trusted-Keeps k w).0
office_step-Carries (withdraw k r) w = (revoke_agent-Keeps k r w).0
office_step-Carries (list order) w = (active_agents-Keeps order w).0
office_step-Carries (report a d) w = (report-Keeps a d w).0

-- A registry in which every key leads to a passport with that identifier, which is not empty,
-- stays so over any sequence of calls.
pub office_run-IsRegistry :
    (cs : List OfficeCall) (w : World) → IsRegistry w → IsRegistry (office_run cs w)
unfolding office_run
office_run-IsRegistry [] w h = h
office_run-IsRegistry (c ∷ cs) w h =
    office_run-IsRegistry cs (office_step c w) (office_step-IsRegistry c w h)

office_run-Carries : (cs : List OfficeCall) (w : World) → Carries w (office_run cs w)
unfolding office_run
office_run-Carries [] w = Carries-refl w
office_run-Carries (c ∷ cs) w =
    Carries-trans w (office_step c w) (office_run cs (office_step c w)) (office_step-Carries c w)
      (office_run-Carries cs (office_step c w))

trusted_at-inactive :
    (ptr : ℕ) (w : World) (p : AgentPassport)
    → at w ptr ≡ some p
    → p.status ≢ status_active
    → (trusted_at ptr w).0 ≡ false
trusted_at-inactive ptr w p found stopped = elim (Bool-cases (is_trusted p w.sys).0) [
  | inl t ↦ absurd (stopped ((is_trusted_iff p w.sys).0 t).0)
  | inr f ↦ rw (trusted_at-found ptr w p found) f
]

lookup-All :
    (P : String × ℕ → Type 0) (k : String) (v : ℕ) (m : Dict ℕ)
    → lookup k m ≡ some v
    → All P m
    → P (k, v)
unfolding lookup
lookup-All P k v [] e h = cc
lookup-All P k v ((j, u) ∷ m) e h = elim (text_cases j k) [
  | inr other ↦ lookup-All P k v m (rw (other, lookup) at e) h.1
  | inl same ↦
      let same_value : u ≡ v = some_injective (rw (same, eq_refl k, lookup) at e) in
      subst (λ (x : ℕ). P (k, x)) same_value (subst (λ (x : String). P (x, u)) same h.0)
]

revoke_agent-found :
    (k r : String) (w : World) (ptr : ℕ)
    → lookup k w.office.agents ≡ some ptr
    → revoke_agent k r w
      ≡ (true, revoke_at ptr (if r == "" then "Revoked by PassportOffice" else r) w)
unfolding revoke_agent
revoke_agent-found k r w ptr h = rw (h, revoke_agent)

revoke_at-final :
    (ptr : ℕ) (r : String) (w : World) (p : AgentPassport) (cs : List OfficeCall)
    → at w ptr ≡ some p
    → (trusted_at ptr (office_run cs (revoke_at ptr r w))).0 ≡ false
revoke_at-final ptr r w p cs found =
    let p' = (revoke r p w.sys).0 in
    let w' = record w { passports = set w.passports ptr p'; sys = (revoke r p w.sys).1 } in
    let there : at w' ptr ≡ some p' = get_elem?-set_self w.passports ptr found in
    let stopped : p'.status ≢ status_active = rw (revoke-status r p w.sys) revoked-ne-active in
    let (q, later, follows) = office_run-Carries cs w' ptr p' there in
    rw (revoke_at-found ptr r w p found)
      (trusted_at-inactive ptr (office_run cs w') q later (follows.stays stopped))

-- `RevokeAgent` answers whether the identifier is registered. If it is, in a registry that is
-- right, the passport it leads to is not trusted again, whatever calls on the office follow; if it
-- is not, nothing changes.
pub revoke_agent-final :
    (k r : String) (w : World) (cs : List OfficeCall)
    → IsRegistry w
    → ((lookup k w.office.agents ≡ none) × (revoke_agent k r w ≡ (false, w)))
      ⊎ ((ptr : ℕ) × (lookup k w.office.agents ≡ some ptr)
          × ((revoke_agent k r w).0 ≡ true)
          × ((trusted_at ptr (office_run cs (revoke_agent k r w).1)).0 ≡ false))
unfolding revoke_agent
revoke_agent-final k r w cs h = elim (Option-cases (lookup k w.office.agents)) [
  | inl absent ↦ inl (absent, rw (absent, revoke_agent))
  | inr (ptr, there) ↦
      let entry = lookup-All (IsEntryOf w) k ptr w.office.agents there h in
      let same = revoke_agent-found k r w ptr there in
      inr (
        ptr,
        there,
        rw same,
        rw same (
            revoke_at-final ptr (if r == "" then "Revoked by PassportOffice" else r) w
              entry.passport cs entry.found),
      )
]
