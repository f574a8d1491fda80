-- ===== src/Office/Report.antt =====
-- The audit report agrees with itself and with the registry (office.go).
use computeid_go.Common.{
  ℕ, suc, ◌+◌, ◌≡◌, refl, inl, inr, String, List, [], ◌∷◌, ◌==◌, some, sym, ap, ◌∙◌, Bool-cases,
  if◌then◌else◌, length, get_elem?, set, get_elem?-set_self, All, All-map,
}
use computeid_go.Common.Dict.{Dict}
use computeid_go.Sys.{Sys, is_zero, after, now}
use computeid_go.Agent.{AgentPassport, status_active, is_trusted, summary}
use computeid_go.Agent.Trust.{next_time}
use computeid_go.Office.{
  World, trusted_at, AgentAuditEntry, audit_entry_at, audit_agents, audit_report,
}
use computeid_go.Office.Heap.{
  at, IsEntryOf, IsRegistry, Carries, trusted_at-found, trusted_at-Carries,
}

-- After the check an active status says that the passport was found trusted.
is_trusted-status :
    (p : AgentPassport) (s : Sys)
    → (is_trusted p s).0 ≡ ((is_trusted p s).1.status == status_active)
unfolding is_trusted
is_trusted-status p s = elim (Bool-cases (p.status == status_active)) [
  | inr n ↦ rw n (sym n)
  | inl y ↦ elim (Bool-cases (is_zero p.expires_at)) [
    | inl z ↦ rw (y, z) (sym y)
    | inr z ↦ elim (Bool-cases (after (next_time s) p.expires_at)) [
      | inl l ↦ rw (y, z, l) refl
      | inr l ↦ rw (y, z, l) (sym y)
    ]
  ]
]

-- The entries of a report whose passport is shown as active.
pub count_active : List AgentAuditEntry → ℕ
count_active [] = 0
count_active (e ∷ es) =
    if e.head.status == status_active then count_active es + 1 else count_active es

-- Every pair of the list leads to a passport.
abbrev Leads : World → Dict ℕ → Type 0
Leads w = All (λ e. (p : AgentPassport) × (at w e.1 ≡ some p))

Leads-Carries : (w w' : World) → Carries w w' → (order : Dict ℕ) → Leads w order → Leads w' order
Leads-Carries w w' c =
    All-map (λ e. (p : AgentPassport) × (at w e.1 ≡ some p))
      (λ e. (p : AgentPassport) × (at w' e.1 ≡ some p))
      (λ e (p, found). let (q, there, _) = c e.1 p found in (q, there))

-- One round of the loop: the entry shows what the check found.
audit_round :
    (ptr : ℕ) (w : World) (p : AgentPassport)
    → at w ptr ≡ some p
    → (e : AgentAuditEntry) × (audit_entry_at ptr (trusted_at ptr w).1 ≡ e ∷ [])
      × ((trusted_at ptr w).0 ≡ (e.head.status == status_active))
unfolding audit_entry_at summary
audit_round ptr w p found =
    let q = (is_trusted p w.sys).1 in
    let there : get_elem? (set w.passports ptr q) ptr ≡ some q =
      get_elem?-set_self w.passports ptr found in
    (
      record { head = summary q; audit_log = q.audit_log },
      rw (trusted_at-found ptr w p found, there, audit_entry_at) refl,
      rw (trusted_at-found ptr w p found) (is_trusted-status p w.sys),
    )

audit_agents-counts :
    (order : Dict ℕ) (w : World)
    → Leads w order
    → ((audit_agents order w).0 ≡ count_active (audit_agents order w).1)
      × (length (audit_agents order w).1 ≡ length order)
unfolding audit_agents count_active
audit_agents-counts [] w h = (refl, refl)
audit_agents-counts ((k, ptr) ∷ order) w ((p, found), h) =
    let (e, shown, b) = audit_round ptr w p found in
    let w₁ = (trusted_at ptr w).1 in
    let (counted, long) =
      audit_agents-counts order w₁ (Leads-Carries w w₁ (trusted_at-Carries ptr w) order h) in
    (rw (shown, b, counted) refl, rw shown (ap suc long))

-- `x` is one of the list.
pub data In (x : String × ℕ) : Dict ℕ → Type 0 where
  here : {m : Dict ℕ} → In x (x ∷ m)
  there : {y : String × ℕ} {m : Dict ℕ} → In x m → In x (y ∷ m)

-- An order in which Go may visit the pairs of a map.
pub record IsOrder (order m : Dict ℕ) : Type 0 where
  pub long : length order ≡ length m
  pub within : All (λ e. In e m) order

In-All : (P : String × ℕ → Type 0) {x : String × ℕ} {m : Dict ℕ} → In x m → All P m → P x
In-All P here (p, _) = p
In-All P (there i) (_, ps) = In-All P i ps

-- In a registry that is right, whatever the order in which the map is visited, a report lists one
-- entry for each registered agent, and its number of active agents is the number of its entries
-- that are shown as active.
pub audit_report-counts :
    (agent_order device_order : Dict ℕ) (w : World)
    → IsRegistry w
    → IsOrder agent_order w.office.agents
    → let rep = (audit_report agent_order device_order w).0 in
      (rep.total_agents ≡ length rep.agents) × (rep.active_agents ≡ count_active rep.agents)
unfolding audit_report
audit_report-counts agent_order device_order w valid order =
    let (counted, long) =
      audit_agents-counts agent_order (record w { sys = (now w.sys).1 })
        (All-map (λ e. In e w.office.agents) (λ e. (p : AgentPassport) × (at w e.1 ≡ some p))
          (λ e i. let h = In-All (IsEntryOf w) i valid in (h.passport, h.found)) agent_order
          order.within) in
    (sym (long ∙ order.long), counted)
