-- ===== src/Office.antt =====
-- office.go: the registry of passports of one organisation.
--
-- The maps hold pointers, so the passports stand in a heap, a list in which a pointer is a
-- position; the caller shares them. A method takes the world (heaps, office, system) and gives the
-- world after it. Go visits a map in an order of its own: a loop over a map takes the order that it
-- meets, a list with the map's pairs.
pub mod Heap
pub mod Report
pub mod Registry
pub mod History
use computeid_go.Common.{
  ℕ, ◌+◌, String, Bool, true, false, ◌&&◌, ◌||◌, Option, none, some, List, [], ◌∷◌, ◌++◌, ◌==◌,
  length, get_elem?, set, if◌then◌else◌,
}
use computeid_go.Sys.{Time, Sys, now}
use computeid_go.Agent.{AgentPassport, AuditEntry, Summary, summary, is_trusted, revoke}
use computeid_go.Device.{DevicePassport, is_valid}
use computeid_go.Common.Dict.{Dict, lookup, insert}

pub record PassportOffice : Type 0 where
  pub org_name : String
  pub api_key : String
  pub created_at : Time
  pub agents : Dict ℕ
  pub devices : Dict ℕ

pub record World : Type 0 where
  pub passports : List AgentPassport
  pub device_passports : List DevicePassport
  pub office : PassportOffice
  pub sys : Sys

-- `NewPassportOffice`
unfoldable pub new_passport_office : String → String → Sys → PassportOffice × Sys
new_passport_office org_name api_key s =
    let (t, s') = now s in
    (
      record { org_name = org_name; api_key = api_key; created_at = t; agents = []; devices = [] },
      s',
    )

abbrev pub with_agents : World → Dict ℕ → World
with_agents w m = record w { office = record (w.office) { agents = m } }

abbrev pub with_devices : World → Dict ℕ → World
with_devices w m = record w { office = record (w.office) { devices = m } }

-- `RegisterDevice` and `RegisterAgent`; `none` is the nil pointer.
unfoldable pub register_device : Option ℕ → World → World
register_device none w = w
register_device (some ptr) w = elim (get_elem? w.device_passports ptr) [
  | none ↦ w
  | some d ↦
      if d.device_id == "" then w else with_devices w (insert d.device_id ptr w.office.devices)
]

unfoldable pub register_agent : Option ℕ → World → World
register_agent none w = w
register_agent (some ptr) w = elim (get_elem? w.passports ptr) [
  | none ↦ w
  | some p ↦ if p.agent_id == "" then w else with_agents w (insert p.agent_id ptr w.office.agents)
]

-- `p.IsTrusted()` through a pointer.
unfoldable pub trusted_at : ℕ → World → Bool × World
trusted_at ptr w = elim (get_elem? w.passports ptr) [
  | none ↦ (false, w)
  | some p ↦
      let (b, p', s') = is_trusted p w.sys in
      (b, record w { passports = set w.passports ptr p'; sys = s' })
]

-- `(*PassportOffice).IsTrusted`
unfoldable pub office_is_trusted : String → World → Bool × World
office_is_trusted agent_id w = elim (lookup agent_id w.office.agents) [
  | none ↦ (false, w)
  | some ptr ↦ trusted_at ptr w
]

-- `p.Revoke(reason)` through a pointer.
unfoldable pub revoke_at : ℕ → String → World → World
revoke_at ptr reason w = elim (get_elem? w.passports ptr) [
  | none ↦ w
  | some p ↦
      let (p', s') = revoke reason p w.sys in
      record w { passports = set w.passports ptr p'; sys = s' }
]

-- `(*PassportOffice).RevokeAgent`
unfoldable pub revoke_agent : String → String → World → Bool × World
revoke_agent agent_id reason w = elim (lookup agent_id w.office.agents) [
  | none ↦ (false, w)
  | some ptr ↦
      let r = if reason == "" then "Revoked by PassportOffice" else reason in
      (true, revoke_at ptr r w)
]

-- The loop of `ActiveAgents`.
unfoldable pub active_agents : Dict ℕ → World → List ℕ × World
active_agents [] w = ([], w)
active_agents ((_, ptr) ∷ order) w =
    let (b, w₁) = trusted_at ptr w in
    let (rest, w₂) = active_agents order w₁ in (if b then ptr ∷ rest else rest, w₂)

-- `d.IsValid()` through a pointer.
unfoldable pub valid_at : ℕ → List DevicePassport → Bool
valid_at ptr ds = elim (get_elem? ds ptr) [ none ↦ false | some d ↦ is_valid d ]

-- The loop of `ActiveDevices`.
unfoldable pub active_devices : Dict ℕ → List DevicePassport → List ℕ
active_devices [] ds = []
active_devices ((_, ptr) ∷ order) ds =
    if valid_at ptr ds then ptr ∷ active_devices order ds else active_devices order ds

pub record AgentAuditEntry : Type 0 where
  pub head : Summary
  pub audit_log : List AuditEntry

pub record AuditReport : Type 0 where
  pub org_name : String
  pub generated_at : Time
  pub total_agents : ℕ
  pub active_agents : ℕ
  pub total_devices : ℕ
  pub active_devices : ℕ
  pub agents : List AgentAuditEntry

-- `p.Summary()` and `p.AuditLog()` through a pointer.
unfoldable pub audit_entry_at : ℕ → World → List AgentAuditEntry
audit_entry_at ptr w = elim (get_elem? w.passports ptr) [
  | none ↦ []
  | some p ↦ record { head = summary p; audit_log = p.audit_log } ∷ []
]

-- The loop over the agents in `AuditReport`: how many are active, and the entries.
unfoldable pub audit_agents : Dict ℕ → World → ℕ × List AgentAuditEntry × World
audit_agents [] w = (0, [], w)
audit_agents ((_, ptr) ∷ order) w =
    let (b, w₁) = trusted_at ptr w in
    let (n, entries, w₂) = audit_agents order w₁ in
    ((if b then n + 1 else n), audit_entry_at ptr w₁ ++ entries, w₂)

-- `(*PassportOffice).AuditReport`
unfoldable pub audit_report : Dict ℕ → Dict ℕ → World → AuditReport × World
audit_report agent_order device_order w =
    let (t, s₁) = now w.sys in
    let (n, entries, w₁) = audit_agents agent_order (record w { sys = s₁ }) in
    (
      record {
        org_name = w.office.org_name;
        generated_at = t;
        total_agents = length w.office.agents;
        active_agents = n;
        total_devices = length w.office.devices;
        active_devices = length (active_devices device_order w.device_passports);
        agents = entries;
      },
      w₁,
    )
