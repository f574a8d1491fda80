-- ===== src/Tests/Wrapping.antt =====
-- The issue of a child, wrapped functions and an export: agent.go and helpers.go.
use Prim.Native.String
use computeid_go.Common.{ℕ, ◌≡◌, refl, ◌↔◌, inl, inr, String, [], ◌∷◌, ◌++◌, some, none, arith, ◌+◌}
use computeid_go.Errors.{Sentinel, wrapped, ok}
use computeid_go.Capabilities.{action_browse_web}
use computeid_go.Agent.{AgentPassport, AuditEntry, is_trusted, verify_action, log_action}
use computeid_go.Agent.Log.{IsEntry}
use computeid_go.RequirePassport.{Wrapped, require_passport, call_verified, call_logged}
use computeid_go.RequirePassport.Laws.{
  Admits, start, IsRefusal, require_passport_runs, require_passport_refuses,
}
use computeid_go.Export.{Codec, exported, load_agent_passport}
use computeid_go.Export.Laws.{load_agent_passport-export_iff}
use computeid_go.Tests.Sdk.{ticking, researcher, lapsed, researcher-IsLive}

-- A function that adds one and succeeds, and one that fails.
abbrev add_one : Wrapped ℕ ℕ String
add_one p n s = ((n + 1, none), p, s)

abbrev give_up : Wrapped ℕ ℕ String
give_up p n s = ((0, some "no"), p, s)

adds : (require_passport 0 "" add_one (some researcher) 41 ticking).0 ≡ (42, none)
unfolding require_passport call_verified call_logged is_trusted log_action
adds = refl

require_passport_runs_example :
    (entry : AuditEntry) × IsEntry researcher
      (String.◌++◌ "" "_call")
      []
      "failure"
      (start "" researcher ticking)
      entry
    × ((require_passport 0 "" give_up (some researcher) 41 ticking).0 ≡ (0, some (inr "no")))
    × ((require_passport 0 "" give_up (some researcher) 41 ticking).1
        ≡ some (record researcher { audit_log = researcher.audit_log ++ entry ∷ [] }))
require_passport_runs_example =
    require_passport_runs 0 "" give_up researcher 41 ticking (researcher-IsLive, inl refl)

lapsed-refused : ¬ Admits action_browse_web lapsed ticking
lapsed-refused h = elim h.0.1 [
  | inl z ↦ absurd (omega (arith, z))
  | inr l ↦ absurd (omega (arith, l))
]

require_passport_refuses_example : IsRefusal 0 action_browse_web (some lapsed) 41 ticking add_one
require_passport_refuses_example =
    require_passport_refuses 0 action_browse_web (some lapsed) 41 ticking add_one lapsed-refused

-- A passport that grants the capability and expires between the two checks.
abbrev expiring : AgentPassport
expiring = record researcher { expires_at = 100 }

expires_between :
    (require_passport 0 action_browse_web add_one (some expiring) 41 ticking).0
    ≡ (0, some (inl (wrapped Sentinel.trust "agent lacks browse_web capability")))
unfolding require_passport call_verified verify_action is_trusted log_action
expires_between = refl

-- A codec that knows one passport.
abbrev one_passport : Codec
one_passport = record { marshal = λ x. inr "{}"; unmarshal = λ t. inr (exported researcher) }

load_agent_passport-export_iff_example : (load_agent_passport one_passport "{}" ≡ ok researcher) ↔ (
    (researcher.agent_type ≡ "general")
    × (researcher.owner_email ≡ "")
    × (researcher.version ≡ "1.0.0"))
load_agent_passport-export_iff_example =
    load_agent_passport-export_iff one_passport researcher "{}" (refl, refl)
