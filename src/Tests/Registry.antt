-- ===== src/Tests/Registry.antt =====
-- An office with one agent: office.go.
use computeid_go.Common.{ℕ, ◌≡◌, refl, ◌⊎◌, true, false, List, [], ◌∷◌, some, none, arith, eq_iff}
use computeid_go.Common.Dict.{lookup}
use computeid_go.Office.{World, trusted_at, revoke_agent}
use computeid_go.Office.Heap.{IsRegistry}
use computeid_go.Office.History.{
  OfficeCall, register, check, withdraw, list, office_run, office_run-IsRegistry,
  revoke_agent-final,
}
use computeid_go.Tests.Sdk.{ticking, researcher}

abbrev one_agent : World
one_agent = record {
  passports = researcher ∷ [];
  device_passports = [];
  office = record {
    org_name = "Acme";
    api_key = "k";
    created_at = 1;
    agents = ("a", 0) ∷ [];
    devices = [];
  };
  sys = ticking;
}

one_agent-IsRegistry : IsRegistry one_agent
one_agent-IsRegistry = (
  record {
    passport = researcher;
    found = refl;
    keyed = refl;
    named = ground (arith, eq_iff "a" "");
  },
  tt,
)

abbrev office_calls : List OfficeCall
office_calls = register (some 0) ∷ check "a" ∷ list (("a", 0) ∷ []) ∷ withdraw "b" "" ∷ []

office_run-IsRegistry_example : IsRegistry (office_run office_calls one_agent)
office_run-IsRegistry_example = office_run-IsRegistry office_calls one_agent one_agent-IsRegistry

revoke_agent-final_example :
    ((lookup "a" one_agent.office.agents ≡ none)
      × (revoke_agent "a" "" one_agent ≡ (false, one_agent)))
    ⊎ ((ptr : ℕ) × (lookup "a" one_agent.office.agents ≡ some ptr)
        × ((revoke_agent "a" "" one_agent).0 ≡ true)
        × ((trusted_at ptr (office_run office_calls (revoke_agent "a" "" one_agent).1)).0 ≡ false))
revoke_agent-final_example = revoke_agent-final "a" "" one_agent office_calls one_agent-IsRegistry
