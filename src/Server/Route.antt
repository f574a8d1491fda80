-- ===== src/Server/Route.antt =====
-- `routeAgentSub` and `routeDeviceSub` of server/server.go: which handler a path and a method lead to.
--
-- A path is text; the five regular expressions are read out as functions: a literal prefix, one
-- segment that is not empty and holds no slash, and a literal tail.
pub mod Segments
pub mod Paths
use Prim.Native.Char.{Char, code}
use Prim.Native.String
use computeid_go.Common.{
  ℕ, String, Bool, true, false, Option, none, some, ◌==◌, nat_eq, if◌then◌else◌,
}

infixr 65 ◌++◌
abbrev pub ◌++◌ : String → String → String
s ++ t = String.◌++◌ s t

-- What follows a literal prefix.
unfoldable pub strip : String → String → Option String
strip String.[] t = some t
strip (String.◌∷◌ c p) String.[] = none
strip (String.◌∷◌ c p) (String.◌∷◌ d t) = if nat_eq (code c) (code d) then strip p t else none

-- The longest start without a slash, and the rest.
unfoldable pub segment : String → String × String
segment String.[] = (String.[], String.[])
segment (String.◌∷◌ c s) =
    let (a, b) = segment s in
    if nat_eq (code c) b'/' then (String.[], String.◌∷◌ c s) else (String.◌∷◌ c a, b)

-- `([^/]+)` and then the literal tail, up to the end.
unfoldable pub then_tail : String → String → Option String
then_tail tail t =
    let (id, rest) = segment t in if id == "" then none else if rest == tail then some id else none

abbrev pub agents_prefix : String
agents_prefix = "/v1/agents/"

-- `rxVerify`, `rxActions` and `rxRevoke`, by their tails, and `rxDeviceApprove`.
unfoldable pub match_path : String → String → String → Option String
match_path prefix tail p = elim (strip prefix p) [ none ↦ none | some t ↦ then_tail tail t ]

-- `rxCapCheck`: two segments.
unfoldable pub match_capability : String → Option (String × String)
match_capability p = elim (strip agents_prefix p) [
  | none ↦ none
  | some t ↦
      let (id, rest) = segment t in
      if id == "" then none else (elim (strip "/capabilities/" rest) [
        | none ↦ none
        | some u ↦ elim (then_tail "" u) [ none ↦ none | some name ↦ some (id, name) ]
      ])
]

pub data AgentRoute : Type 0 where
  verify : String → AgentRoute
  capability : String → String → AgentRoute
  log_action : String → AgentRoute
  list_actions : String → AgentRoute
  revoke : String → AgentRoute
  no_route : AgentRoute

-- One case of the switch: the method and a match.
abbrev pub case_of : {A R : Type 0} → Bool → Option A → (A → R) → R → R
case_of false m f rest = rest
case_of true none f rest = rest
case_of true (some a) f rest = f a

-- `routeAgentSub`
unfoldable pub route_agent_sub : String → String → AgentRoute
route_agent_sub method p = case_of (method == "GET") (match_path agents_prefix "/verify" p) verify (
    case_of (method == "GET") (match_capability p) (λ (m : String × String). capability m.0 m.1)
      (case_of (method == "POST") (match_path agents_prefix "/actions" p) log_action (
        case_of (method == "GET") (match_path agents_prefix "/actions" p) list_actions
          (case_of (method == "DELETE") (match_path agents_prefix "/revoke" p) revoke no_route))))

pub data DeviceRoute : Type 0 where
  approve : String → DeviceRoute
  no_route : DeviceRoute

-- `routeDeviceSub`, up to the check of the admin token.
unfoldable pub route_device_sub : String → String → DeviceRoute
route_device_sub method p =
    case_of (method == "POST") (match_path "/api/devices/" "/approve" p) approve
      DeviceRoute.no_route
