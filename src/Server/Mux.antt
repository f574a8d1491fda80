-- ===== src/Server/Mux.antt =====
-- `Handler` of server/server.go: the patterns that it registers, and how `http.ServeMux` chooses
-- among them.
--
-- A path is escaped, as a request target spells it; a mux compares its decoded segments with those
-- of the patterns, while the two sub-routers look at the decoded path. Targets of CONNECT are left
-- out.
pub mod Laws
use Prim.Native.String
use computeid_go.Common.{
  String, Bool, true, false, not, ◌&&◌, ◌||◌, Option, none, some, List, [], ◌∷◌, ◌==◌, map,
  if◌then◌else◌,
}
use computeid_go.Common.Chars.{split_on}
use computeid_go.Url.{path_unescape}
use computeid_go.Server.Route.{AgentRoute, route_agent_sub, DeviceRoute, route_device_sub}

pub data Endpoint : Type 0 where
  agent_register agent_list agents_sub : Endpoint
  device_register device_authenticate device_list devices_sub : Endpoint
  health : Endpoint

-- A pattern that ends with a slash stands for the whole tree under it.
pub record Pattern : Type 0 where
  pub method : Option String
  pub segments : List String
  pub subtree : Bool
  pub endpoint : Endpoint

abbrev pub exactly : String → List String → Endpoint → Pattern
exactly m ss e = record { method = some m; segments = ss; subtree = false; endpoint = e }

abbrev pub under : List String → Endpoint → Pattern
under ss e = record { method = none; segments = ss; subtree = true; endpoint = e }

-- In the order of `Handler`; where two patterns cover a request, the more specific one is earlier.
abbrev pub patterns : List Pattern
patterns =
    exactly "POST" ("v1" ∷ "agents" ∷ "register" ∷ []) agent_register
    ∷ exactly "GET" ("v1" ∷ "agents" ∷ []) agent_list
    ∷ under ("v1" ∷ "agents" ∷ []) agents_sub
    ∷ exactly "POST" ("api" ∷ "devices" ∷ "register" ∷ []) device_register
    ∷ exactly "POST" ("api" ∷ "devices" ∷ "authenticate" ∷ []) device_authenticate
    ∷ exactly "GET" ("api" ∷ "devices" ∷ []) device_list
    ∷ under ("api" ∷ "devices" ∷ []) devices_sub
    ∷ exactly "GET" ("health" ∷ []) health
    ∷ exactly "GET" ("v1" ∷ "status" ∷ []) health
    ∷ []

-- A pattern for GET takes HEAD too.
unfoldable pub takes_method : Option String → String → Bool
takes_method none method = true
takes_method (some m) method = m == method || (m == "GET" && method == "HEAD")

unfoldable pub covers : List String → Bool → List String → Bool
covers [] true [] = false
covers [] true (p ∷ ps) = true
covers [] false [] = true
covers [] false (p ∷ ps) = false
covers (s ∷ ss) subtree [] = false
covers (s ∷ ss) subtree (p ∷ ps) = s == p && covers ss subtree ps

unfoldable pub find_pattern : String → List String → List Pattern → Option Endpoint
find_pattern method parts [] = none
find_pattern method parts (p ∷ ps) =
    if takes_method (p.method) method && covers (p.segments) (p.subtree) parts
    then some (p.endpoint)
    else find_pattern method parts ps

-- The path is the root of a tree, but for the slash at its end.
unfoldable pub is_tree_root : String → List String → List Pattern → Bool
is_tree_root method parts [] = false
is_tree_root method parts (p ∷ ps) =
    (p.subtree && (takes_method (p.method) method && covers (p.segments) false parts))
    || is_tree_root method parts ps

unfoldable pub has_other_method : List String → List Pattern → Bool
has_other_method parts [] = false
has_other_method parts (p ∷ ps) = covers (p.segments) (p.subtree) parts || has_other_method parts ps

-- `cleanPath` leaves the path as it is.
unfoldable pub clean_parts : List String → Bool
clean_parts [] = true
clean_parts (p ∷ []) = not (p == ".") && not (p == "..")
clean_parts (p ∷ q ∷ ps) =
    (not (p == "") && (not (p == ".") && not (p == ".."))) && clean_parts (q ∷ ps)

pub data MuxAnswer : Type 0 where
  to_endpoint : Endpoint → MuxAnswer
  redirected method_not_allowed page_not_found : MuxAnswer

unfoldable pub decode_part : String → String
decode_part p = elim (path_unescape p) [ none ↦ p | some s ↦ s ]

unfoldable pub choose : String → List String → MuxAnswer
choose method parts = elim (find_pattern method parts patterns) [
  | some e ↦ to_endpoint e
  | none ↦
      if is_tree_root method parts patterns
      then redirected
      else if has_other_method parts patterns
      then method_not_allowed
      else page_not_found
]

unfoldable pub choose_clean : String → List String → MuxAnswer
choose_clean method [] = redirected
choose_clean method (p ∷ ps) =
    if p == "" && clean_parts ps then choose method (map decode_part ps) else redirected

-- `http.ServeMux`
unfoldable pub mux : String → String → MuxAnswer
mux method path = choose_clean method (split_on b'/' path)

-- What serves a request.
pub data Served : Type 0 where
  by_endpoint : Endpoint → Served
  by_agent : AgentRoute → Served
  by_device : DeviceRoute → Served
  by_mux : MuxAnswer → Served
  bad_target : Served

unfoldable pub served_at : String → String → MuxAnswer → Served
served_at method p (to_endpoint agents_sub) = by_agent (route_agent_sub method p)
served_at method p (to_endpoint devices_sub) = by_device (route_device_sub method p)
served_at method p (to_endpoint e) = by_endpoint e
served_at method p answer = by_mux answer

-- The whole of `Handler`, but for the logger.
unfoldable pub serve : String → String → Served
serve method path = elim (path_unescape path) [
  | none ↦ bad_target
  | some p ↦ served_at method p (mux method path)
]
