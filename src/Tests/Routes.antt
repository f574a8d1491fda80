-- ===== src/Tests/Routes.antt =====
-- Concrete paths and tokens: server/server.go.
use computeid_go.Common.{ℕ, ◌≡◌, refl, ◌≢◌, ◌↔◌, ◌⊎◌, true, List, [], ◌∷◌, arith, eq_iff}
use computeid_go.Server.Route.{AgentRoute, route_agent_sub}
use computeid_go.Server.Route.Segments.{IsSegment}
use computeid_go.Server.Route.Paths.{
  Serves, revoke, route_agent_sub_sound, route_agent_sub_complete,
}
use computeid_go.Server.Admin.{constant_time_eq, check_admin}
use computeid_go.Server.Admin.Laws.{constant_time_eq_iff, check_admin_iff}

a1-IsSegment : IsSegment "a1"
a1-IsSegment = (ground (arith, eq_iff "a1" ""), (omega arith, (omega arith, tt)))

deletes : Serves "DELETE" "/v1/agents/a1/revoke" (AgentRoute.revoke "a1")
deletes = revoke "a1" a1-IsSegment refl refl

routed : route_agent_sub "DELETE" "/v1/agents/a1/revoke" ≡ AgentRoute.revoke "a1"
routed = route_agent_sub_complete "DELETE" "/v1/agents/a1/revoke" (AgentRoute.revoke "a1") deletes

is_route : AgentRoute.revoke "a1" ≢ AgentRoute.no_route
is_route e = cc

reaches : route_agent_sub "DELETE" "/v1/agents/a1/revoke" ≢ AgentRoute.no_route
reaches = rw routed is_route

route_agent_sub_sound_example :
    Serves "DELETE" "/v1/agents/a1/revoke" (route_agent_sub "DELETE" "/v1/agents/a1/revoke")
route_agent_sub_sound_example = route_agent_sub_sound "DELETE" "/v1/agents/a1/revoke" reaches

abbrev token : List ℕ
token = 1 ∷ 2 ∷ []

abbrev guess : List ℕ
guess = 1 ∷ 3 ∷ []

check_admin_iff_example : (check_admin token guess ≡ true) ↔ ((token ≡ []) ⊎ (guess ≡ token))
check_admin_iff_example = check_admin_iff token guess

constant_time_eq_iff_example : (constant_time_eq token guess ≡ true) ↔ (token ≡ guess)
constant_time_eq_iff_example = constant_time_eq_iff token guess
