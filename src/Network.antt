-- ===== src/Network.antt =====
-- A client (client.go) whose transport is the server (server/server.go): what a request for the
-- agents comes to.
--
-- JSON is the standard library's, so the writers of the answers are parameters, and so is the answer
-- to every other request. The network may lose a request, or the answer to one.
pub mod Laws
use computeid_go.Common.{ℕ, String, Option, none, some, List, [], ◌⊎◌, inl, inr}
use computeid_go.Server.Db.{World, M}
use computeid_go.Server.Text.{RequestBody, sent, Response, answer, error}
use computeid_go.Server.Route.{strip, AgentRoute}
use computeid_go.Server.Mux.{Served, by_agent, serve}
use computeid_go.Server.Platform.{Platform}
use computeid_go.Server.Signer.{Signer}
use computeid_go.Server.Agents.{
  VerifyResponse, CapabilityResponse, handle_agent_verify, handle_agent_capability,
}
use computeid_go.Server.Actions.{Logged, Revoked, handle_agent_log_action, handle_agent_revoke}
use computeid_go.Url.{before_query}
use computeid_go.Client.{HttpRequest, HttpResponse, Transport, Client}

pub record Service : Type 0 where
  pub platform : Platform
  pub signer : Signer
  pub base : String
  pub write_verify : VerifyResponse → List ℕ
  pub write_capability : CapabilityResponse → List ℕ
  pub write_logged : Logged → List ℕ
  pub write_revoked : Revoked → List ℕ
  pub write_error : String → List ℕ
  pub elsewhere : HttpRequest → M HttpResponse
  pub request_lost : HttpRequest → Option String
  pub answer_lost : HttpRequest → Option String

-- A request without a body is read as an empty one.
abbrev pub body_of : Option (List ℕ) → RequestBody
body_of none = sent []
body_of (some bytes) = sent bytes

-- `writeJSON` and `writeError`
unfoldable pub respond : {A : Type 0} → (A → List ℕ) → (String → List ℕ) → Response A → HttpResponse
respond write write_error (answer status a) = record { status_code = status; body = sent (write a) }
respond write write_error (error status e) = record {
  status_code = status;
  body = sent (write_error e);
}

unfoldable pub reply :
    {A : Type 0} → Service → (A → List ℕ) → Response A × World → HttpResponse × World
reply s write r = (respond write s.write_error r.0, r.1)

-- The handler that `routeAgentSub` calls.
unfoldable pub answer_agent : Service → HttpRequest → AgentRoute → M HttpResponse
answer_agent s req (AgentRoute.verify id) w =
    reply s s.write_verify (handle_agent_verify s.platform s.signer id w)
answer_agent s req (AgentRoute.capability id name) w =
    reply s s.write_capability (handle_agent_capability s.platform id name w)
answer_agent s req (AgentRoute.log_action id) w =
    reply s s.write_logged (handle_agent_log_action s.platform (body_of req.body) id w)
answer_agent s req (AgentRoute.list_actions id) w = s.elsewhere req w
answer_agent s req (AgentRoute.revoke id) w =
    reply s s.write_revoked (handle_agent_revoke s.platform (body_of req.body) id w)
answer_agent s req AgentRoute.no_route w = s.elsewhere req w

unfoldable pub answer_served : Service → HttpRequest → Served → M HttpResponse
answer_served s req (by_agent r) w = answer_agent s req r w
answer_served s req _ w = s.elsewhere req w

unfoldable pub answer_at : Service → HttpRequest → Option String → M HttpResponse
answer_at s req none w = s.elsewhere req w
answer_at s req (some target) w = answer_served s req (serve req.method (before_query target)) w

unfoldable pub returned : Option String → HttpResponse × World → (String ⊎ HttpResponse) × World
returned none r = (inr r.0, r.1)
returned (some e) r = (inl e, r.1)

-- The network as the transport of a client.
unfoldable pub network : Service → Transport World
network s req w = elim (s.request_lost req) [
  | some e ↦ (inl e, w)
  | none ↦ returned (s.answer_lost req) (answer_at s req (strip s.base req.url) w)
]

-- A client of the service.
abbrev pub client_of : Service → String → String → Client World
client_of s key agent = record {
  base_url = s.base;
  http_client = network s;
  api_key = key;
  user_agent = agent;
}
