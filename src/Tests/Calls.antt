-- ===== src/Tests/Calls.antt =====
-- Calls of a client: client.go.
use Prim.Native.String
use computeid_go.Common.{
  ◌≡◌, refl, ◌↔◌, inr, inl, arith, String, ℕ, true, false, not, ◌&&◌, Option, none, some, List, [],
  ◌∷◌, ◌++◌,
}
use computeid_go.Common.Int.{pos}
use computeid_go.Errors.{Sentinel, error_is, ok}
use computeid_go.Server.Text.{sent}
use computeid_go.Server.Route.{AgentRoute, strip}
use computeid_go.Server.Mux.{by_agent, serve, mux, choose_clean}
use computeid_go.Server.Mux.Laws.{IsName}
use computeid_go.Url.{before_query}
use computeid_go.Client.{
  Net, Client, Transport, HttpRequest, new_client, with_base_url, with_api_key, parse_api_error,
  contains_text,
}
use computeid_go.Client.Requests.{do_request}
use computeid_go.Client.Endpoints.{
  verify_path, capability_path, actions_path, limit_query, revoke_path,
}
use computeid_go.Client.Failures.{Classes, parse_api_error-Classes}
use computeid_go.Client.Laws.{Answered, do_request_iff}
use computeid_go.Client.Paths.{serve-requests}

abbrev pub net : Net
net = record {
  build = λ method url. none;
  status_text = λ n. "status";
  error_body = λ raw. (record { error = ""; message = ""; detail = "" }, none);
}

-- A transport that writes down what it sends and answers with an empty success.
abbrev quiet : Transport (List HttpRequest)
quiet r log = (inr (record { status_code = 200; body = sent [] }), r ∷ log)

abbrev client : Client (List HttpRequest)
client = new_client quiet (with_base_url "http://localhost:8088/" ∷ with_api_key "k" ∷ [])

do_request_iff_example :
    ((do_request net client "POST" "/v1/agents/a/actions" tt none (some (inr (1 ∷ []))) []).0
      ≡ ok tt)
    ↔ Answered net client "POST" "/v1/agents/a/actions" tt none (some (inr (1 ∷ []))) [] tt
do_request_iff_example =
    do_request_iff net client "POST" "/v1/agents/a/actions" tt none (some (inr (1 ∷ []))) [] tt

-- The path of a verification whose identifier begins with "revoke".
parse_api_error-Classes_example :
    Classes net []
      (parse_api_error net 404 "/v1/agents/revoke-me/verify" [])
      404
      "/v1/agents/revoke-me/verify"
parse_api_error-Classes_example = parse_api_error-Classes net 404 "/v1/agents/revoke-me/verify" []

misread :
    error_is (parse_api_error net 404 "/v1/agents/revoke-me/verify" []) Sentinel.revocation ≡ true
unfolding parse_api_error contains_text error_is strip
misread = refl

abbrev spaced : String
spaced = "a b?c"

abbrev percent : String
percent = "100%"

spaced-IsName : IsName spaced
spaced-IsName = record {
  segment = (λ e. cc e, ground arith);
  bytes = ground arith;
  no_dot = λ e. cc e;
  no_dots = λ e. cc e;
}

percent-IsName : IsName percent
percent-IsName = record {
  segment = (λ e. cc e, ground arith);
  bytes = ground arith;
  no_dot = λ e. cc e;
  no_dots = λ e. cc e;
}

abbrev itoa : ℕ → String
itoa n = "7"

serve-requests_example :
    (serve "GET" (verify_path spaced) ≡ by_agent (AgentRoute.verify spaced))
    × (serve "GET" (capability_path spaced percent)
        ≡ by_agent (AgentRoute.capability spaced percent))
    × (serve "POST" (actions_path spaced) ≡ by_agent (AgentRoute.log_action spaced))
    × (serve "GET" (before_query (String.◌++◌ (actions_path spaced) (limit_query itoa (pos 7))))
        ≡ by_agent (AgentRoute.list_actions spaced))
    × (serve "DELETE" (revoke_path spaced) ≡ by_agent (AgentRoute.revoke spaced))
serve-requests_example = serve-requests spaced spaced-IsName percent percent-IsName itoa (pos 7)

-- A capability whose name holds a slash cannot be checked.
lost_capability : serve "GET" (capability_path "a" "files/read") ≡ by_agent AgentRoute.no_route
unfolding serve computeid_go.Url.path_unescape computeid_go.Url.read_escaped capability_path
    computeid_go.Url.path_escape computeid_go.Url.escape_with computeid_go.Url.escape_byte
    computeid_go.Url.is_plain computeid_go.Url.is_unreserved computeid_go.Url.is_alnum
    computeid_go.Url.byte_char computeid_go.Url.percent computeid_go.Url.upper_hex
    native.Mathlib.Decide.dec_lt computeid_go.Url.hex_value computeid_go.Server.Mux.served_at mux
    choose_clean computeid_go.Common.Chars.split_on computeid_go.Server.Mux.clean_parts
    computeid_go.Common.Chars.onto_first computeid_go.Server.Mux.choose
    computeid_go.Server.Mux.decode_part computeid_go.Server.Mux.find_pattern
    computeid_go.Server.Mux.takes_method computeid_go.Server.Mux.covers
    computeid_go.Server.Route.route_agent_sub computeid_go.Server.Route.match_path
    computeid_go.Server.Route.match_capability strip computeid_go.Server.Route.segment
    computeid_go.Server.Route.then_tail
lost_capability = refl
