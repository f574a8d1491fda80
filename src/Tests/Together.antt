-- ===== src/Tests/Together.antt =====
-- A client and the server: client.go, server/handlers_agents.go.
use computeid_go.Common.{
  ◌≡◌, refl, ◌≢◌, arith, ap, sym, ◌⊎◌, inl, inr, ℕ, String, Bool, true, false, Option, none, some,
  List, [], ◌∷◌, nat_eq,
}
use computeid_go.Errors.{ok}
use computeid_go.Server.Text.{Decoder, sent}
use computeid_go.Server.Mux.Laws.{IsName}
use computeid_go.Server.Agents.{CapabilityResponse, granted, refused}
use computeid_go.Client.{HttpResponse}
use computeid_go.Client.Endpoints.{
  Codec, CapabilityCheck, no_check, no_passport, no_verification, no_device, revoke_agent,
  check_capability,
}
use computeid_go.Client.Laws.{Reads}
use computeid_go.Network.{Service, client_of}
use computeid_go.Network.Laws.{afterwards, check_capability-revoked}
use computeid_go.Tests.Keys.{signer}
use computeid_go.Tests.Requests.{platform, two_agents, two_agents-IsConsistent, reads}
use computeid_go.Tests.Calls.{net}

abbrev written : CapabilityResponse → List ℕ
written (granted name t) = 1 ∷ []
written (refused why) = 0 ∷ []

abbrev no_answer : HttpResponse
no_answer = record { status_code = 404; body = sent [] }

abbrev service : Service
service = record {
  platform = platform;
  signer = signer;
  base = "http://s";
  write_verify = λ v. 1 ∷ [];
  write_capability = written;
  write_logged = λ l. 1 ∷ [];
  write_revoked = λ r. 1 ∷ [];
  write_error = λ e. [];
  elsewhere = λ req w. (no_answer, w);
  request_lost = λ req. none;
  answer_lost = λ req. none;
}

abbrev check_of : Bool → CapabilityCheck
check_of b = record no_check { granted = b }

abbrev first_is_one : List ℕ → Bool
first_is_one [] = false
first_is_one (b ∷ bs) = nat_eq b 1

abbrev codec : Codec
codec = record {
  net = net;
  registration = λ r. inr [];
  action_request = λ r. inr [];
  device_request = λ r. inr [];
  texts = λ d. inr (123 ∷ []);
  passport = λ b. (no_passport, none);
  verification = λ b. (no_verification, none);
  check = λ b. (check_of (first_is_one b), none);
  actions = λ b. ([], none);
  agents = λ b. ([], none);
  device = λ b. (no_device, none);
  access_token = λ b. ("", none);
  itoa = λ n. "";
}

i-IsName : IsName "i"
i-IsName = record {
  segment = (λ e. cc e, ground arith);
  bytes = ground arith;
  no_dot = λ e. cc e;
  no_dots = λ e. cc e;
}

read-IsName : IsName "read"
read-IsName = record {
  segment = (λ e. cc e, ground arith);
  bytes = ground arith;
  no_dot = λ e. cc e;
  no_dots = λ e. cc e;
}

told : (revoke_agent codec (client_of service "k" "ua") "i" "drift" two_agents).0 ≡ ok tt
unfolding computeid_go.Client.Endpoints.revoke_agent computeid_go.Client.Endpoints.revoke_path
    computeid_go.Client.Requests.do_request computeid_go.Client.Requests.send_bytes
    computeid_go.Client.Requests.receive computeid_go.Client.Requests.read_response
    computeid_go.Client.Requests.read_answer computeid_go.Client.Requests.decoded
    computeid_go.Network.network computeid_go.Network.returned computeid_go.Network.answer_at
    computeid_go.Network.answer_served computeid_go.Network.answer_agent computeid_go.Network.reply
    computeid_go.Network.respond computeid_go.Url.path_escape computeid_go.Url.escape_with
    computeid_go.Url.escape_byte computeid_go.Url.is_plain computeid_go.Url.is_unreserved
    computeid_go.Url.is_alnum computeid_go.Url.byte_char computeid_go.Url.percent
    computeid_go.Url.upper_hex computeid_go.Url.hex_value computeid_go.Url.path_unescape
    computeid_go.Url.read_escaped computeid_go.Url.before_query computeid_go.Server.Mux.serve
    computeid_go.Server.Mux.served_at computeid_go.Server.Mux.mux
    computeid_go.Server.Mux.choose_clean computeid_go.Server.Mux.clean_parts
    computeid_go.Server.Mux.choose computeid_go.Server.Mux.decode_part
    computeid_go.Server.Mux.find_pattern computeid_go.Server.Mux.takes_method
    computeid_go.Server.Mux.covers computeid_go.Common.Chars.split_on
    computeid_go.Common.Chars.onto_first computeid_go.Server.Route.route_agent_sub
    computeid_go.Server.Route.match_path computeid_go.Server.Route.match_capability
    computeid_go.Server.Route.strip computeid_go.Server.Route.segment
    computeid_go.Server.Route.then_tail computeid_go.Server.Actions.handle_agent_revoke
    computeid_go.Server.Tables.with_uuid computeid_go.Server.Tables.revoke_agent
    computeid_go.Server.Tables.revoke_rows computeid_go.Server.Tables.count_active
    computeid_go.Server.Actions.after_revoke computeid_go.Server.Actions.revoke_answer
    computeid_go.Server.Tables.add_action computeid_go.Server.Db.execute
    computeid_go.Server.Text.read_json computeid_go.Server.Text.limited
    computeid_go.Server.Tables.find_agent computeid_go.Server.Tables.valid_outcome
    computeid_go.Server.Agents.load_agent computeid_go.Server.Tables.select_agent
    native.Mathlib.Decide.dec_lt
told = refl

asked :
    (check_capability codec (client_of service "k2" "ua") "i" "read" (
      afterwards service codec "k" "ua" "k2" "ua" "i" i-IsName "read" read-IsName "drift" two_agents
        reads)).0
    ≡ ok (check_of false)
unfolding computeid_go.Client.Endpoints.revoke_agent computeid_go.Client.Endpoints.revoke_path
    computeid_go.Client.Endpoints.check_capability computeid_go.Client.Endpoints.capability_path
    computeid_go.Client.Requests.do_request computeid_go.Client.Requests.send_bytes
    computeid_go.Client.Requests.receive computeid_go.Client.Requests.read_response
    computeid_go.Client.Requests.read_answer computeid_go.Client.Requests.decoded
    computeid_go.Network.network computeid_go.Network.returned computeid_go.Network.answer_at
    computeid_go.Network.answer_served computeid_go.Network.answer_agent computeid_go.Network.reply
    computeid_go.Network.respond computeid_go.Url.path_escape computeid_go.Url.escape_with
    computeid_go.Url.escape_byte computeid_go.Url.is_plain computeid_go.Url.is_unreserved
    computeid_go.Url.is_alnum computeid_go.Url.byte_char computeid_go.Url.percent
    computeid_go.Url.upper_hex computeid_go.Url.hex_value computeid_go.Url.path_unescape
    computeid_go.Url.read_escaped computeid_go.Url.before_query computeid_go.Server.Mux.serve
    computeid_go.Server.Mux.served_at computeid_go.Server.Mux.mux
    computeid_go.Server.Mux.choose_clean computeid_go.Server.Mux.clean_parts
    computeid_go.Server.Mux.choose computeid_go.Server.Mux.decode_part
    computeid_go.Server.Mux.find_pattern computeid_go.Server.Mux.takes_method
    computeid_go.Server.Mux.covers computeid_go.Common.Chars.split_on
    computeid_go.Common.Chars.onto_first computeid_go.Server.Route.route_agent_sub
    computeid_go.Server.Route.match_path computeid_go.Server.Route.match_capability
    computeid_go.Server.Route.strip computeid_go.Server.Route.segment
    computeid_go.Server.Route.then_tail computeid_go.Server.Actions.handle_agent_revoke
    computeid_go.Server.Tables.with_uuid computeid_go.Server.Tables.revoke_agent
    computeid_go.Server.Tables.revoke_rows computeid_go.Server.Tables.count_active
    computeid_go.Server.Actions.after_revoke computeid_go.Server.Actions.revoke_answer
    computeid_go.Server.Tables.add_action computeid_go.Server.Db.execute
    computeid_go.Server.Text.read_json computeid_go.Server.Text.limited
    computeid_go.Server.Tables.find_agent computeid_go.Server.Tables.valid_outcome
    computeid_go.Server.Agents.load_agent computeid_go.Server.Tables.select_agent
    native.Mathlib.Decide.dec_lt computeid_go.Server.Writes.Handlers.serve_all
    computeid_go.Server.Writes.Handlers.serve computeid_go.Server.Agents.handle_agent_verify
    computeid_go.Server.Agents.handle_agent_capability computeid_go.Server.Agents.capability_loaded
    computeid_go.Server.Agents.verify_loaded
asked = refl

refusal_read :
    (x : CapabilityCheck)
    → Reads no_check (some codec.check) (written (refused "passport_revoked")) x
    → x.granted ≡ false
refusal_read x h = ap (λ (p : CapabilityCheck × Option String). p.0.granted) (sym h)

check_capability-revoked_example : (check_of false).granted ≡ false
check_capability-revoked_example =
    check_capability-revoked service codec "k" "ua" "k2" "ua" "i" i-IsName "read" read-IsName
      "drift" two_agents reads two_agents-IsConsistent refusal_read told (check_of false) asked
