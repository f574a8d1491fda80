-- ===== src/Tests/Requests.antt =====
-- Requests to the agent handlers: server/handlers_agents.go.
use computeid_go.Common.{◌≡◌, refl, inl, inr, true, String, List, [], ◌∷◌, Option, some, none}
use computeid_go.Common.Json.{str}
use computeid_go.Sys.{Time}
use computeid_go.Server.Db.{AgentRow, World, Up, execute, draw_uuid, read_clock}
use computeid_go.Server.Text.{
  RequestBody, sent, Response, answer, read_json, limited, trim_space, trim_left, trim_right,
  is_space,
}
use computeid_go.Server.Platform.{Platform}
use computeid_go.Server.Signer.{sign, verify as server_verify}
use computeid_go.Uuid.{new_uuid_unchecked, stamp, set_version, set_variant, format_uuid, hex}
use computeid_go.Server.Tables.{
  find_agent, with_uuid, revoke_agent, revoke_rows, count_active, add_action, add_agent,
  select_agent, valid_outcome,
}
use computeid_go.Server.Agents.{
  AgentPassportResponse, refused, handle_agent_register, register_decoded, register_named,
  after_sign, insert_agent, after_insert, load_agent, handle_agent_verify, handle_agent_capability,
}
use computeid_go.Server.Actions.{Revoked, revoked, handle_agent_revoke, after_revoke, revoke_answer}
use computeid_go.Server.Actions.{logged, handle_agent_log_action, log_decoded, log_named, after_log}
use computeid_go.Server.Platform.{LogActionRequest}
use computeid_go.Server.Tables.{add_action_if_known}
use computeid_go.Server.Writes.Handlers.{
  Request, register, verify, capability, log_action, revoke, serve_all, serve,
}
use computeid_go.Server.Writes.Consistent.{IsConsistent, serve_all-IsConsistent}
use computeid_go.Server.Writes.Final.{serve_all-verify}
use computeid_go.Server.Writes.Registration.{handle_agent_register-verify}
use computeid_go.Server.Writes.Revocation.{handle_agent_revoke-final}
use computeid_go.Tests.Keys.{plain, plain-IsSound, signer, empty_world}

abbrev pub platform : Platform
platform = record {
  crypto = plain;
  quote = λ s. s;
  format_time = λ t. "now";
  marshal_details = λ d. "{}";
  agent_register = λ bytes. (
    record { name = "n"; description = ""; organization = "o"; capabilities = "read" ∷ [] },
    none,
  );
  log_action = λ bytes. (record { action = "x"; details = []; outcome = "" }, none);
  revoke = λ bytes. (record { reason = "drift" }, none);
  device_register = λ bytes. (record { name = ""; device_type = ""; ip_address = "" }, none);
  device_auth = λ bytes. (record { device_code = "" }, none);
  uuid_of = λ s. some s;
  jsonb_of = λ s. some (str s);
  to_upper = λ s. s;
}

abbrev pub row : AgentRow
row = record {
  passport_id = "i";
  name = "n";
  description = none;
  organization = "o";
  capabilities = "read" ∷ [];
  status = "active";
  public_key_pem = "k0";
  signature_b64 = "k0";
  signature_algorithm = "RSA-SHA256";
  signed_payload = "n";
  issued_at = 5;
  revoked_at = none;
  revoke_reason = none;
  updated_at = 5;
}

abbrev pub gone : AgentRow
gone = record row { passport_id = "j"; status = "revoked"; revoked_at = some 7 }

abbrev pub two_agents : World
two_agents = record empty_world { db = record (empty_world.db) { agents = row ∷ gone ∷ [] } }

pub two_agents-IsConsistent : IsConsistent two_agents.db
unfolding find_agent
two_agents-IsConsistent = record {
  lifecycle = (inl (refl, refl), (inr (refl, (7, refl)), tt));
  unique = (refl, (refl, tt));
  trail = tt;
}

abbrev pub body : RequestBody
body = sent (123 ∷ [])

abbrev requests : List Request
requests =
    verify "i" ∷ log_action body "i" ∷ revoke body "j" ∷ register body ∷ capability "i" "read" ∷ []

serve_all-IsConsistent_example : IsConsistent (serve_all platform signer requests two_agents).db
serve_all-IsConsistent_example =
    serve_all-IsConsistent platform signer requests two_agents two_agents-IsConsistent

abbrev pub reads : List Request
reads = verify "j" ∷ capability "i" "read" ∷ []

-- The statements of these requests do not fail.
reads-Up : Up (serve_all platform signer reads two_agents)
unfolding serve_all serve handle_agent_verify handle_agent_capability load_agent execute with_uuid
    select_agent
reads-Up = refl

serve_all-verify_example :
    (status : String) × (revoked_at : Option Time) × ((handle_agent_verify platform signer "i"
        (serve_all platform signer reads two_agents)).0
      ≡ answer 200 (record {
        passport_id = "i";
        status = status;
        signature_valid = server_verify platform.crypto signer "n" "k0";
        capabilities = "read" ∷ [];
        issued_at = 5;
        revoked_at = revoked_at;
      }))
unfolding find_agent
serve_all-verify_example =
    serve_all-verify platform signer "i" "i" row reads two_agents refl refl reads-Up

abbrev revoking : Response Revoked × World
revoking = handle_agent_revoke platform body "i" two_agents

revoking_answer : revoking.0 ≡ answer 200 (revoked "drift")
unfolding handle_agent_revoke with_uuid revoke_agent revoke_rows count_active after_revoke
    revoke_answer add_action execute read_json limited find_agent valid_outcome
revoking_answer = refl

later-Up : Up (serve_all platform signer reads revoking.1)
unfolding handle_agent_revoke with_uuid revoke_agent revoke_rows count_active after_revoke
    revoke_answer add_action execute read_json limited find_agent valid_outcome serve_all serve
    handle_agent_verify handle_agent_capability load_agent select_agent
later-Up = refl

handle_agent_revoke-final_example :
    (handle_agent_capability platform "i" "read" (serve_all platform signer reads revoking.1)).0
    ≡ answer 200 (refused "passport_revoked")
handle_agent_revoke-final_example =
    handle_agent_revoke-final platform signer body "i" "read" (revoked "drift") reads two_agents
      two_agents-IsConsistent revoking_answer later-Up

abbrev registering : Response AgentPassportResponse × World
registering = handle_agent_register platform signer body two_agents

abbrev registered : AgentPassportResponse
registered = record {
  passport_id = "00010203-0405-4f07-bf09-0a0b0c0d0e0f";
  name = "n";
  description = "";
  organization = "o";
  status = "active";
  public_key = "k0";
  signature = "k0";
  signature_algorithm = "RSA-SHA256";
  capabilities = "read" ∷ [];
  issued_at = 0;
}

registering_answer : registering.0 ≡ answer 201 registered
unfolding handle_agent_register register_decoded register_named after_sign sign insert_agent
    after_insert with_uuid add_agent add_action execute read_json limited find_agent valid_outcome
    draw_uuid read_clock new_uuid_unchecked stamp set_version set_variant format_uuid hex trim_space
    trim_left trim_right is_space
registering_answer = refl

registered-Up : Up (serve_all platform signer reads registering.1)
unfolding handle_agent_register register_decoded register_named after_sign sign insert_agent
    after_insert with_uuid add_agent add_action execute read_json limited find_agent valid_outcome
    draw_uuid read_clock new_uuid_unchecked stamp set_version set_variant format_uuid hex trim_space
    trim_left trim_right is_space serve_all serve handle_agent_verify handle_agent_capability
    load_agent select_agent
registered-Up = refl

handle_agent_register-verify_example :
    (id : String) × (status : String) × (revoked_at : Option Time) × (platform.uuid_of
        registered.passport_id
      ≡ some id)
    × ((handle_agent_verify platform signer registered.passport_id
          (serve_all platform signer reads registering.1)).0
        ≡ answer 200 (record {
          passport_id = id;
          status = status;
          signature_valid = true;
          capabilities = "read" ∷ [];
          issued_at = 0;
          revoked_at = revoked_at;
        }))
handle_agent_register-verify_example =
    handle_agent_register-verify platform signer plain-IsSound body reads two_agents registered
      registering_answer registered-Up

abbrev said : LogActionRequest
said = record { action = "x"; details = []; outcome = "" }

logging : (handle_agent_log_action platform body "i" two_agents).0 ≡ answer 201 logged
unfolding handle_agent_log_action log_decoded log_named after_log with_uuid add_action_if_known
    execute read_json limited find_agent valid_outcome trim_space trim_left trim_right is_space
logging = refl
