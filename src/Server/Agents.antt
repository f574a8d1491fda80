-- ===== src/Server/Agents.antt =====
-- server/handlers_agents.go: the handlers that issue, verify, check, log and revoke.
--
-- `found`, `not_found` and `load_failed` are the three results of `loadAgent`. A switch on the
-- result of a statement is a helper by clauses, named for what comes after.
use Prim.Native.String
use computeid_go.Common.{
  ◌-◌, ◌%◌, String, Bool, true, false, ◌||◌, Option, none, some, List, [], ◌∷◌, ◌⊎◌, inl, inr, ◌==◌,
  if◌then◌else◌,
}
use computeid_go.Sys.{Time}
use computeid_go.Server.Db.{AgentRow, M, ◌>>=◌, ◌>>◌, pure, Sql, execute, read_clock, draw_uuid}
use computeid_go.Server.Text.{trim_space, RequestBody, read_json, Response, answer, error}
use computeid_go.Server.Signer.{Signer, CanonicalPayload, sign, verify}
use computeid_go.Server.Platform.{Platform, AgentRegisterRequest}
use computeid_go.Server.Tables.{with_uuid, null_if_empty, add_agent, select_agent, add_action}

infixr 65 ◌++◌
abbrev ◌++◌ : String → String → String
s ++ t = String.◌++◌ s t

pub record AgentPassportResponse : Type 0 where
  pub passport_id : String
  pub name : String
  pub description : String
  pub organization : String
  pub status : String
  pub public_key : String
  pub signature : String
  pub signature_algorithm : String
  pub capabilities : List String
  pub issued_at : Time

-- `time.Now().UTC().Truncate(time.Millisecond)`
abbrev pub truncate_ms : Time → Time
truncate_ms t = t - t % 1000000

abbrev pub no_registration : AgentRegisterRequest
no_registration = record { name = ""; description = ""; organization = ""; capabilities = [] }

abbrev pub payload_of : Platform → AgentRegisterRequest → String → Time → CanonicalPayload
payload_of pl req id issued_at = record {
  passport_id = id;
  name = req.name;
  organization = req.organization;
  capabilities = req.capabilities;
  issued_at = pl.format_time issued_at;
}

-- The row that the `INSERT` of `handleAgentRegister` gives, once its identifier is read as a uuid.
abbrev pub issued_row :
    Signer → AgentRegisterRequest → Time → String × String → String → Time → AgentRow
issued_row sg req issued_at signed id at = record {
  passport_id = id;
  name = req.name;
  description = null_if_empty req.description;
  organization = req.organization;
  capabilities = req.capabilities;
  status = "active";
  public_key_pem = sg.pub_pem;
  signature_b64 = signed.0;
  signature_algorithm = sg.algorithm;
  signed_payload = signed.1;
  issued_at = issued_at;
  revoked_at = none;
  revoke_reason = none;
  updated_at = at;
}

unfoldable pub insert_agent :
    Platform → Signer → AgentRegisterRequest → String → Time → String × String → Sql (Unit {0})
insert_agent pl sg req id issued_at signed =
    with_uuid pl id (λ u st. add_agent (issued_row sg req issued_at signed u st.time) st)

abbrev pub issued_response :
    Signer → AgentRegisterRequest → String → Time → String → AgentPassportResponse
issued_response sg req id issued_at sig = record {
  passport_id = id;
  name = req.name;
  description = req.description;
  organization = req.organization;
  status = "active";
  public_key = sg.pub_pem;
  signature = sig;
  signature_algorithm = sg.algorithm;
  capabilities = req.capabilities;
  issued_at = issued_at;
}

-- After the `INSERT`: the lifecycle event, whose result is dropped, and the answer.
unfoldable pub after_insert :
    Platform
    → Signer
    → AgentRegisterRequest
    → String
    → Time
    → String
    → String ⊎ Unit {0}
    → M (Response AgentPassportResponse)
after_insert pl sg req id issued_at sig (inl e) = pure (error 500 ("store passport: " ++ e))
after_insert pl sg req id issued_at sig (inr _) = do
  execute (
      with_uuid pl id
        (add_action pl "passport_issued" ("{\"name\":" ++ pl.quote req.name ++ "}") "success"))
  pure (answer 201 (issued_response sg req id issued_at sig))

-- After signing.
unfoldable pub after_sign :
    Platform
    → Signer
    → AgentRegisterRequest
    → String
    → Time
    → String ⊎ (String × String)
    → M (Response AgentPassportResponse)
after_sign pl sg req id issued_at (inl e) = pure (error 500 ("sign passport: " ++ e))
after_sign pl sg req id issued_at (inr signed) = do
  stored ← execute (insert_agent pl sg req id issued_at signed)
  after_insert pl sg req id issued_at signed.0 stored

-- A request that has a name and an organisation.
unfoldable pub register_named :
    Platform → Signer → AgentRegisterRequest → M (Response AgentPassportResponse)
register_named pl sg req = do
  id ← draw_uuid
  t ← read_clock
  after_sign pl sg req id (truncate_ms t) (sign pl.crypto sg (payload_of pl req id (truncate_ms t)))

-- After `readJSON`.
unfoldable pub register_decoded :
    Platform → Signer → AgentRegisterRequest × Option String → M (Response AgentPassportResponse)
register_decoded pl sg (req, some e) = pure (error 400 ("invalid JSON: " ++ e))
register_decoded pl sg (req, none) =
    if trim_space req.name == "" || trim_space req.organization == ""
    then pure (error 400 "name and organization are required")
    else register_named pl sg req

-- `handleAgentRegister`
unfoldable pub handle_agent_register :
    Platform → Signer → RequestBody → M (Response AgentPassportResponse)
handle_agent_register pl sg body =
    register_decoded pl sg (read_json no_registration pl.agent_register body)

pub data Loaded : Type 0 where
  found : AgentRow → Loaded
  not_found : Loaded
  load_failed : String → Loaded

abbrev pub loaded_of : String ⊎ Option AgentRow → Loaded
loaded_of (inl e) = load_failed e
loaded_of (inr none) = not_found
loaded_of (inr (some r)) = found r

-- `loadAgent`
unfoldable pub load_agent : Platform → String → M Loaded
load_agent pl id = do row ← execute (with_uuid pl id select_agent); pure (loaded_of row)

pub record VerifyResponse : Type 0 where
  pub passport_id : String
  pub status : String
  pub signature_valid : Bool
  pub capabilities : List String
  pub issued_at : Time
  pub revoked_at : Option Time

unfoldable pub verify_loaded : Platform → Signer → Loaded → Response VerifyResponse
verify_loaded pl sg not_found = error 404 "passport not found"
verify_loaded pl sg (load_failed e) = error 500 e
verify_loaded pl sg (found row) = answer 200 (record {
  passport_id = row.passport_id;
  status = row.status;
  signature_valid = verify pl.crypto sg row.signed_payload row.signature_b64;
  capabilities = row.capabilities;
  issued_at = row.issued_at;
  revoked_at = row.revoked_at;
})

-- `handleAgentVerify`
unfoldable pub handle_agent_verify : Platform → Signer → String → M (Response VerifyResponse)
handle_agent_verify pl sg id = do row ← load_agent pl id; pure (verify_loaded pl sg row)

-- `CapabilityResponse`; the scope that it grants is always empty.
pub data CapabilityResponse : Type 0 where
  granted : String → Time → CapabilityResponse
  refused : String → CapabilityResponse

-- The loop over `row.Capabilities`.
unfoldable pub contains : String → List String → Bool
contains name [] = false
contains name (c ∷ cs) = if c == name then true else contains name cs

unfoldable pub capability_loaded : String → Loaded → Response CapabilityResponse
capability_loaded name not_found = error 404 "passport not found"
capability_loaded name (load_failed e) = error 500 e
capability_loaded name (found row) =
    if row.status == "revoked"
    then answer 200 (refused "passport_revoked")
    else if contains name row.capabilities
    then answer 200 (granted name row.issued_at)
    else answer 200 (refused "capability_not_found")

-- `handleAgentCapability`
unfoldable pub handle_agent_capability :
    Platform → String → String → M (Response CapabilityResponse)
handle_agent_capability pl id name = do row ← load_agent pl id; pure (capability_loaded name row)
