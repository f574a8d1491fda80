-- ===== src/Server/Actions.antt =====
-- server/handlers_agents.go: the handlers that write to the audit log and that revoke.
pub mod Laws
use Prim.Native.String
use computeid_go.Common.{
  ℕ, zero, suc, String, Bool, true, false, not, Option, none, some, [], ◌⊎◌, inl, inr, ◌==◌, nat_eq,
  if◌then◌else◌,
}
use computeid_go.Server.Db.{M, ◌>>=◌, ◌>>◌, pure, execute}
use computeid_go.Server.Text.{trim_space, RequestBody, read_json, Response, answer, error}
use computeid_go.Server.Platform.{Platform, LogActionRequest, RevokeRequest}
use computeid_go.Server.Tables.{
  with_uuid, valid_outcome, add_action, add_action_if_known, revoke_agent, agent_exists,
}

infixr 65 ◌++◌
abbrev ◌++◌ : String → String → String
s ++ t = String.◌++◌ s t

-- `{"status": "logged"}`
pub data Logged : Type 0 where
  logged : Logged

abbrev pub no_action : LogActionRequest
no_action = record { action = ""; details = []; outcome = "" }

abbrev pub or_success : String → String
or_success o = if o == "" then "success" else o

-- After the `INSERT`: its error, or how many rows it made.
unfoldable pub after_log : String ⊎ ℕ → Response Logged
after_log (inl e) = error 500 e
after_log (inr n) = if nat_eq n 0 then error 404 "passport not found" else answer 201 logged

-- A request with an action, its outcome filled in.
unfoldable pub log_named : Platform → String → LogActionRequest → String → M (Response Logged)
log_named pl id req outcome =
    if not (valid_outcome outcome)
    then pure (error 400 "outcome must be success|blocked|failure")
    else (do
      rows ← execute (
          with_uuid pl id
            (add_action_if_known pl req.action (pl.marshal_details req.details) outcome))
      pure (after_log rows))

unfoldable pub log_decoded :
    Platform → String → LogActionRequest × Option String → M (Response Logged)
log_decoded pl id (req, some e) = pure (error 400 ("invalid JSON: " ++ e))
log_decoded pl id (req, none) =
    if trim_space req.action == ""
    then pure (error 400 "action is required")
    else log_named pl id req (or_success req.outcome)

-- `handleAgentLogAction`
unfoldable pub handle_agent_log_action : Platform → RequestBody → String → M (Response Logged)
handle_agent_log_action pl body id = log_decoded pl id (read_json no_action pl.log_action body)

-- `{"status": "revoked", "reason": ...}`
pub data Revoked : Type 0 where
  revoked : String → Revoked

abbrev pub no_reason : RevokeRequest
no_reason = record { reason = "" }

-- The lifecycle event, whose result is dropped, and the answer.
unfoldable pub revoke_answer : Platform → String → String → M (Response Revoked)
revoke_answer pl id reason = do
  execute (
      with_uuid pl id
        (add_action pl "passport_revoked" ("{\"reason\":" ++ pl.quote reason ++ "}") "success"))
  pure (answer 200 (revoked reason))

-- `_ = ....Scan(&exists)`: an error leaves `false`.
abbrev pub exists_or_false : String ⊎ Bool → Bool
exists_or_false (inl e) = false
exists_or_false (inr b) = b

unfoldable pub revoke_if_known : Platform → String → String → Bool → M (Response Revoked)
revoke_if_known pl id reason false = pure (error 404 "passport not found")
revoke_if_known pl id reason true = revoke_answer pl id reason

-- After the `UPDATE`: its error, or how many rows it changed.
unfoldable pub after_revoke : Platform → String → String → String ⊎ ℕ → M (Response Revoked)
after_revoke pl id reason (inl e) = pure (error 500 e)
after_revoke pl id reason (inr zero) = do
  known ← execute (with_uuid pl id agent_exists)
  revoke_if_known pl id reason (exists_or_false known)
after_revoke pl id reason (inr (suc n)) = revoke_answer pl id reason

abbrev pub reason_or_default : String → String
reason_or_default r = if r == "" then "manual revocation" else r

-- The body is optional: an error of `readJSON` is dropped.
unfoldable pub handle_agent_revoke : Platform → RequestBody → String → M (Response Revoked)
handle_agent_revoke pl body id = do
  let reason = reason_or_default (read_json no_reason pl.revoke body).0.reason
  rows ← execute (with_uuid pl id (revoke_agent reason))
  after_revoke pl id reason rows
