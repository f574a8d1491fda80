-- ===== src/Server/Writes/Handlers.antt =====
-- Every request to an agent handler writes in the steps of the relation.
use computeid_go.Common.{
  ℕ, zero, suc, refl, ◌⊎◌, inl, inr, String, Bool, true, false, ◌||◌, ◌==◌, Option, none, some,
  List, [], ◌∷◌, Bool-cases,
}
use computeid_go.Sys.{Time}
use computeid_go.Server.Db.{World, execute, read_clock, draw_uuid}
use computeid_go.Server.Text.{RequestBody, read_json, trim_space}
use computeid_go.Server.Signer.{Signer}
use computeid_go.Server.Platform.{Platform, AgentRegisterRequest, LogActionRequest}
use computeid_go.Server.Tables.{
  with_uuid, add_action, select_agent, revoke_agent, agent_exists, valid_outcome,
}
use computeid_go.Server.Agents.{
  issued_row, insert_agent, after_insert, after_sign, register_named, register_decoded,
  handle_agent_register, no_registration, load_agent, handle_agent_verify, handle_agent_capability,
}
use computeid_go.Server.Actions.{
  log_named, log_decoded, handle_agent_log_action, revoke_answer, revoke_if_known, after_revoke,
  handle_agent_revoke, exists_or_false, no_action, no_reason, reason_or_default, or_success,
}
use computeid_go.Server.Writes.{DbSteps, done, DbSteps-trans, IsWrite, Writes, execute-Writes}
use computeid_go.Server.Writes.Tables.{
  with_uuid-IsWrite, add_agent-IsWrite, add_action-IsWrite, add_action_if_known-IsWrite,
  revoke_agent-IsWrite, select_agent-IsWrite, agent_exists-IsWrite,
}

-- A request to one of the agent handlers, as the router hands it on.
pub data Request : Type 0 where
  register : RequestBody → Request
  verify : String → Request
  capability : String → String → Request
  log_action : RequestBody → String → Request
  revoke : RequestBody → String → Request

unfoldable pub serve : Platform → Signer → Request → World → World
serve pl sg (register body) w = (handle_agent_register pl sg body w).1
serve pl sg (verify id) w = (handle_agent_verify pl sg id w).1
serve pl sg (capability id name) w = (handle_agent_capability pl id name w).1
serve pl sg (log_action body id) w = (handle_agent_log_action pl body id w).1
serve pl sg (revoke body id) w = (handle_agent_revoke pl body id w).1

unfoldable pub serve_all : Platform → Signer → List Request → World → World
serve_all pl sg [] w = w
serve_all pl sg (r ∷ rs) w = serve_all pl sg rs (serve pl sg r w)

module _ (pl : Platform) (sg : Signer) where
  entry-Writes :
      (action details outcome id : String)
      → Writes (execute (with_uuid pl id (add_action pl action details outcome)))
  entry-Writes action details outcome id =
      execute-Writes _ (with_uuid-IsWrite pl id _ (add_action-IsWrite pl action details outcome))

  pub after_insert-Writes :
      (req : AgentRegisterRequest) (id : String) (t : Time) (sig : String) (r : String ⊎ Unit {0})
      → Writes (after_insert pl sg req id t sig r)
  unfolding after_insert
  after_insert-Writes req id t sig (inl e) w = done
  after_insert-Writes req id t sig (inr _) w = entry-Writes _ _ _ id w

  insert_agent-IsWrite :
      (req : AgentRegisterRequest) (id : String) (t : Time) (signed : String × String)
      → IsWrite (insert_agent pl sg req id t signed)
  unfolding insert_agent
  insert_agent-IsWrite req id t signed = with_uuid-IsWrite pl id _ (λ u.
      add_agent-IsWrite (λ st. issued_row sg req t signed u st.time) (λ st. refl) (λ st. refl))

  after_sign-Writes :
      (req : AgentRegisterRequest) (id : String) (t : Time) (r : String ⊎ (String × String))
      → Writes (after_sign pl sg req id t r)
  unfolding after_sign
  after_sign-Writes req id t (inl e) w = done
  after_sign-Writes req id t (inr signed) w =
      let q = insert_agent pl sg req id t signed in
      DbSteps-trans (execute-Writes q (insert_agent-IsWrite req id t signed) w)
        (after_insert-Writes req id t signed.0 (execute q w).0 (execute q w).1)

  pub register_decoded-Writes :
      (r : AgentRegisterRequest × Option String) → Writes (register_decoded pl sg r)
  unfolding register_decoded register_named draw_uuid read_clock
  register_decoded-Writes (req, some e) w = done
  register_decoded-Writes (req, none) w =
      elim (Bool-cases (trim_space req.name == "" || trim_space req.organization == "")) [
        | inl blank ↦ rw (blank, register_decoded) done
        | inr named ↦ rw (named, register_decoded) (after_sign-Writes req _ _ _ _)
      ]

  load_agent-Writes : (id : String) → Writes (load_agent pl id)
  unfolding load_agent
  load_agent-Writes id w =
      execute-Writes _ (with_uuid-IsWrite pl id select_agent select_agent-IsWrite) w

  log_decoded-Writes :
      (id : String) (r : LogActionRequest × Option String) → Writes (log_decoded pl id r)
  unfolding log_decoded log_named
  log_decoded-Writes id (req, some e) w = done
  log_decoded-Writes id (req, none) w = elim (Bool-cases (trim_space req.action == "")) [
    | inl blank ↦ rw (blank, log_decoded) done
    | inr named ↦ elim (Bool-cases (valid_outcome (or_success req.outcome))) [
      | inr bad ↦ rw (named, log_decoded, bad) done
      | inl good ↦
          rw (named, log_decoded, good)
            (execute-Writes _
              (with_uuid-IsWrite pl id _ (
                add_action_if_known-IsWrite pl req.action (pl.marshal_details req.details)
                  (or_success req.outcome)))
              w)
    ]
  ]

  revoke_answer-Writes : (id reason : String) → Writes (revoke_answer pl id reason)
  unfolding revoke_answer
  revoke_answer-Writes id reason w = entry-Writes _ _ _ id w

  revoke_if_known-Writes : (id reason : String) (b : Bool) → Writes (revoke_if_known pl id reason b)
  unfolding revoke_if_known
  revoke_if_known-Writes id reason false w = done
  revoke_if_known-Writes id reason true w = revoke_answer-Writes id reason w

  pub after_revoke-Writes :
      (id reason : String) (r : String ⊎ ℕ) → Writes (after_revoke pl id reason r)
  unfolding after_revoke
  after_revoke-Writes id reason (inl e) w = done
  after_revoke-Writes id reason (inr (suc n)) w = revoke_answer-Writes id reason w
  after_revoke-Writes id reason (inr zero) w =
      let q = with_uuid pl id agent_exists in
      DbSteps-trans (execute-Writes q (with_uuid-IsWrite pl id agent_exists agent_exists-IsWrite) w)
        (revoke_if_known-Writes id reason (exists_or_false (execute q w).0) (execute q w).1)

  serve-Writes : (r : Request) (w : World) → DbSteps w.db (serve pl sg r w).db
  unfolding serve handle_agent_register handle_agent_verify handle_agent_capability
      handle_agent_log_action handle_agent_revoke
  serve-Writes (register body) w =
      register_decoded-Writes (read_json no_registration pl.agent_register body) w
  serve-Writes (verify id) w = load_agent-Writes id w
  serve-Writes (capability id name) w = load_agent-Writes id w
  serve-Writes (log_action body id) w =
      log_decoded-Writes id (read_json no_action pl.log_action body) w
  serve-Writes (revoke body id) w =
      let reason = reason_or_default (read_json no_reason pl.revoke body).0.reason in
      let q = with_uuid pl id (revoke_agent reason) in
      DbSteps-trans
        (execute-Writes q
          (with_uuid-IsWrite pl id (revoke_agent reason) (revoke_agent-IsWrite reason)) w)
        (after_revoke-Writes id reason (execute q w).0 (execute q w).1)

  pub serve_all-DbSteps : (rs : List Request) (w : World) → DbSteps w.db (serve_all pl sg rs w).db
  unfolding serve_all
  serve_all-DbSteps [] w = done
  serve_all-DbSteps (r ∷ rs) w =
      DbSteps-trans (serve-Writes r w) (serve_all-DbSteps rs (serve pl sg r w))
