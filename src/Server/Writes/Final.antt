-- ===== src/Server/Writes/Final.antt =====
-- Revocation and signatures over sequences of requests (server/handlers_agents.go).
use computeid_go.Common.{◌≡◌, refl, String, Option, some, List, ap}
use computeid_go.Sys.{Time}
use computeid_go.Server.Db.{AgentRow, World, counted, Up, execute-done}
use computeid_go.Server.Text.{answer}
use computeid_go.Server.Signer.{Signer, verify}
use computeid_go.Server.Platform.{Platform}
use computeid_go.Server.Tables.{find_agent, with_uuid, select_agent}
use computeid_go.Server.Agents.{
  refused, load_agent, found, handle_agent_verify, verify_loaded, handle_agent_capability,
  capability_loaded,
}
use computeid_go.Server.Writes.Rows.{DbSteps-row}
use computeid_go.Server.Writes.Handlers.{Request, serve_all, serve_all-DbSteps}

-- A passport that is found is loaded, if the query does not fail.
load_agent-found :
    (pl : Platform) (text id : String) (w : World) (r : AgentRow)
    → Up w
    → pl.uuid_of text ≡ some id
    → find_agent id w.db.agents ≡ some r
    → load_agent pl text w ≡ (found r, counted w)
unfolding load_agent with_uuid select_agent
load_agent-found pl text id w r up read there =
    rw
      (execute-done (with_uuid pl text select_agent) w (some r) w.db up
        (rw (read, with_uuid, there) refl))
      refl

module _ (pl : Platform) (sg : Signer) (text id : String) (r : AgentRow) (rs : List Request)
    (w : World) where
  -- A passport that is there and revoked stays refused: whatever the requests that follow and
  -- whichever of their statements fail, a capability check whose query does not fail answers that
  -- it is revoked.
  pub serve_all-refused :
      (name : String)
      → pl.uuid_of text ≡ some id
      → find_agent id w.db.agents ≡ some r
      → r.status ≡ "revoked"
      → Up (serve_all pl sg rs w)
      → (handle_agent_capability pl text name (serve_all pl sg rs w)).0
        ≡ answer 200 (refused "passport_revoked")
  unfolding handle_agent_capability capability_loaded
  serve_all-refused name read there gone up =
      let (r', later, follows) = DbSteps-row (serve_all-DbSteps pl sg rs w) id r there in
      let same = follows.stays gone in
      rw (load_agent-found pl text id (serve_all pl sg rs w) r' up read later, same, gone)

  -- For a passport that is there, `verify` answers after any requests, if its query does not fail,
  -- with the same identifier, validity of the signature, capabilities and time of issue; only the
  -- status and the time of revocation may be others.
  pub serve_all-verify :
      pl.uuid_of text ≡ some id
      → find_agent id w.db.agents ≡ some r
      → Up (serve_all pl sg rs w)
      → (status : String) × (revoked_at : Option Time) × ((handle_agent_verify pl sg text
            (serve_all pl sg rs w)).0
          ≡ answer 200 (record {
            passport_id = r.passport_id;
            status = status;
            signature_valid = verify pl.crypto sg r.signed_payload r.signature_b64;
            capabilities = r.capabilities;
            issued_at = r.issued_at;
            revoked_at = revoked_at;
          }))
  unfolding handle_agent_verify verify_loaded
  serve_all-verify read there up =
      let (r', later, follows) = DbSteps-row (serve_all-DbSteps pl sg rs w) id r there in
      (
        r'.status,
        r'.revoked_at,
        rw (load_agent-found pl text id (serve_all pl sg rs w) r' up read later)
            (ap (λ (u : AgentRow). verify_loaded pl sg (found u)) follows.keeps),
      )
