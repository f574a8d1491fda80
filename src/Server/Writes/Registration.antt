-- ===== src/Server/Writes/Registration.antt =====
-- A passport that was registered verifies (server/handlers_agents.go).
use computeid_go.Common.{
  ◌≡◌, refl, inl, inr, String, true, ◌||◌, Option, none, some, List, ◌∷◌, ap, ◌∙◌, eq_refl, ◌==◌,
  Bool-cases, Option-cases,
}
use computeid_go.Sys.{Time}
use computeid_go.Server.Db.{
  AgentRow, Db, World, counted, statement_of, Up, execute-fault, execute-refused, execute-done,
  read_clock, draw_uuid, Sum-cases,
}
use computeid_go.Server.Text.{RequestBody, answer, read_json, trim_space}
use computeid_go.Server.Signer.{Signer, sign, verify}
use computeid_go.Server.Signer.Laws.{IsSound, verify-sign}
use computeid_go.Server.Platform.{Platform, AgentRegisterRequest}
use computeid_go.Server.Tables.{find_agent, with_uuid, add_agent}
use computeid_go.Server.Agents.{
  AgentPassportResponse, no_registration, issued_row, issued_response, insert_agent, payload_of,
  truncate_ms, after_insert, after_sign, register_named, register_decoded, handle_agent_register,
  handle_agent_verify,
}
use computeid_go.Server.Writes.Rows.{DbSteps-row}
use computeid_go.Server.Writes.Handlers.{Request, serve_all, after_insert-Writes}
use computeid_go.Server.Writes.Final.{serve_all-verify}

-- The row that a response is about, in these tables.
pub record IsStored (pl : Platform) (sg : Signer) (resp : AgentPassportResponse) (d : Db)
    : Type 0 where
  pub id : String
  pub row : AgentRow
  pub read : pl.uuid_of resp.passport_id ≡ some id
  pub there : find_agent id d.agents ≡ some row
  pub keyed : row.passport_id ≡ id
  pub granted : row.capabilities ≡ resp.capabilities
  pub dated : row.issued_at ≡ resp.issued_at
  pub signed : verify pl.crypto sg row.signed_payload row.signature_b64 ≡ true

module _ (pl : Platform) (sg : Signer) (req : AgentRegisterRequest) (id : String) (t : Time)
    (signed : String × String) (w : World) (resp : AgentPassportResponse) where
  abbrev stored : String → AgentRow
  stored u = issued_row sg req t signed u (statement_of w).time

  abbrev inserted : String → World
  inserted u = record (counted w) { db = record (w.db) { agents = stored u ∷ w.db.agents } }

  -- The answer after the row has been put in.
  inserted-IsStored :
      (u : String)
      → pl.uuid_of id ≡ some u
      → verify pl.crypto sg signed.1 signed.0 ≡ true
      → (after_insert pl sg req id t signed.0 (inr tt) (inserted u)).0 ≡ answer 201 resp
      → IsStored pl sg resp (after_insert pl sg req id t signed.0 (inr tt) (inserted u)).1.db
  unfolding after_insert find_agent
  inserted-IsStored u read valid h =
      let same : issued_response sg req id t signed.0 ≡ resp = cc h in
      let steps = after_insert-Writes pl sg req id t signed.0 (inr tt) (inserted u) in
      let (r', later, follows) = DbSteps-row steps u (stored u) (rw (eq_refl u)) in
      record {
        id = u;
        row = r';
        read = rw (← same) read;
        there = later;
        keyed = ap (λ (x : AgentRow). x.passport_id) follows.keeps;
        granted =
            ap (λ (x : AgentRow). x.capabilities) follows.keeps
            ∙ ap (λ (x : AgentPassportResponse). x.capabilities) same;
        dated =
            ap (λ (x : AgentRow). x.issued_at) follows.keeps
            ∙ ap (λ (x : AgentPassportResponse). x.issued_at) same;
        signed =
            ap (λ (x : AgentRow). verify pl.crypto sg x.signed_payload x.signature_b64)
              follows.keeps
            ∙ valid;
      }

  after_sign-IsStored :
      verify pl.crypto sg signed.1 signed.0 ≡ true
      → (after_sign pl sg req id t (inr signed) w).0 ≡ answer 201 resp
      → IsStored pl sg resp (after_sign pl sg req id t (inr signed) w).1.db
  unfolding after_sign insert_agent with_uuid add_agent after_insert
  after_sign-IsStored valid h =
      let q = insert_agent pl sg req id t signed in
      elim (Option-cases (w.backend.fault w.statements)) [
        | inr (e, f) ↦ cc (rw (execute-fault q w e f) at h)
        | inl up ↦ elim (Option-cases (pl.uuid_of id)) [
          | inl unread ↦ cc (
              rw
                (execute-refused q w "invalid input syntax for type uuid" up
                  (rw (unread, with_uuid) refl))
                at h)
          | inr (u, read) ↦ elim (Option-cases (find_agent u w.db.agents)) [
            | inr (r, taken) ↦ cc (
                rw
                  (execute-refused q w "duplicate key value violates unique constraint" up
                    (rw (read, with_uuid, add_agent, taken) refl))
                  at h)
            | inl free ↦
                let made =
                  execute-done q w tt (inserted u).db up
                    (rw (read, with_uuid, add_agent, free) refl) in
                rw made (inserted-IsStored u read valid (rw made at h))
          ]
        ]
      ]

module _ (pl : Platform) (sg : Signer) (sound : IsSound pl.crypto) where
  register_named-IsStored :
      (req : AgentRegisterRequest) (w : World) (resp : AgentPassportResponse)
      → (register_named pl sg req w).0 ≡ answer 201 resp
      → IsStored pl sg resp (register_named pl sg req w).1.db
  unfolding register_named after_sign
  register_named-IsStored req w resp h =
      let w₁ = (draw_uuid w).1 in
      let id = (draw_uuid w).0 in
      let t = truncate_ms (read_clock w₁).0 in
      elim (Sum-cases (sign pl.crypto sg (payload_of pl req id t))) [
        | inl (e, s) ↦ cc (rw (s, register_named) at h)
        | inr (signed, s) ↦
            let valid =
              verify-sign pl.crypto sound sg sg (payload_of pl req id t) signed.0 signed.1 refl s in
            rw (s, register_named)
              (after_sign-IsStored pl sg req id t signed (read_clock w₁).1 resp valid
                (rw (s, register_named) at h))
      ]

  register_decoded-IsStored :
      (r : AgentRegisterRequest × Option String) (w : World) (resp : AgentPassportResponse)
      → (register_decoded pl sg r w).0 ≡ answer 201 resp
      → IsStored pl sg resp (register_decoded pl sg r w).1.db
  unfolding register_decoded
  register_decoded-IsStored (req, some e) w resp h = cc
  register_decoded-IsStored (req, none) w resp h =
      elim (Bool-cases (trim_space req.name == "" || trim_space req.organization == "")) [
        | inl blank ↦ cc (rw (blank, register_decoded) at h)
        | inr named ↦
            rw (named, register_decoded)
              (register_named-IsStored req w resp (rw (named, register_decoded) at h))
      ]

-- With sound cryptography, a passport whose registration was answered verifies from then on:
-- whatever requests to the agent handlers follow, its revocation among them, `verify` by the identifier that the answer
-- gave, if its query does not fail, finds it, with a valid signature and with the capabilities and
-- the time of the answer.
pub handle_agent_register-verify :
    (pl : Platform) (sg : Signer)
    → IsSound pl.crypto
    → (body : RequestBody) (rs : List Request) (w : World) (resp : AgentPassportResponse)
    → (handle_agent_register pl sg body w).0 ≡ answer 201 resp
    → Up (serve_all pl sg rs (handle_agent_register pl sg body w).1)
    → (id : String) × (status : String) × (revoked_at : Option Time) × (pl.uuid_of resp.passport_id
        ≡ some id)
      × ((handle_agent_verify pl sg resp.passport_id
            (serve_all pl sg rs (handle_agent_register pl sg body w).1)).0
          ≡ answer 200 (record {
            passport_id = id;
            status = status;
            signature_valid = true;
            capabilities = resp.capabilities;
            issued_at = resp.issued_at;
            revoked_at = revoked_at;
          }))
unfolding handle_agent_register
handle_agent_register-verify pl sg sound body rs w resp h up =
    let stored =
      register_decoded-IsStored pl sg sound (read_json no_registration pl.agent_register body) w
        resp h in
    let w' = (handle_agent_register pl sg body w).1 in
    let (status, revoked_at, e) =
      serve_all-verify pl sg resp.passport_id stored.id stored.row rs w' stored.read stored.there
        up in
    (
      stored.id,
      status,
      revoked_at,
      stored.read,
      rw (← stored.keyed, ← stored.signed, ← stored.granted, ← stored.dated) e,
    )
