-- ===== src/Server/Writes/Revocation.antt =====
-- What the revocation handler leaves when it answers (server/handlers_agents.go).
use computeid_go.Common.{
  ◌≡◌, refl, inl, inr, String, false, none, some, List, [], ◌∷◌, sym, ap, ◌∙◌, arith, eq_iff, ◌==◌,
  Bool-cases, Option-cases, text_cases, some_injective, All,
}
use computeid_go.Server.Db.{
  AgentRow, World, Statement, counted, statement_of, Up, execute-fault, execute-refused,
  execute-done,
}
use computeid_go.Server.Text.{RequestBody, Response, answer, read_json}
use computeid_go.Server.Signer.{Signer}
use computeid_go.Server.Platform.{Platform}
use computeid_go.Server.Tables.{
  find_agent, with_uuid, revoke_rows, revoke_agent, count_active, agent_exists, is_active,
}
use computeid_go.Server.Agents.{refused, handle_agent_capability}
use computeid_go.Server.Actions.{
  Revoked, no_reason, reason_or_default, after_revoke, revoke_if_known, handle_agent_revoke,
}
use computeid_go.Server.Writes.Rows.{withdraw, find_agent-revoke_rows, DbSteps-row}
use computeid_go.Server.Writes.Final.{serve_all-refused}
use computeid_go.Server.Writes.Handlers.{Request, serve_all, after_revoke-Writes}
use computeid_go.Server.Writes.Consistent.{IsLifecycle, IsConsistent}

lost-count_active :
    (id : String) (rs : List AgentRow) → find_agent id rs ≡ none → count_active id rs ≡ 0
unfolding find_agent count_active
lost-count_active id [] h = refl
lost-count_active id (r ∷ rs) h = elim (Bool-cases (r.passport_id == id)) [
  | inl same ↦ cc (rw (same, find_agent) at h)
  | inr other ↦ rw other (lost-count_active id rs (rw (other, find_agent) at h))
]

lost-revoke_rows :
    (id reason : String) (st : Statement) (rs : List AgentRow)
    → find_agent id rs ≡ none
    → find_agent id (revoke_rows id reason st rs) ≡ none
unfolding find_agent revoke_rows
lost-revoke_rows id reason st [] h = refl
lost-revoke_rows id reason st (r ∷ rs) h = elim (Bool-cases (r.passport_id == id)) [
  | inl same ↦ cc (rw (same, find_agent) at h)
  | inr other ↦ rw (other, other) (lost-revoke_rows id reason st rs (rw (other, find_agent) at h))
]

find_agent-All :
    (P : AgentRow → Type 0) (id : String) (rs : List AgentRow) (r : AgentRow)
    → find_agent id rs ≡ some r
    → All P rs
    → P r × (r.passport_id ≡ id)
unfolding find_agent
find_agent-All P id [] r h all = cc
find_agent-All P id (x ∷ rs) r h (p, all) = elim (text_cases x.passport_id id) [
  | inr other ↦ find_agent-All P id rs r (rw (other, find_agent) at h) all
  | inl same ↦
      let e : x ≡ r = some_injective (rw ((eq_iff x.passport_id id).1 same, find_agent) at h) in
      rw (← e) (p, same)
]

withdraw-revoked :
    (id reason : String) (st : Statement) (r : AgentRow)
    → r.passport_id ≡ id
    → IsLifecycle r
    → (withdraw id reason st r).status ≡ "revoked"
withdraw-revoked id reason st r same h = elim (Bool-cases (is_active id r)) [
  | inl a ↦ rw a
  | inr n ↦ elim h [
    | inr (gone, _) ↦ rw n gone
    | inl (active, _) ↦ absurd (ground (arith, eq_iff r.passport_id id, eq_iff r.status "active"))
  ]
]

module _ (pl : Platform) (body : RequestBody) (text : String) (w : World) where
  -- The reason that the handler settles on, and the world after its `UPDATE`.
  abbrev reason : String
  reason = reason_or_default (read_json no_reason pl.revoke body).0.reason

  abbrev updated : String → World
  updated id = record (counted w) {
    db = record (w.db) { agents = revoke_rows id reason (statement_of w) w.db.agents };
  }

  revoke-updated :
      (id : String)
      → Up w
      → pl.uuid_of text ≡ some id
      → handle_agent_revoke pl body text w
        ≡ after_revoke pl text reason (inr (count_active id w.db.agents)) (updated id)
  unfolding handle_agent_revoke with_uuid revoke_agent
  revoke-updated id up read =
      rw
        (execute-done (with_uuid pl text (revoke_agent reason)) w (count_active id w.db.agents)
          (updated id).db up (rw (read, with_uuid) refl))
        refl

  -- Where there is no such passport the handler does not succeed.
  revoke-lost :
      (id : String) (a : Revoked)
      → Up w
      → pl.uuid_of text ≡ some id
      → find_agent id w.db.agents ≡ none
      → ¬ ((handle_agent_revoke pl body text w).0 ≡ answer 200 a)
  unfolding after_revoke revoke_if_known agent_exists with_uuid
  revoke-lost id a up read lost h =
      let w' = updated id in
      let q = with_uuid pl text agent_exists in
      let same = revoke-updated id up read in
      let h' : (after_revoke pl text reason (inr (count_active id w.db.agents)) w').0
          ≡ answer 200 a =
        ap (λ (u : Response Revoked × World). u.0) (sym same) ∙ h in
      let h'' : (after_revoke pl text reason (inr 0) w').0 ≡ answer 200 a =
        ap (λ n. (after_revoke pl text reason (inr n) w').0)
          (sym (lost-count_active id w.db.agents lost))
        ∙ h' in
      elim (Option-cases (w'.backend.fault w'.statements)) [
        | inr (e, f) ↦ cc (rw (execute-fault q w' e f) at h'')
        | inl up' ↦
            let gone = lost-revoke_rows id reason (statement_of w) w.db.agents lost in
            cc (rw (execute-done q w' false w'.db up' (rw (read, with_uuid, gone) refl)) at h'')
      ]

  -- When the handler succeeds the passport is there, and it is revoked.
  revoke-row :
      (sg : Signer) (a : Revoked)
      → IsConsistent w.db
      → (handle_agent_revoke pl body text w).0 ≡ answer 200 a
      → (id : String) × (r : AgentRow) × (pl.uuid_of text ≡ some id)
        × (find_agent id (handle_agent_revoke pl body text w).1.db.agents ≡ some r)
        × (r.status ≡ "revoked")
  unfolding handle_agent_revoke after_revoke with_uuid
  revoke-row sg a c h = elim (Option-cases (w.backend.fault w.statements)) [
    | inr (e, f) ↦ cc (rw (execute-fault (with_uuid pl text (revoke_agent reason)) w e f) at h)
    | inl up ↦ elim (Option-cases (pl.uuid_of text)) [
      | inl unread ↦ cc (
          rw
            (execute-refused (with_uuid pl text (revoke_agent reason)) w
              "invalid input syntax for type uuid" up (rw (unread, with_uuid) refl))
            at h)
      | inr (id, read) ↦ elim (Option-cases (find_agent id w.db.agents)) [
        | inl lost ↦ absurd (revoke-lost id a up read lost h)
        | inr (r, there) ↦
            let (lives, keyed) = find_agent-All IsLifecycle id w.db.agents r there c.lifecycle in
            let gone = withdraw-revoked id reason (statement_of w) r keyed lives in
            let now = find_agent-revoke_rows id reason (statement_of w) id w.db.agents r there in
            let steps =
              after_revoke-Writes pl sg text reason (inr (count_active id w.db.agents))
                (updated id) in
            let (r', later, follows) =
              DbSteps-row steps id (withdraw id reason (statement_of w) r) now in
            (
              id,
              r',
              read,
              rw (revoke-updated id up read) later,
              ap (λ (u : AgentRow). u.status) (follows.stays gone) ∙ gone,
            )
      ]
    ]
  ]

-- Once the handler, over consistent tables, has answered that a passport is revoked, no request
-- to an agent handler brings it back: whatever such requests follow, a capability check of the passport whose query does
-- not fail answers that it is revoked.
pub handle_agent_revoke-final :
    (pl : Platform) (sg : Signer) (body : RequestBody) (text name : String) (a : Revoked)
    (rs : List Request) (w : World)
    → IsConsistent w.db
    → (handle_agent_revoke pl body text w).0 ≡ answer 200 a
    → Up (serve_all pl sg rs (handle_agent_revoke pl body text w).1)
    → (handle_agent_capability pl text name
        (serve_all pl sg rs (handle_agent_revoke pl body text w).1)).0
      ≡ answer 200 (refused "passport_revoked")
handle_agent_revoke-final pl sg body text name a rs w c h up =
    let (id, r, read, there, gone) = revoke-row pl body text w sg a c h in
    serve_all-refused pl sg text id r rs (handle_agent_revoke pl body text w).1 name read there gone
      up
