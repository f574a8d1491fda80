-- ===== src/Server/Writes/Tables.antt =====
-- The statements of server/handlers_agents.go write in the steps of the relation.
use computeid_go.Common.{◌≡◌, ◌⊎◌, inl, inr, String, none, ap, Option-cases, Bool-cases, subst}
use computeid_go.Server.Db.{AgentRow, Db, Statement, Sql, inr_injective}
use computeid_go.Server.Platform.{Platform}
use computeid_go.Server.Tables.{
  find_agent, with_uuid, add_agent, select_agent, valid_outcome, action_row, add_action,
  add_action_if_known, revoke_agent, agent_exists,
}
use computeid_go.Server.Writes.{issued, entered, withdrawn, DbSteps, done, more, IsWrite}

pub with_uuid-IsWrite :
    {A : Type 0} (pl : Platform) (text : String) (q : String → Sql A)
    → ((id : String) → IsWrite (q id))
    → IsWrite (with_uuid pl text q)
unfolding with_uuid
with_uuid-IsWrite pl text q h st d a d' e = elim (Option-cases (pl.uuid_of text)) [
  | inl unread ↦ cc (rw (unread, with_uuid) at e)
  | inr (id, read) ↦ h id st d a d' (rw (read, with_uuid) at e)
]

-- The tables after a statement that succeeds.
after_is :
    {A : Type 0} (d : Db) {a b : A} {d₁ d₂ : Db}
    → ◌≡◌ {A = String ⊎ (A × Db)} (inr (a, d₁)) (inr (b, d₂))
    → DbSteps d d₁
    → DbSteps d d₂
after_is {A} d e s = subst (DbSteps d) (ap (λ (u : A × Db). u.1) (inr_injective e)) s

pub add_agent-IsWrite :
    (row : Statement → AgentRow)
    → ((st : Statement) → (row st).status ≡ "active")
    → ((st : Statement) → (row st).revoked_at ≡ none)
    → IsWrite (λ st. add_agent (row st) st)
unfolding add_agent
add_agent-IsWrite row active standing st d a d' e =
    elim (Option-cases (find_agent (row st).passport_id d.agents)) [
      | inr (r, taken) ↦ cc (rw (taken, add_agent) at e)
      | inl free ↦
          after_is d (rw (free, add_agent) at e)
            (more done (issued (row st) free (active st) (standing st)))
    ]

pub add_action-IsWrite :
    (pl : Platform) (action details outcome id : String)
    → IsWrite (add_action pl action details outcome id)
unfolding add_action
add_action-IsWrite pl action details outcome id st d a d' e =
    elim (Option-cases (pl.jsonb_of details)) [
      | inl unread ↦ cc (rw (unread, add_action) at e)
      | inr (j, read) ↦ elim (Option-cases (find_agent id d.agents)) [
        | inl lost ↦ cc (rw (read, add_action, lost) at e)
        | inr (r, found) ↦ elim (Bool-cases (valid_outcome outcome)) [
          | inr bad ↦ cc (rw (read, add_action, found, bad) at e)
          | inl good ↦
              after_is d (rw (read, add_action, found, good) at e)
                (more done (entered (action_row id action j outcome st) r found good))
        ]
      ]
    ]

pub add_action_if_known-IsWrite :
    (pl : Platform) (action details outcome id : String)
    → IsWrite (add_action_if_known pl action details outcome id)
unfolding add_action_if_known
add_action_if_known-IsWrite pl action details outcome id st d a d' e =
    elim (Option-cases (pl.jsonb_of details)) [
      | inl unread ↦ cc (rw (unread, add_action_if_known) at e)
      | inr (j, read) ↦ elim (Option-cases (find_agent id d.agents)) [
        | inl lost ↦ after_is d (rw (read, add_action_if_known, lost) at e) done
        | inr (r, found) ↦ elim (Bool-cases (valid_outcome outcome)) [
          | inr bad ↦ cc (rw (read, add_action_if_known, found, bad) at e)
          | inl good ↦
              after_is d (rw (read, add_action_if_known, found, good) at e)
                (more done (entered (action_row id action j outcome st) r found good))
        ]
      ]
    ]

pub revoke_agent-IsWrite : (reason id : String) → IsWrite (revoke_agent reason id)
unfolding revoke_agent
revoke_agent-IsWrite reason id st d a d' e = after_is d e (more done (withdrawn id reason st))

pub select_agent-IsWrite : (id : String) → IsWrite (select_agent id)
unfolding select_agent
select_agent-IsWrite id st d a d' e = after_is d e done

pub agent_exists-IsWrite : (id : String) → IsWrite (agent_exists id)
unfolding agent_exists
agent_exists-IsWrite id st d a d' e = after_is d e done
