-- ===== src/Server/Tables.antt =====
-- The SQL statements of server/handlers_agents.go, over the tables and the constraints of
-- server/migrations/001_init.up.sql.
use computeid_go.Common.{
  ℕ, ◌+◌, String, Bool, true, false, ◌||◌, Option, none, some, List, [], ◌∷◌, inl, inr, ◌==◌, ◌&&◌,
  if◌then◌else◌,
}
use computeid_go.Common.Json.{Json}
use computeid_go.Server.Db.{AgentRow, ActionRow, Sql, Statement}
use computeid_go.Server.Platform.{Platform}

-- `WHERE passport_id = $1` on the primary key.
unfoldable pub find_agent : String → List AgentRow → Option AgentRow
find_agent id [] = none
find_agent id (r ∷ rs) = if r.passport_id == id then some r else find_agent id rs

-- A parameter of type uuid that is no uuid fails the statement.
unfoldable pub with_uuid : {A : Type 0} → Platform → String → (String → Sql A) → Sql A
with_uuid pl text q st d = elim (pl.uuid_of text) [
  | none ↦ inl "invalid input syntax for type uuid"
  | some id ↦ q id st d
]

-- `NULLIF($3,'')`
abbrev pub null_if_empty : String → Option String
null_if_empty s = if s == "" then none else some s

-- `INSERT INTO agents ...`: the new row stands first.
unfoldable pub add_agent : AgentRow → Sql (Unit {0})
add_agent row st d = elim (find_agent row.passport_id d.agents) [
  | some _ ↦ inl "duplicate key value violates unique constraint"
  | none ↦ inr (tt, record d { agents = row ∷ d.agents })
]

-- `SELECT ... FROM agents WHERE passport_id = $1`
unfoldable pub select_agent : String → Sql (Option AgentRow)
select_agent id st d = inr (find_agent id d.agents, d)

-- `CHECK (outcome IN ('success','blocked','failure'))`, and `validOutcome` of the handlers.
unfoldable pub valid_outcome : String → Bool
valid_outcome o = o == "success" || (o == "blocked" || o == "failure")

-- A row of the audit log, with the defaults of the schema; the newest stands first.
abbrev pub action_row : String → String → Json → String → Statement → ActionRow
action_row id action details outcome st = record {
  action_id = st.identifier;
  passport_id = id;
  action = action;
  details = details;
  outcome = outcome;
  occurred_at = st.time;
}

-- `INSERT INTO agent_actions ... VALUES ...`: the foreign key wants the agent.
unfoldable pub add_action : Platform → String → String → String → String → Sql (Unit {0})
add_action pl action details outcome id st d = elim (pl.jsonb_of details) [
  | none ↦ inl "invalid input syntax for type json"
  | some j ↦ elim (find_agent id d.agents) [
    | none ↦ inl "insert violates foreign key constraint"
    | some _ ↦
        if valid_outcome outcome
        then inr (tt, record d { actions = action_row id action j outcome st ∷ d.actions })
        else inl "new row violates check constraint"
  ]
]

-- `INSERT INTO agent_actions ... SELECT ... WHERE EXISTS (...)`: the number of rows.
unfoldable pub add_action_if_known : Platform → String → String → String → String → Sql ℕ
add_action_if_known pl action details outcome id st d = elim (pl.jsonb_of details) [
  | none ↦ inl "invalid input syntax for type json"
  | some j ↦ elim (find_agent id d.agents) [
    | none ↦ inr (0, d)
    | some _ ↦
        if valid_outcome outcome
        then inr (1, record d { actions = action_row id action j outcome st ∷ d.actions })
        else inl "new row violates check constraint"
  ]
]

-- `UPDATE agents SET status = 'revoked', ... WHERE passport_id = $1 AND status = 'active'`
abbrev pub revoked_row : String → Statement → AgentRow → AgentRow
revoked_row reason st r = record r {
  status = "revoked";
  revoked_at = some st.time;
  revoke_reason = some reason;
  updated_at = st.time;
}

abbrev pub is_active : String → AgentRow → Bool
is_active id r = r.passport_id == id && r.status == "active"

unfoldable pub revoke_rows : String → String → Statement → List AgentRow → List AgentRow
revoke_rows id reason st [] = []
revoke_rows id reason st (r ∷ rs) =
    (if is_active id r then revoked_row reason st r else r) ∷ revoke_rows id reason st rs

unfoldable pub count_active : String → List AgentRow → ℕ
count_active id [] = 0
count_active id (r ∷ rs) = if is_active id r then count_active id rs + 1 else count_active id rs

unfoldable pub revoke_agent : String → String → Sql ℕ
revoke_agent reason id st d =
    inr (count_active id d.agents, record d { agents = revoke_rows id reason st d.agents })

-- `SELECT EXISTS(SELECT 1 FROM agents WHERE passport_id = $1)`
abbrev pub is_found : Option AgentRow → Bool
is_found none = false
is_found (some _) = true

unfoldable pub agent_exists : String → Sql Bool
agent_exists id st d = inr (is_found (find_agent id d.agents), d)
