-- ===== src/Server/Actions/Laws.antt =====
-- When an action is logged, and what is written (server/handlers_agents.go).
use computeid_go.Common.{ℕ, ◌≡◌, ◌≢◌, String, true, some}
use computeid_go.Common.Json.{Json}
use computeid_go.Server.Db.{AgentRow, ActionRow, Db, World, Sql, statement_of, Up}
use computeid_go.Server.Text.{trim_space}
use computeid_go.Server.Platform.{Platform, LogActionRequest}
use computeid_go.Server.Tables.{
  find_agent, with_uuid, valid_outcome, action_row, add_action_if_known,
}
use computeid_go.Server.Actions.{or_success}

-- The request names an action and a valid outcome or none, the passport is there, and the database
-- takes the statement; `entry` is what it writes.
pub record Logs (pl : Platform) (text : String) (req : LogActionRequest) (w : World)
    (entry : ActionRow) : Type 0 where
  pub id : String
  pub json : Json
  pub row : AgentRow
  pub named : trim_space req.action ≢ ""
  pub valid : valid_outcome (or_success req.outcome) ≡ true
  pub up : Up w
  pub read : pl.uuid_of text ≡ some id
  pub taken : pl.jsonb_of (pl.marshal_details req.details) ≡ some json
  pub there : find_agent id w.db.agents ≡ some row
  pub says : entry ≡ action_row id req.action json (or_success req.outcome) (statement_of w)

module _ (pl : Platform) (text : String) (req : LogActionRequest) (w : World) where
  -- The statement of the handler.
  abbrev insert_one : Sql ℕ
  insert_one =
      with_uuid pl text (
        add_action_if_known pl req.action (pl.marshal_details req.details) (or_success req.outcome))
