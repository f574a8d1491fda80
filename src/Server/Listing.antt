-- ===== src/Server/Listing.antt =====
-- The handlers that list: agents and the audit log of server/handlers_agents.go, devices of
-- server/handlers_devices.go.
--
-- `ORDER BY` and `strconv.Atoi` are parameters: PostgreSQL orders the rows as it likes where two
-- times are equal. A row that cannot be scanned counts as a failure of its statement.
pub mod Laws
pub mod Pages
use Prim.Native.String
use computeid_go.Common.{
  ℕ, String, Bool, true, false, ◌&&◌, Option, none, some, List, [], ◌∷◌, ◌⊎◌, inl, inr, ◌==◌, map,
  take, leb, if◌then◌else◌,
}
use computeid_go.Common.Int.{ℤ, is_nonpositive, magnitude}
use computeid_go.Common.Json.{Json, obj, Fields, end, field, Details}
use computeid_go.Sys.{Time}
use computeid_go.Server.Db.{AgentRow, ActionRow, DeviceRow, Db, M, ◌>>=◌, pure, Sql, execute}
use computeid_go.Server.Text.{Response, answer, error}
use computeid_go.Server.Platform.{Platform}
use computeid_go.Server.Tables.{with_uuid}
use computeid_go.Server.Agents.{AgentPassportResponse}
use computeid_go.Server.Devices.Register.{DeviceResponse}

-- `ORDER BY ... DESC` on a time, and `strconv.Atoi`.
pub record Lister : Type 1 where
  pub newest_first : {A : Type 0} → (A → Time) → List A → List A
  pub atoi : String → String ⊎ ℤ

-- `LIMIT`, where there is one.
unfoldable pub limit_rows {ℓ} : {A : Type ℓ} → Option ℕ → List A → List A
limit_rows none xs = xs
limit_rows (some n) xs = take n xs

unfoldable pub keep {ℓ} : {A : Type ℓ} → (A → Bool) → List A → List A
keep p [] = []
keep p (x ∷ xs) = if p x then x ∷ keep p xs else keep p xs

-- One `SELECT ... WHERE ... ORDER BY ... DESC LIMIT ...`
unfoldable pub select_page :
    {A : Type 0} → Lister → (Db → List A) → (A → Bool) → (A → Time) → Option ℕ → Sql (List A)
select_page ls rows p key limit st d =
    inr (limit_rows limit (ls.newest_first key (keep p (rows d))), d)

-- The loop over the rows, and the answer.
unfoldable pub list_answer : {A B : Type 0} → (A → B) → String ⊎ List A → Response (List B)
list_answer respond (inl e) = error 500 e
list_answer respond (inr rows) = answer 200 (map respond rows)

unfoldable pub list_rows : {A B : Type 0} → Sql (List A) → (A → B) → M (Response (List B))
list_rows q respond = do rows ← execute q; pure (list_answer respond rows)

-- An empty filter stands for none.
abbrev pub has_status : String → String → Bool
has_status filter status = if filter == "" then true else status == filter

-- `COALESCE(description, '')`
abbrev pub or_empty : Option String → String
or_empty none = ""
or_empty (some s) = s

abbrev pub listed_agent : AgentRow → AgentPassportResponse
listed_agent r = record {
  passport_id = r.passport_id;
  name = r.name;
  description = or_empty (r.description);
  organization = r.organization;
  status = r.status;
  public_key = r.public_key_pem;
  signature = r.signature_b64;
  signature_algorithm = r.signature_algorithm;
  capabilities = r.capabilities;
  issued_at = r.issued_at;
}

-- `handleAgentList`: the filter is `r.URL.Query().Get("status")`.
unfoldable pub handle_agent_list : Lister → String → M (Response (List AgentPassportResponse))
handle_agent_list ls filter =
    list_rows
      (select_page ls (λ d. d.agents) (λ (r : AgentRow). has_status filter (r.status))
        (λ (r : AgentRow). r.issued_at) (some 200))
      listed_agent

abbrev pub listed_device : DeviceRow → DeviceResponse
listed_device d = record {
  device_id = d.device_id;
  device_code = d.device_code;
  name = d.name;
  device_type = d.device_type;
  ip_address = d.ip_address;
  status = d.status;
  issued_at = d.issued_at;
}

-- `handleDeviceList`: it has no limit.
unfoldable pub handle_device_list : Lister → String → M (Response (List DeviceResponse))
handle_device_list ls filter =
    list_rows
      (select_page ls (λ d. d.devices) (λ (r : DeviceRow). has_status filter (r.status))
        (λ (r : DeviceRow). r.issued_at) none)
      listed_device

pub record ActionItem : Type 0 where
  pub action_id : String
  pub action : String
  pub details : Details
  pub outcome : String
  pub timestamp : Time

-- `json.Unmarshal` of a `jsonb` value into a map: anything but an object leaves the nil map.
unfoldable pub fields_of : Fields → Details
fields_of end = []
fields_of (field name v rest) = (name, v) ∷ fields_of rest

unfoldable pub details_of : Json → Details
details_of (obj fs) = fields_of fs
details_of _ = []

abbrev pub listed_action : ActionRow → ActionItem
listed_action r = record {
  action_id = r.action_id;
  action = r.action;
  details = details_of (r.details);
  outcome = r.outcome;
  timestamp = r.occurred_at;
}

-- The limit of a request: 50, unless the query has a number from 1 to 500.
unfoldable pub limit_read : String ⊎ ℤ → ℕ
limit_read (inl e) = 50
limit_read (inr n) =
    if is_nonpositive n then 50 else if leb (magnitude n) 500 then magnitude n else 50

unfoldable pub limit_of : Lister → String → ℕ
limit_of ls v = if v == "" then 50 else limit_read (ls.atoi v)

unfoldable pub select_actions : Lister → ℕ → String → Sql (List ActionRow)
select_actions ls limit id =
    select_page ls (λ d. d.actions) (λ (r : ActionRow). r.passport_id == id)
      (λ (r : ActionRow). r.occurred_at) (some limit)

-- `handleAgentListActions`: `v` is `r.URL.Query().Get("limit")`.
unfoldable pub handle_agent_list_actions :
    Platform → Lister → String → String → M (Response (List ActionItem))
handle_agent_list_actions pl ls v id =
    list_rows (with_uuid pl id (select_actions ls (limit_of ls v))) listed_action
