-- ===== src/Server/Devices/Register.antt =====
-- server/handlers_devices.go: how a device is registered, in a transaction.
--
-- A transaction that does not reach its commit, or whose commit fails, leaves the tables as they
-- were before it. `%03d` is a parameter.
pub mod Laws
use Prim.Native.String
use computeid_go.Common.{
  ℕ, ◌+◌, String, Bool, true, false, ◌||◌, Option, none, some, List, [], ◌∷◌, ◌⊎◌, inl, inr, ◌==◌,
  if◌then◌else◌, ltb,
}
use computeid_go.Common.Dict.{lookup, insert}
use computeid_go.Sys.{Time}
use computeid_go.Server.Db.{
  DeviceRow, Db, World, M, ◌>>=◌, ◌>>◌, pure, Sql, execute, read_clock, draw_uuid,
}
use computeid_go.Server.Text.{RequestBody, read_json, Response, answer, error, trim_space}
use computeid_go.Server.Platform.{Platform, DeviceRegisterRequest}
use computeid_go.Server.Tables.{with_uuid}
use computeid_go.Server.Agents.{truncate_ms}
use computeid_go.Server.Devices.{find_device}

infixr 65 ◌++◌
abbrev ◌++◌ : String → String → String
s ++ t = String.◌++◌ s t

pub record DeviceResponse : Type 0 where
  pub device_id : String
  pub device_code : String
  pub name : String
  pub device_type : String
  pub ip_address : String
  pub status : String
  pub issued_at : Time

-- `INSERT INTO device_counters ... ON CONFLICT (device_type) DO UPDATE ... RETURNING last_n`
abbrev pub next_of : Option ℕ → ℕ
next_of none = 1
next_of (some n) = n + 1

-- The column `last_n` is an INTEGER, of 32 bits with a sign.
unfoldable pub next_number : String → Sql ℕ
next_number device_type st d =
    let n = next_of (lookup device_type d.counters) in
    if ltb n 2147483648
    then inr (n, record d { counters = insert device_type n d.counters })
    else inl "integer out of range"

-- `fmt.Sprintf("%s-%03d", strings.ToUpper(req.DeviceType), next)`
abbrev pub code_of : Platform → (ℕ → String) → String → ℕ → String
code_of pl pad device_type n = pl.to_upper device_type ++ "-" ++ pad n

abbrev pub waiting_row : DeviceRegisterRequest → String → Time → String → DeviceRow
waiting_row req code issued_at id = record {
  device_id = id;
  device_code = code;
  name = req.name;
  device_type = req.device_type;
  ip_address = req.ip_address;
  status = "pending";
  issued_at = issued_at;
  approved_at = none;
}

unfoldable pub find_device_id : String → List DeviceRow → Bool
find_device_id id [] = false
find_device_id id (d ∷ ds) = if d.device_id == id then true else find_device_id id ds

-- `INSERT INTO devices ...`: both the identifier and the code are unique.
unfoldable pub add_device : DeviceRow → Sql (Unit {0})
add_device row st d = elim (find_device row.device_code d.devices) [
  | some _ ↦ inl "duplicate key value violates unique constraint"
  | none ↦
      if find_device_id row.device_id d.devices
      then inl "duplicate key value violates unique constraint"
      else inr (tt, record d { devices = row ∷ d.devices })
]

-- `Begin` and `Commit` are statements; `Rollback` puts back the tables.
unfoldable pub boundary : Sql (Unit {0})
boundary st d = inr (tt, d)

abbrev pub roll_back : {A : Type 0} → Db → A → M A
roll_back saved a w = (a, record w { db = saved })

abbrev pub device_response : DeviceRow → String → DeviceResponse
device_response row id = record {
  device_id = id;
  device_code = row.device_code;
  name = row.name;
  device_type = row.device_type;
  ip_address = row.ip_address;
  status = "pending";
  issued_at = row.issued_at;
}

unfoldable pub after_commit :
    Db → DeviceRow → String → String ⊎ Unit {0} → M (Response DeviceResponse)
after_commit saved row id (inl e) = roll_back saved (error 500 e)
after_commit saved row id (inr _) = pure (answer 201 (device_response row id))

unfoldable pub after_device :
    Db → DeviceRow → String → String ⊎ Unit {0} → M (Response DeviceResponse)
after_device saved row id (inl e) = roll_back saved (error 500 e)
after_device saved row id (inr _) = do
  committed ← execute boundary
  after_commit saved row id committed

unfoldable pub after_number :
    Platform → (ℕ → String) → Db → DeviceRegisterRequest → String ⊎ ℕ → M (Response DeviceResponse)
after_number pl pad saved req (inl e) = roll_back saved (error 500 e)
after_number pl pad saved req (inr n) = do
  id ← draw_uuid
  t ← read_clock
  let row = waiting_row req (code_of pl pad req.device_type n) (truncate_ms t) id in
      do
        stored ← execute (with_uuid pl id (λ u. add_device (record row { device_id = u })))
        after_device saved row id stored

unfoldable pub after_begin :
    Platform
    → (ℕ → String)
    → DeviceRegisterRequest
    → String ⊎ Unit {0}
    → M (Response DeviceResponse)
after_begin pl pad req (inl e) w = (error 500 e, w)
after_begin pl pad req (inr _) w =
    (execute (next_number req.device_type) >>= after_number pl pad w.db req) w

unfoldable pub register_device_decoded :
    Platform → (ℕ → String) → DeviceRegisterRequest × Option String → M (Response DeviceResponse)
register_device_decoded pl pad (req, some e) = pure (error 400 ("invalid JSON: " ++ e))
register_device_decoded pl pad (req, none) =
    if trim_space req.name == "" || trim_space req.device_type == ""
    then pure (error 400 "name and type are required")
    else (do begun ← execute boundary; after_begin pl pad req begun)

abbrev pub no_device : DeviceRegisterRequest
no_device = record { name = ""; device_type = ""; ip_address = "" }

-- `handleDeviceRegister`
unfoldable pub handle_device_register :
    Platform → (ℕ → String) → RequestBody → M (Response DeviceResponse)
handle_device_register pl pad body =
    register_device_decoded pl pad (read_json no_device pl.device_register body)
