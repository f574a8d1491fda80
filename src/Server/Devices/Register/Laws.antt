-- ===== src/Server/Devices/Register/Laws.antt =====
-- A registration that meets a code that is taken (server/handlers_devices.go).
use computeid_go.Common.{
  ℕ, ◌≡◌, refl, String, false, ◌||◌, none, some, inl, inr, ◌==◌, Option-cases, Bool-cases, ltb,
}
use computeid_go.Common.Dict.{lookup, insert}
use computeid_go.Server.Db.{
  DeviceRow, Db, World, execute, read_clock, draw_uuid, counted, execute-fault, execute-refused,
  execute-done,
}
use computeid_go.Server.Text.{RequestBody, read_json, Response, error, trim_space}
use computeid_go.Server.Platform.{Platform, DeviceRegisterRequest}
use computeid_go.Server.Tables.{with_uuid}
use computeid_go.Server.Agents.{truncate_ms}
use computeid_go.Server.Devices.{find_device}
use computeid_go.Server.Devices.Register.{
  DeviceResponse, next_of, next_number, code_of, waiting_row, add_device, boundary, after_device,
  after_number, after_begin, register_device_decoded, no_device, handle_device_register,
}

-- The `INSERT` of a row whose code is taken fails, whatever the backend does.
add_device-taken :
    (pl : Platform) (id : String) (row d : DeviceRow) (w : World)
    → find_device row.device_code w.db.devices ≡ some d
    → (e : String) × ((execute
          (with_uuid pl id (λ u. add_device (record row { device_id = u })))
          w).0
        ≡ inl e)
unfolding with_uuid add_device
add_device-taken pl id row d w taken =
    let q = with_uuid pl id (λ u. add_device (record row { device_id = u })) in
    elim (Option-cases (w.backend.fault w.statements)) [
      | inr (e, f) ↦ (e, rw (execute-fault q w e f))
      | inl up ↦ elim (Option-cases (pl.uuid_of id)) [
        | inl unread ↦ (
          "invalid input syntax for type uuid",
          rw (
              execute-refused q w "invalid input syntax for type uuid" up
                (rw (unread, with_uuid) refl)),
        )
        | inr (u, read) ↦ (
          "duplicate key value violates unique constraint",
          rw (
              execute-refused q w "duplicate key value violates unique constraint" up
                (rw (read, with_uuid, add_device, taken) refl)),
        )
      ]
    ]

module _ (pl : Platform) (pad : ℕ → String) (req : DeviceRegisterRequest) (d : DeviceRow) where
  -- The request fails and leaves these tables.
  abbrev Fails : Response DeviceResponse × World → Db → Type 0
  Fails r saved = ((e : String) × (r.0 ≡ error 500 e)) × (r.1.db ≡ saved)

  after_number-taken :
      (saved : Db) (n : ℕ) (w : World)
      → find_device (code_of pl pad req.device_type n) w.db.devices ≡ some d
      → Fails (after_number pl pad saved req (inr n) w) saved
  unfolding after_number after_device draw_uuid read_clock
  after_number-taken saved n w taken =
      let id = (draw_uuid w).0 in
      let w₂ = (read_clock (draw_uuid w).1).1 in
      let row =
        waiting_row req (code_of pl pad req.device_type n)
          (truncate_ms (read_clock (draw_uuid w).1).0) id in
      let (e, failed) = add_device-taken pl id row d w₂ taken in
      rw (failed, after_device) ((e, refl), refl)

  begun-taken :
      (w : World)
      → find_device
          (code_of pl pad req.device_type (next_of (lookup req.device_type w.db.counters)))
          w.db.devices
        ≡ some d
      → Fails (after_begin pl pad req (inr tt) w) w.db
  unfolding after_begin next_number after_number
  begun-taken w taken =
      let n = next_of (lookup req.device_type w.db.counters) in
      let later : Db = record (w.db) { counters = insert req.device_type n w.db.counters } in
      elim (Option-cases (w.backend.fault w.statements)) [
        | inr (e, f) ↦ rw (execute-fault (next_number req.device_type) w e f) ((e, refl), refl)
        | inl up ↦ elim (Bool-cases (ltb n 2147483648)) [
          | inl fits ↦
              rw (execute-done (next_number req.device_type) w n later up (rw fits refl))
                (after_number-taken w.db n (record (counted w) { db = later }) taken)
          | inr over ↦
              let run =
                execute-refused (next_number req.device_type) w "integer out of range" up
                  (rw over refl) in
              rw run ((_, refl), refl)
        ]
      ]

  decoded-taken :
      (w : World)
      → (trim_space req.name == "" || trim_space req.device_type == "") ≡ false
      → find_device
          (code_of pl pad req.device_type (next_of (lookup req.device_type w.db.counters)))
          w.db.devices
        ≡ some d
      → Fails (register_device_decoded pl pad (req, none) w) w.db
  unfolding register_device_decoded boundary after_begin
  decoded-taken w named taken = elim (Option-cases (w.backend.fault w.statements)) [
    | inr (e, f) ↦
        rw (named, register_device_decoded, execute-fault boundary w e f) ((e, refl), refl)
    | inl up ↦
        rw (named, register_device_decoded, execute-done boundary w tt w.db up refl)
          (begun-taken (counted w) taken)
  ]

-- If a request is read and has a name and a type, and the code that comes next for its type is a
-- registered device's, the registration fails with status 500, whichever statements fail, and
-- leaves the tables as they were.
pub handle_device_register-taken :
    (pl : Platform) (pad : ℕ → String) (body : RequestBody) (req : DeviceRegisterRequest)
    (d : DeviceRow) (w : World)
    → read_json no_device pl.device_register body ≡ (req, none)
    → (trim_space req.name == "" || trim_space req.device_type == "") ≡ false
    → find_device
        (code_of pl pad req.device_type (next_of (lookup req.device_type w.db.counters)))
        w.db.devices
      ≡ some d
    → ((e : String) × ((handle_device_register pl pad body w).0 ≡ error 500 e))
      × ((handle_device_register pl pad body w).1.db ≡ w.db)
unfolding handle_device_register
handle_device_register-taken pl pad body req d w read named taken =
    rw (read, handle_device_register) (decoded-taken pl pad req d w named taken)
