-- ===== src/Server/Devices/Approval.antt =====
-- What the approval of a device answers and changes (server/handlers_devices.go).
use computeid_go.Common.{
  ℕ, suc, ◌≡◌, refl, ◌⊎◌, inl, inr, String, true, false, none, some, List, [], ◌∷◌, ap, arith,
  eq_iff, Option-cases,
}
use computeid_go.Sys.{Time}
use computeid_go.Server.Db.{
  DeviceRow, World, Statement, statement_of, Up, execute-fault, execute-refused, execute-done,
}
use computeid_go.Server.Text.{Response, answer, error}
use computeid_go.Server.Platform.{Platform}
use computeid_go.Server.Tables.{with_uuid}
use computeid_go.Server.Devices.{
  is_waiting, approve_rows, count_waiting, approve_device, Approved, after_approve,
  handle_device_approve,
}

-- A row with this identifier waits for its approval.
abbrev pub IsPending : String → DeviceRow → Type 0
IsPending id d = (d.device_id ≡ id) × (d.status ≡ "pending")

pub Waiting : String → List DeviceRow → Type 0
Waiting id [] = ⊥
Waiting id (d ∷ ds) = IsPending id d ⊎ Waiting id ds

-- The rows before and after an approval at time `t`: one that waits under the identifier becomes
-- active, with the time of the approval, and every other stays as it was.
pub Activated : String → Time → List DeviceRow → List DeviceRow → Type 0
Activated id t [] [] = Unit
Activated id t [] (e ∷ es) = ⊥
Activated id t (d ∷ ds) [] = ⊥
Activated id t (d ∷ ds) (e ∷ es) =
    ((IsPending id d × (e ≡ record d { status = "active"; approved_at = some t }))
      ⊎ (¬ IsPending id d × (e ≡ d)))
    × Activated id t ds es

-- How an approval ends: with the rows activated, or refused with the tables as they were, since the
-- identifier is no UUID, the statement fails, or no row waits under the identifier.
pub data Approval (pl : Platform) (text : String) (w : World) (r : Response Approved × World)
    : Type 0 where
  activated :
      (id : String)
      → pl.uuid_of text ≡ some id
      → Up w
      → Waiting id w.db.devices
      → r.0 ≡ answer 200 Approved.approved_active
      → Activated id (w.backend.clock w.statements) w.db.devices r.1.db.devices
      → r.1.db ≡ record (w.db) { devices = r.1.db.devices }
      → Approval pl text w r
  no_uuid :
      pl.uuid_of text ≡ none
      → (e : String) → r.0 ≡ error 500 e
      → r.1.db ≡ w.db
      → Approval pl text w r
  lost :
      (e : String)
      → w.backend.fault w.statements ≡ some e
      → r.0 ≡ error 500 e
      → r.1.db ≡ w.db
      → Approval pl text w r
  not_waiting :
      (id : String)
      → pl.uuid_of text ≡ some id
      → Up w
      → ¬ Waiting id w.db.devices
      → r.0 ≡ error 404 "device not found or not pending"
      → r.1.db ≡ w.db
      → Approval pl text w r

is_waiting-cases :
    (id : String) (d : DeviceRow)
    → ((is_waiting id d ≡ true) × IsPending id d) ⊎ ((is_waiting id d ≡ false) × ¬ IsPending id d)
is_waiting-cases id d = ground (arith, eq_iff d.device_id id, eq_iff d.status "pending")

approve_rows-Activated :
    (id : String) (st : Statement) (ds : List DeviceRow)
    → Activated id st.time ds (approve_rows id st ds)
unfolding approve_rows Activated
approve_rows-Activated id st [] = tt
approve_rows-Activated id st (d ∷ ds) = elim (is_waiting-cases id d) [
  | inl (found, pending) ↦ rw found (inl (pending, refl), approve_rows-Activated id st ds)
  | inr (missed, other) ↦ rw missed (inr (other, refl), approve_rows-Activated id st ds)
]

-- Nothing waits, nothing is counted and nothing changes; or something waits and is counted.
Waiting-cases :
    (id : String) (st : Statement) (ds : List DeviceRow)
    → ((count_waiting id ds ≡ 0) × (¬ Waiting id ds) × (approve_rows id st ds ≡ ds))
      ⊎ ((n : ℕ) × (count_waiting id ds ≡ suc n) × Waiting id ds)
unfolding count_waiting approve_rows Waiting
Waiting-cases id st [] = inl (refl, λ h. h, refl)
Waiting-cases id st (d ∷ ds) = elim (is_waiting-cases id d) [
  | inl (found, pending) ↦ inr (count_waiting id ds, rw found (omega arith), inl pending)
  | inr (missed, other) ↦ elim (Waiting-cases id st ds) [
    | inl (zero_rows, none_waits, same) ↦ rw missed (
        inl (
          zero_rows,
          λ h. elim h [ inl p ↦ other p | inr rest ↦ none_waits rest ],
          ap (λ es. d ∷ es) same,
        ))
    | inr (n, counted_rows, waits) ↦ rw missed (inr (n, counted_rows, inr waits))
  ]
]

-- Whatever the text, the tables and the backend, an approval ends in one of the four ways: if a row
-- waits under the identifier and the statement does not fail, the answer is 200 and exactly such
-- rows become active; else the answer is 500 or 404, and the tables stay as they were.
pub handle_device_approve-Approval :
    (pl : Platform) (text : String) (w : World)
    → Approval pl text w (handle_device_approve pl text w)
unfolding handle_device_approve after_approve with_uuid approve_device
handle_device_approve-Approval pl text w =
    let q = with_uuid pl text approve_device in
    elim (Option-cases (w.backend.fault w.statements)) [
      | inr (e, f) ↦ rw (execute-fault q w e f) (lost e f refl refl)
      | inl up ↦ elim (Option-cases (pl.uuid_of text)) [
        | inl unread ↦
            let run =
              execute-refused q w "invalid input syntax for type uuid" up
                (rw (unread, with_uuid) refl) in
            rw run (no_uuid unread _ refl refl)
        | inr (id, read) ↦
            let st = statement_of w in
            let rows = approve_rows id st w.db.devices in
            let run =
              execute-done q w (count_waiting id w.db.devices) (record (w.db) { devices = rows }) up
                (rw (read, with_uuid) refl) in
            elim (Waiting-cases id st w.db.devices) [
              | inl (zero_rows, none_waits, same) ↦
                  rw (run, zero_rows)
                    (not_waiting id read up none_waits refl
                      (ap (λ ds. record (w.db) { devices = ds }) same))
              | inr (n, counted_rows, waits) ↦
                  rw (run, counted_rows)
                    (activated id read up waits refl (approve_rows-Activated id st w.db.devices)
                      refl)
            ]
      ]
    ]
