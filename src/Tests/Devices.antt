-- ===== src/Tests/Devices.antt =====
-- A device that waits and one that is active: server/handlers_devices.go.
use computeid_go.Common.{◌≡◌, refl, ◌↔◌, inr, [], ◌∷◌, some, none}
use computeid_go.Common.Int.{pos}
use computeid_go.Server.Db.{DeviceRow, World, execute, read_clock}
use computeid_go.Server.Text.{answer, read_json, limited}
use computeid_go.Server.Platform.{Platform}
use computeid_go.Server.Devices.{
  JwtKit, DeviceAuthResponse, find_device, handle_device_authenticate, handle_device_approve,
  sign_jwt, select_device, authenticate_decoded, after_select, issue_token, approve_device,
  approve_rows,
}
use computeid_go.Server.Devices.Laws.{Authenticates, handle_device_authenticate_iff}
use computeid_go.Server.Devices.Approval.{Approval, handle_device_approve-Approval}
use computeid_go.Server.Devices.Register.{
  handle_device_register, register_device_decoded, after_begin, after_number, after_device,
  after_commit, boundary, next_number, add_device, find_device_id,
}
use computeid_go.Server.Devices.Register.Laws.{handle_device_register-taken}
use computeid_go.Server.Tables.{with_uuid}
use computeid_go.Server.Db.{draw_uuid}
use computeid_go.Server.Text.{error, trim_space, trim_left, trim_right, is_space}
use computeid_go.Common.{ℕ, String, length}
use computeid_go.Tests.Keys.{empty_world}
use computeid_go.Tests.Requests.{platform, body}

abbrev kit : JwtKit
kit = record {
  header = "h";
  marshal_claims = λ c. inr c.sub;
  base64url = λ s. s;
  hmac_sha256 = λ secret text. secret;
  unix = λ t. pos t;
}

abbrev gpu : DeviceRow
gpu = record {
  device_id = "d1";
  device_code = "GPU-001";
  name = "g";
  device_type = "gpu";
  ip_address = "";
  status = "active";
  issued_at = 1;
  approved_at = some 2;
}

abbrev waiting_gpu : DeviceRow
waiting_gpu = record gpu {
  device_id = "d2";
  device_code = "GPU-002";
  status = "pending";
  approved_at = none;
}

abbrev two_devices : World
two_devices = record empty_world {
  db = record (empty_world.db) { devices = gpu ∷ waiting_gpu ∷ [] };
}

abbrev reader : Platform
reader = record platform { device_auth = λ bytes. (record { device_code = "GPU-001" }, none) }

abbrev bearer : DeviceAuthResponse
bearer = record { access_token = "h.d1.s"; token_type = "Bearer"; expires_at = 3600000000100 }

given_token : (handle_device_authenticate reader kit "s" body two_devices).0 ≡ answer 200 bearer
unfolding handle_device_authenticate authenticate_decoded after_select issue_token select_device
    find_device sign_jwt execute read_clock read_json limited
given_token = refl

handle_device_authenticate_iff_example :
    ((handle_device_authenticate reader kit "s" body two_devices).0 ≡ answer 200 bearer)
    ↔ Authenticates kit "s" "GPU-001" two_devices bearer
unfolding read_json limited
handle_device_authenticate_iff_example =
    handle_device_authenticate_iff reader kit "s" body (record { device_code = "GPU-001" })
      two_devices bearer refl

handle_device_approve-Approval_example :
    Approval platform "d2" two_devices (handle_device_approve platform "d2" two_devices)
handle_device_approve-Approval_example = handle_device_approve-Approval platform "d2" two_devices

-- The device that waits is approved, and the other stays.
approves_one :
    (handle_device_approve platform "d2" two_devices).1.db.devices
    ≡ gpu ∷ record waiting_gpu { status = "active"; approved_at = some 0 } ∷ []
unfolding handle_device_approve with_uuid execute approve_device approve_rows
approves_one = refl

-- Two spellings of a type count apart, and `to_upper` takes them to one.
abbrev shouting : Platform
shouting = record reader {
  to_upper = λ s. "GPU";
  device_register = λ bytes. (record { name = "h"; device_type = "Gpu"; ip_address = "" }, none);
}

abbrev pad_three : ℕ → String
pad_three n = "001"

handle_device_register-taken_example :
    ((e : String) × ((handle_device_register shouting pad_three body two_devices).0 ≡ error 500 e))
    × ((handle_device_register shouting pad_three body two_devices).1.db ≡ two_devices.db)
unfolding read_json limited find_device trim_space trim_left trim_right is_space
handle_device_register-taken_example =
    handle_device_register-taken shouting pad_three body
      (record { name = "h"; device_type = "Gpu"; ip_address = "" }) gpu two_devices refl refl refl

-- The other branch: in empty tables the registration succeeds.
registers : length (handle_device_register shouting pad_three body empty_world).1.db.devices ≡ 1
unfolding handle_device_register register_device_decoded after_begin after_number after_device
    after_commit boundary next_number add_device find_device_id find_device with_uuid execute
    read_clock draw_uuid read_json limited trim_space trim_left trim_right is_space
    computeid_go.Common.Dict.lookup
registers = refl
