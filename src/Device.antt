-- ===== src/Device.antt =====
-- device.go: the passport of a device, as the server answers it.
use computeid_go.Common.{String, Bool, ◌==◌}
use computeid_go.Sys.{Time}

abbrev pub DeviceStatus : Type 0
DeviceStatus = String

abbrev pub device_status_pending : DeviceStatus
device_status_pending = "pending"

abbrev pub device_status_active : DeviceStatus
device_status_active = "active"

abbrev pub device_status_revoked : DeviceStatus
device_status_revoked = "revoked"

pub record DevicePassport : Type 0 where
  pub device_id : String
  pub device_code : String
  pub name : String
  pub device_type : String
  pub ip_address : String
  pub status : DeviceStatus
  pub issued_at : Time

-- `(*DevicePassport).IsValid`
unfoldable pub is_valid : DevicePassport → Bool
is_valid d = d.status == device_status_active

-- `(*DevicePassport).IsPending`
unfoldable pub is_pending : DevicePassport → Bool
is_pending d = d.status == device_status_pending
