-- ===== src/Devices/Status.antt =====
-- The status that the panel shows for a device and the one that its filter asks for.
use adms.Prelude.{ℕ, ◌≡◌, ◌↔◌, Option, none, some, true, arith}
use adms.Devices.{
  ComputedDeviceStatus, unknown, online, offline, compute_device_status, device_status_condition,
}

-- A filter by a device's status lets through exactly the devices that are shown with that status.
pub device_status_condition-compute_device_status :
    (threshold now : ℕ) (s : ComputedDeviceStatus) (seen : Option ℕ)
    → (device_status_condition threshold (some s) seen now ≡ true)
      ↔ (compute_device_status threshold seen now ≡ s)
unfolding compute_device_status device_status_condition
device_status_condition-compute_device_status threshold now unknown none = ground arith
device_status_condition-compute_device_status threshold now online none = ground arith
device_status_condition-compute_device_status threshold now offline none = ground arith
device_status_condition-compute_device_status threshold now unknown (some t) = ground arith
device_status_condition-compute_device_status threshold now online (some t) = ground arith
device_status_condition-compute_device_status threshold now offline (some t) = ground arith
