-- ===== src/Commands/Queue.antt =====
-- What a poll hands out.
use adms.Prelude.{
  ◌≤◌, ◌≡◌, ◌≢◌, ◌⊎◌, inl, inr, ◌==◌, String, List, Memᴰ, arith, All, All-imp, All-Mem, All-filter,
  length, true, false, Bool-cases, eq_iff, string_eq, IsSorted, All-first, first-Mem,
  first-IsSorted, length-first, first_complete, refl, All-both,
}
use adms.Store.{DeviceCommand, DeviceCommandStatus}
use adms.Commands.{next_commands, waits_for, command_time, is_pending}

is_pending-pending :
    (s : DeviceCommandStatus) → is_pending s ≡ true → s ≡ DeviceCommandStatus.pending
is_pending-pending DeviceCommandStatus.pending h = refl
is_pending-pending DeviceCommandStatus.sent h = cc
is_pending-pending DeviceCommandStatus.acked h = cc
is_pending-pending DeviceCommandStatus.failed h = cc

not_pending : (s : DeviceCommandStatus) → is_pending s ≡ false → s ≢ DeviceCommandStatus.pending
not_pending DeviceCommandStatus.pending h e = cc
not_pending DeviceCommandStatus.sent h e = cc
not_pending DeviceCommandStatus.acked h e = cc
not_pending DeviceCommandStatus.failed h e = cc

-- A command of the table that is for this device and not yet handed out.
abbrev pub Waits : String → List DeviceCommand → DeviceCommand → Type 0
Waits device_id cs c =
    Memᴰ c cs × (c.device_id ≡ device_id) × (c.status ≡ DeviceCommandStatus.pending)

-- What becomes of a command in a poll: it is of another device, or handed out before, or handed out
-- now, or it stays behind ten commands that are all as old as it or older.
abbrev pub Served : String → List DeviceCommand → DeviceCommand → Type 0
Served device_id handed c =
    (c.device_id ≢ device_id)
    ⊎ ((c.status ≢ DeviceCommandStatus.pending)
        ⊎ (Memᴰ c handed ⊎ ((length handed ≡ 10) × All (λ d. d.created_at ≤ c.created_at) handed)))

waits_for-fields :
    (device_id : String) (c : DeviceCommand)
    → waits_for device_id c ≡ true
    → (c.device_id ≡ device_id) × (c.status ≡ DeviceCommandStatus.pending)
waits_for-fields device_id c h =
    let own : (c.device_id == device_id) ≡ true = ground arith in
    let open_ : is_pending c.status ≡ true = ground arith in
    ((eq_iff c.device_id device_id).0 own, is_pending-pending c.status open_)

next_commands-Served :
    (device_id : String) (cs : List DeviceCommand) (c : DeviceCommand)
    → Memᴰ c cs
    → Served device_id (next_commands device_id cs) c
unfolding next_commands
next_commands-Served device_id cs c m = elim (Bool-cases (c.device_id == device_id)) [
  | inr other ↦ inl (λ e. let own = (eq_iff c.device_id device_id).1 e in cc)
  | inl own ↦ elim (Bool-cases (is_pending c.status)) [
    | inr done ↦ inr (inl (not_pending c.status done))
    | inl waits ↦ inr (
        inr (
          first_complete command_time (waits_for device_id) 10 cs c (ground (arith, own, waits)) m))
  ]
]

-- A poll hands out at most ten commands, in the order of their creation, and each is a command of
-- the table that is pending and for the polling device. No other pending command of the device is
-- left behind unless there are ten, none of them created after it.
pub next_commands_lem :
    (device_id : String) (cs : List DeviceCommand)
    → (length (next_commands device_id cs) ≤ 10)
      × All (Waits device_id cs) (next_commands device_id cs)
      × IsSorted command_time (next_commands device_id cs)
      × All (Served device_id (next_commands device_id cs)) cs
unfolding next_commands
next_commands_lem device_id cs =
    let test = waits_for device_id in
    let fields =
      All-imp _ _ _ (waits_for-fields device_id)
        (All-first command_time test 10 cs _ (All-filter test cs)) in
    (
      length-first command_time test 10 cs,
      All-imp
          (λ c. Memᴰ c cs × ((c.device_id ≡ device_id) × (c.status ≡ DeviceCommandStatus.pending)))
          (Waits device_id cs) (next_commands device_id cs) (λ c h. (h.0, h.1.0, h.1.1))
          (All-both _ _ _ (first-Mem command_time test 10 cs) fields),
      first-IsSorted command_time test 10 cs,
      All-imp _ _ cs (next_commands-Served device_id cs) (All-Mem cs),
    )
