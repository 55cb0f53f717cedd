-- ===== src/Store/Cascade.antt =====
-- prisma/schema.prisma: what is deleted with a device, by the foreign keys.
use adms.Prelude.{String, Bool, not, map, filter, includes, string_eq}
use adms.Store.{Db, Device, PunchRecord}
use adms.Retention.{has_punch}

abbrev pub device_id : Device → String
device_id d = d.id

-- The database without the devices that `gone` tells, and without what hangs on them.
abbrev pub drop_devices : (Device → Bool) → Db → Db
drop_devices gone db =
    let dropped = map device_id (filter gone db.devices) in
    let of_dropped : String → Bool = λ id. includes dropped id in
    let gone_punches = filter (λ (p : PunchRecord). of_dropped p.device_id) db.punch_records in
    record db {
      devices = filter (λ d. not (gone d)) db.devices;
      punch_records = filter (λ p. not (of_dropped p.device_id)) db.punch_records;
      webhook_deliveries = filter (λ d. not (has_punch gone_punches d)) db.webhook_deliveries;
      device_commands = filter (λ c. not (of_dropped c.device_id)) db.device_commands;
      device_raw_logs = filter (λ l. not (of_dropped l.device_id)) db.device_raw_logs;
    }
