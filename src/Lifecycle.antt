-- ===== src/Lifecycle.antt =====
-- What happens to punches between the device that sends them and their deletion: src/adms,
-- src/worker.ts, src/retentionSweep.ts and src/admin.
pub mod Keys
pub mod History
pub mod Panel
pub mod Sound
pub mod Requests
pub mod Push
