-- ===== src/Schedules.antt =====
-- scheduler/schedules.py: cron expressions of five fields, and the store of recurring jobs.
pub mod Cron
pub mod Store
