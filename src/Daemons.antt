-- ===== src/Daemons.antt =====
-- The background processes of worker/app: heartbeats, the lease reaper, the promoter of
-- scheduled jobs and the cron dispatcher.
pub mod Heartbeat
pub mod Reaper
pub mod Promoter
pub mod Cron
pub mod Loop
