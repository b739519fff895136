-- ===== src/Monitor.antt =====
-- src/mattermost/monitor-ingress.ts: how the monitor keeps the claims of the queue alive.
pub mod Heartbeat
pub mod Leases
mod Tests
