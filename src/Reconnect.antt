-- ===== src/Reconnect.antt =====
-- src/mattermost/reconnect.ts and src/mattermost/session-admission-retry.ts: the reconnection loop
-- with its backoff and jitter, and the single retry of a session admission.
pub mod Loop
pub mod Delays
pub mod Admission
mod Tests
