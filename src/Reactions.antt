-- ===== src/Reactions.antt =====
-- src/mattermost/monitor-turn-reactions.ts: the store of reaction lifecycles that posts share.
pub mod Lifecycle
pub mod Custody
pub mod Handover
mod Tests
