-- ===== src/Transition.antt =====
-- src/mattermost/channel-model-transition.ts: the transitions of the channel models.
-- Lock has the operations, Exclusion the proofs.
pub mod Lock
pub mod Exclusion
mod Tests
