-- ===== src/Form.antt =====
-- src/mattermost/form-schema.ts: the selections that a Mattermost dialog submits.
pub mod Selection
pub mod Matrix
pub mod Allowed
mod Tests
