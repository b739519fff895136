-- ===== src/Slash.antt =====
-- src/mattermost/slash-commands.ts and src/mattermost/slash-state.ts: the native slash commands.
-- Commands has the payload of a callback, the text of a command and the settings; Requests and Registration the
-- reconciliation with the commands of a team; Routing the accounts and the route of the callbacks.
-- Sending, Ownership, Cleaning, Accounts and Handlers hold proofs.
pub mod Commands
pub mod Requests
pub mod Registration
pub mod Sending
pub mod Ownership
pub mod Cleaning
pub mod Routing
pub mod Accounts
pub mod Handlers
mod Tests
