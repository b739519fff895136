-- ===== src/Callback.antt =====
-- src/mattermost/slash-http.ts: the checks of a slash command callback before the command runs.
-- Limits has the limit of the lookups, Caches the remembered failures and the lookups under way,
-- Lookup and Handler the validation of the token and the handler. Rate, Allowance, Agreement,
-- Tokens, Memory and Refusing hold proofs.
pub mod Limits
pub mod Caches
pub mod Lookup
pub mod Handler
pub mod Agreement
pub mod Tokens
pub mod Memory
pub mod Refusing
pub mod Rate
pub mod Allowance
mod Tests
