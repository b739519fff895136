-- ===== src/Stream.antt =====
-- companion/webapp/src/stream-state.ts: the snapshots of streamed replies in the web application.
-- The first children are the values, the snapshot of a post and the event store; the others are
-- what the store keeps and what it returns.
pub mod Value
pub mod Snapshot
pub mod Store
pub mod Listeners
pub mod Publishing
pub mod Capacity
pub mod Histories
mod Tests
