-- ===== src/Ingress.antt =====
-- src/mattermost/ingress-queue.ts: the durable ingress queue over one SQLite table. The first six
-- children are its definitions; the others are what the operations keep and what they return.
pub mod Row
pub mod Setup
pub mod Operations
pub mod Claiming
pub mod Maintenance
pub mod History
pub mod Keys
pub mod Consistency
pub mod Invariant
pub mod Custody
pub mod Rights
pub mod Taking
pub mod Settling
pub mod Selection
pub mod Recovery
pub mod Retention
pub mod Delivery
pub mod Phases
pub mod Moves
pub mod Refinement
mod Samples
mod Tests
