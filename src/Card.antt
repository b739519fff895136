-- ===== src/Card.antt =====
-- src/mattermost/task-progress-card.ts: the task card of one inbound turn. Lines has the normal forms
-- of its texts, Native the progress markup, Render the card as text; State, Writes, Sessions and
-- Calls the card's state, its serialised writes, its subtasks and its operations; Run the histories.
-- Visible has the subtasks that the host lists. The other children hold proofs.
pub mod Lines
pub mod Native
pub mod Render
pub mod State
pub mod Sessions
pub mod Visible
pub mod Writes
pub mod Calls
pub mod Run
pub mod Frame
pub mod Creation
pub mod Board
pub mod Soundness
pub mod Answers
pub mod Revisions
pub mod Work
pub mod Draining
pub mod Promises
pub mod Settling
pub mod Endings
pub mod Ending
pub mod Links
mod Tests
