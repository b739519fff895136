-- ===== src/Stop.antt =====
-- src/mattermost/preview-stop.ts: the Stop button of a preview. Registry has the turns of a monitor and
-- their entries, Cleanup the posts of a turn that ends, Click the handler of a click, Run the
-- histories. Capability, Retirement, Expiry and Buttons hold proofs.
pub mod Registry
pub mod Cleanup
pub mod Click
pub mod Run
pub mod Capability
pub mod Retirement
pub mod Expiry
pub mod Buttons
mod Tests
