-- ===== src/Update.antt =====
-- internal/agent/update/update.go: the self-update of the agent. The children hold the files that
-- it touches, the operations, and what an update leaves behind.
pub mod Files
pub mod Install
pub mod Outcomes
pub mod Back
mod Tests
