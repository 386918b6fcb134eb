-- ===== src/Sentinel.antt =====
-- internal/agent/sentinel/sentinel.go: the box's live detection.
pub mod Types
pub mod Config
pub mod Counters
pub mod Pending
pub mod Observe
pub mod Frames
pub mod Ports
pub mod Tidy
pub mod Batches
mod Returned
pub mod Delivery
pub mod Kinds
pub mod Kept
pub mod Runs
pub mod Tests
