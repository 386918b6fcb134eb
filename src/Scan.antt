-- ===== src/Scan.antt =====
-- internal/agent/scan/scan.go: the service scan of a box.
pub mod Types
pub mod Config
pub mod Round
pub mod Chunks
mod Limits
mod Allowed
mod Hosts
pub mod Delivery
mod Tests
