-- ===== src/Discovery.antt =====
-- internal/agent/discovery: the devices that a box sees in its network.
pub mod Table
pub mod Names
pub mod Config
pub mod Frames
pub mod Keys
pub mod Reports
mod Acked
mod Limits
mod Tests
