-- ===== src/Dnswatch.antt =====
-- internal/agent/dnswatch: the DNS sensor of a box.
pub mod Detect
pub mod Message
pub mod Watch
pub mod Forward
pub mod Sensors
pub mod Report
pub mod Handle
pub mod Questions
pub mod Labels
mod Answers
mod Rotation
mod Framing
pub mod Totals
mod Tests
pub mod Config
mod Resolver
