-- ===== src/Agent.antt =====
-- internal/agent/loop.go: the agent, which carries what the box's parts have to say in heartbeats.
pub mod Rounds
pub mod Tasks
pub mod Heartbeat
mod Buffer
mod Once
mod Lost
mod Tests
