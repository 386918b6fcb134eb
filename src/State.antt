-- ===== src/State.antt =====
-- internal/server/state: the state machine of boxes, hosts and maintenance windows.
pub mod Types
pub mod Topology
pub mod Suppress
pub mod Round
pub mod Reconcile
pub mod Inputs
pub mod Hysteresis
pub mod Ancestors
pub mod Uplinks
pub mod Stable
pub mod Settle
pub mod Sweep
pub mod Wellformed
pub mod Members
pub mod Agreement
pub mod Preserve
pub mod Invariant
pub mod Totality
pub mod Reachable
pub mod Isolation
mod Resting
pub mod Silence
pub mod Ticks
pub mod Quiet
pub mod Dirty
pub mod Windows
pub mod Office
pub mod Tests
