-- ===== src/Session.antt =====
-- src/agent-runtime/session: interactive agent sessions.
pub mod Types
pub mod StateMachines
pub mod Events
pub mod Fingerprint
pub mod Snapshot
pub mod Policy
pub mod Usage
pub mod OutputBuffer
pub mod Drivers
pub mod Prune
mod Examples
pub mod Reducer
pub mod Interruption
pub mod Redaction
pub mod Descriptor
pub mod Timers
pub mod Application
