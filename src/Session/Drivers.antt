-- ===== src/Session/Drivers.antt =====
-- src/agent-runtime/session/drivers: what the providers' processes write, as normalized events.
pub mod Events
pub mod Claude
pub mod Codex
mod Examples
