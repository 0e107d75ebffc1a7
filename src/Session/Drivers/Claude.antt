-- ===== src/Session/Drivers/Claude.antt =====
-- src/agent-runtime/session/drivers/claude: frames of Claude Code's stream, as driver events.
pub mod State
pub mod Tasks
pub mod Messages
pub mod Translate
pub mod Turns
