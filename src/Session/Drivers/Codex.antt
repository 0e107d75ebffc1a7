-- ===== src/Session/Drivers/Codex.antt =====
-- src/agent-runtime/session/drivers/codex: the peer of Codex's app-server.
pub mod Rpc
pub mod Answers
