-- ===== src/Session/Application.antt =====
-- src/agent-runtime/session/application/active-session.ts: the live session around the reducer.
pub mod Live
pub mod Commit
pub mod Work
pub mod Settlement
pub mod Turns
pub mod TurnEvents
pub mod SubagentEvents
pub mod Handlers
pub mod Delegated
pub mod Replay
pub mod Replayed
pub mod Driven
pub mod Secrets
pub mod Committed
pub mod Ended
pub mod Quiet
mod Examples
mod QuietExamples
