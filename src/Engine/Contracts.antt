-- ===== src/Engine/Contracts.antt =====
-- src/agent-runtime/engine/contracts.ts: the vocabulary that the parts of the engine share.
use specrails_core.Prelude.{ℕ, String}

-- The codes of an `EngineError` that the modelled parts throw.
pub data EngineErrorCode : Type 0 where
  invalid_arguments aborted run_not_found lease_held lease_lost : EngineErrorCode
  control_conflict run_terminal inbox_full attempt_mismatch : EngineErrorCode

pub data EngineEffect : Type 0 where
  read write : EngineEffect

pub data EngineRunStatus : Type 0 where
  running succeeded failed blocked paused interrupted cancelled : EngineRunStatus

pub record ExecutionLease : Type 0 where
  pub run_id : String
  pub owner : String
  pub epoch : ℕ
  pub expires_at : ℕ
