-- ===== src/Session/Drivers/Events.antt =====
-- src/agent-runtime/session/ports.ts: the facts that a driver observes.
use specrails_core.Prelude.{ℕ, String, Option, List}
use specrails_core.Session.Types.{OutputChannel, SubagentKind, SubagentPhase}
use specrails_core.Session.Events.{ToolActivity, DiagnosticLevel}
use specrails_core.Session.Usage.{ReportedUsage}

pub data ReceiptState : Type 0 where
  queued started completed rejected : ReceiptState

pub data TurnTrigger : Type 0 where
  input continuation : TurnTrigger

pub data DriverTurnStatus : Type 0 where
  completed failed stopped : DriverTurnStatus

pub record DriverTurn : Type 0 where
  pub status : DriverTurnStatus
  pub text : String
  pub error : Option String
  pub usage : ReportedUsage

pub record DriverSubagent : Type 0 where
  pub subagent_id : String
  pub parent_id : Option String
  pub agent_kind : SubagentKind
  pub agent_type : Option String
  pub description : String
  pub prompt : Option String

pub record DriverSubagentUsage : Type 0 where
  pub subagent_id : String
  pub usage : ReportedUsage
  pub tool_uses : Option ℕ
  pub duration_ms : Option ℕ

pub data SubagentText : Type 0 where
  text : String → SubagentText
  tool : ToolActivity → SubagentText

pub data DriverEvent : Type 0 where
  process_started : Option ℕ → Option String → DriverEvent
  process_exited : Option ℕ → Option String → DriverEvent
  provider_ref : String → DriverEvent
  input_receipt : String → ReceiptState → Option String → DriverEvent
  turn_started : TurnTrigger → List String → DriverEvent
  turn_output : OutputChannel → String → DriverEvent
  turn_tool : ToolActivity → DriverEvent
  turn_completed : DriverTurn → DriverEvent
  subagent_started : DriverSubagent → DriverEvent
  subagent_phase : String → SubagentPhase → Option String → DriverEvent
  subagent_output : String → SubagentText → DriverEvent
  subagent_usage : DriverSubagentUsage → DriverEvent
  subagent_result : String → String → DriverEvent
  roster : List String → DriverEvent
  diagnostic : DiagnosticLevel → String → String → DriverEvent
