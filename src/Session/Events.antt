-- ===== src/Session/Events.antt =====
-- src/agent-runtime/session/domain/events.ts: the journaled events.
use specrails_core.Prelude.{ℕ, String, Bool, Option, List}
use specrails_core.Prelude.Json.{Json}
use specrails_core.Session.Types.{
  Attachment, InputDelivery, InputState, OutputChannel, SessionPhase, SessionPolicy, SubagentKind,
  SubagentPhase, TurnOrigin, TurnStatus, Usage,
}

pub data ToolPhase : Type 0 where
  started completed : ToolPhase

-- `input` is any JSON value.
pub record ToolActivity : Type 0 where
  pub tool_use_id : String
  pub name : String
  pub phase : ToolPhase
  pub input : Option Json
  pub output : Option String
  pub is_error : Option Bool

pub data ProcessState : Type 0 where
  started retired exited : ProcessState

pub data UpdateOutcome : Type 0 where
  applied deferred : UpdateOutcome

pub data DiagnosticLevel : Type 0 where
  info warning : DiagnosticLevel

pub data Billing : Type 0 where
  included separate : Billing

pub data SubagentChannel : Type 0 where
  text tool : SubagentChannel

pub data OutputScope : Type 0 where
  turn : String → OutputScope
  subagent : String → OutputScope

-- The keys of `changes` that the session reads.
pub record SessionChanges : Type 0 where
  pub model : Option String
  pub effort : Option String
  pub system_prompt : Option String
  pub policy : Option SessionPolicy

pub record SessionOpened : Type 0 where
  pub driver : String
  pub model : String
  pub effort : Option String
  pub system_prompt : Option String
  pub policy : SessionPolicy
  pub resumed : Bool
  pub provider_session_ref : Option String

pub record InputAccepted : Type 0 where
  pub input_id : String
  pub delivery : InputDelivery
  pub text : String
  pub attachments : Option (List Attachment)

-- The states that an `input.state` event may name.
pub data InputMove : Type 0 where
  queued started completed rejected interrupted : InputMove

abbrev pub moved_to : InputMove → InputState
moved_to InputMove.queued = InputState.queued
moved_to InputMove.started = InputState.started
moved_to InputMove.completed = InputState.completed
moved_to InputMove.rejected = InputState.rejected
moved_to InputMove.interrupted = InputState.interrupted

-- The statuses that a `turn.completed` event may name.
pub data TurnEnd : Type 0 where
  completed failed stopped interrupted : TurnEnd

abbrev pub ended_as : TurnEnd → TurnStatus
ended_as TurnEnd.completed = TurnStatus.completed
ended_as TurnEnd.failed = TurnStatus.failed
ended_as TurnEnd.stopped = TurnStatus.stopped
ended_as TurnEnd.interrupted = TurnStatus.interrupted

pub record InputChanged : Type 0 where
  pub input_id : String
  pub state : InputMove
  pub turn_id : Option String
  pub reason : Option String

pub record TurnStarted : Type 0 where
  pub turn_id : String
  pub origin : TurnOrigin
  pub input_ids : List String
  pub trigger : Option (List String)

pub record TurnCompleted : Type 0 where
  pub turn_id : String
  pub status : TurnEnd
  pub text : String
  pub error : Option String
  pub usage : Usage

pub record Delegate : Type 0 where
  pub driver : String
  pub model : String

pub record SubagentStarted : Type 0 where
  pub subagent_id : String
  pub parent_id : Option String
  pub kind : SubagentKind
  pub agent_type : Option String
  pub description : String
  pub prompt : Option String
  pub delegated : Option Delegate

pub record SubagentUsage : Type 0 where
  pub subagent_id : String
  pub usage : Usage
  pub tool_uses : Option ℕ
  pub duration_ms : Option ℕ
  pub billing : Option Billing

pub record ProcessChanged : Type 0 where
  pub state : ProcessState
  pub generation : ℕ
  pub reason : Option String
  pub exit_code : Option ℕ

pub data SessionEventBody : Type 0 where
  session_opened : SessionOpened → SessionEventBody
  session_phase : SessionPhase → SessionEventBody
  session_process : ProcessChanged → SessionEventBody
  session_provider_ref : String → SessionEventBody
  session_updated : SessionChanges → UpdateOutcome → SessionEventBody
  session_closed : String → SessionEventBody
  input_accepted : InputAccepted → SessionEventBody
  input_state : InputChanged → SessionEventBody
  turn_started : TurnStarted → SessionEventBody
  turn_output : String → OutputChannel → String → SessionEventBody
  turn_tool : String → ToolActivity → SessionEventBody
  turn_completed : TurnCompleted → SessionEventBody
  subagent_started : SubagentStarted → SessionEventBody
  subagent_phase : String → SubagentPhase → Option String → SessionEventBody
  subagent_output :
      String → SubagentChannel → Option String → Option ToolActivity → SessionEventBody
  subagent_usage : SubagentUsage → SessionEventBody
  subagent_result : String → String → SessionEventBody
  subagents_settled : Bool → ℕ → SessionEventBody
  output_truncated : OutputScope → ℕ → ℕ → SessionEventBody
  notice_interruption : List String → List String → SessionEventBody
  provider_diagnostic : DiagnosticLevel → String → String → SessionEventBody

pub record SessionEvent : Type 0 where
  pub body : SessionEventBody
  pub at : String

pub record SessionEventEnvelope : Type 0 where
  pub session_id : String
  pub seq : ℕ
  pub event : SessionEvent
