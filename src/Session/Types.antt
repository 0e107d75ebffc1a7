-- ===== src/Session/Types.antt =====
-- src/agent-runtime/session/domain/types.ts and errors.ts: the vocabulary of a session. Amounts of
-- tokens and of money are natural numbers of a unit fine enough for every value that is reported.
use specrails_core.Prelude.{ℕ, String, Bool, true, false, Option, List, ◌≡◌, ◌↔◌, arith, Eq, ◌==◌}
use specrails_core.Prelude.Dict.{Dict}

pub data SessionErrorCode : Type 0 where
  protocol_mismatch not_initialized invalid_params payload_too_large : SessionErrorCode
  session_not_found session_closed driver_unavailable policy_unenforceable : SessionErrorCode
  input_conflict illegal_transition journal_locked store_incompatible : SessionErrorCode
  busy limit_reached internal : SessionErrorCode

pub data SessionPhase : Type 0 where
  idle turn background : SessionPhase

pub data SessionStatus : Type 0 where
  opened closed : SessionStatus

pub data TurnOrigin : Type 0 where
  user subagent system : TurnOrigin

pub data TurnStatus : Type 0 where
  running completed failed stopped interrupted : TurnStatus

pub data InputDelivery : Type 0 where
  queue steer interrupt : InputDelivery

pub data InputState : Type 0 where
  accepted queued started completed rejected interrupted : InputState

pub data SubagentKind : Type 0 where
  foreground background : SubagentKind

pub data SubagentPhase : Type 0 where
  running idle failed stopped killed interrupted : SubagentPhase

pub data OutputChannel : Type 0 where
  text thinking : OutputChannel

pub record Usage : Type 0 where
  pub input_tokens : Option ℕ
  pub output_tokens : Option ℕ
  pub cache_read_tokens : Option ℕ
  pub cache_write_tokens : Option ℕ
  pub total_tokens : Option ℕ
  pub cost_usd : Option ℕ
  pub cost_estimated : Bool
  pub model : Option String

abbrev pub empty_usage : Usage
empty_usage = record {
  input_tokens = Option.none;
  output_tokens = Option.none;
  cache_read_tokens = Option.none;
  cache_write_tokens = Option.none;
  total_tokens = Option.none;
  cost_usd = Option.none;
  cost_estimated = false;
  model = Option.none;
}

pub record McpServerSpec : Type 0 where
  pub name : String
  pub command : Option String
  pub args : Option (List String)
  pub env : Option (Dict String)
  pub url : Option String
  pub headers : Option (Dict String)
  pub auto_approve : Option Bool

pub record SessionLimits : Type 0 where
  pub idle_ms : ℕ
  pub stall_ms : ℕ
  pub background_max_ms : ℕ
  pub turn_inactivity_ms : ℕ
  pub tool_inactivity_ms : ℕ
  pub max_settle_handoffs : ℕ
  pub settle_debounce_ms : ℕ

pub data SubagentRuntime : Type 0 where
  native : Option String → Option String → SubagentRuntime
  delegated : String → String → Option String → ℕ → SubagentRuntime

pub data SubagentUse : Type 0 where
  enabled disabled : SubagentUse

pub data OnSettled : Type 0 where
  provider_native resume_agent notify_only : OnSettled

pub data ToolMode : Type 0 where
  default read_only none : ToolMode

pub record ToolPolicy : Type 0 where
  pub mode : ToolMode
  pub allow : Option (List String)
  pub deny : Option (List String)

pub data Permissions : Type 0 where
  bypass workspace_write read_only : Permissions

pub record McpPolicy : Type 0 where
  pub servers : List McpServerSpec
  pub inherit_user_scope : Bool

-- A policy as it is journaled: `subagentRuntime` may be missing in an old journal.
pub record SessionPolicy : Type 0 where
  pub subagents : SubagentUse
  pub subagent_runtime : Option SubagentRuntime
  pub on_subagents_settled : OnSettled
  pub tools : ToolPolicy
  pub permissions : Permissions
  pub mcp : McpPolicy
  pub limits : SessionLimits

pub data CostSemantics : Type 0 where
  session_cumulative per_turn none : CostSemantics

pub data TokenSemantics : Type 0 where
  per_turn cumulative none : TokenSemantics

pub record UsageSemantics : Type 0 where
  pub cost_usd : CostSemantics
  pub tokens : TokenSemantics

pub data SubagentSupport : Type 0 where
  unsupported supported : SubagentSupport

pub data InterruptSupport : Type 0 where
  native emulated : InterruptSupport

pub record DriverCapabilities : Type 0 where
  pub resident : Bool
  pub native_input_queue : Bool
  pub subagents : SubagentSupport
  pub subagent_disable : Bool
  pub subagent_model : Bool
  pub subagent_effort : Bool
  pub autonomous_continuation : Bool
  pub steer : Bool
  pub tool_filtering : Bool
  pub interrupt : Option InterruptSupport
  pub usage : UsageSemantics

pub record DriverDescriptor : Type 0 where
  pub id : String
  pub display_name : String
  pub capabilities : DriverCapabilities

pub data AttachmentKind : Type 0 where
  image file : AttachmentKind

pub record Attachment : Type 0 where
  pub kind : AttachmentKind
  pub path : String
  pub mime_type : Option String

-- `===` on the states of the four machines, by their position.
abbrev pub phase_index : SessionPhase → ℕ
phase_index SessionPhase.idle = 0
phase_index SessionPhase.turn = 1
phase_index SessionPhase.background = 2

abbrev pub turn_index : TurnStatus → ℕ
turn_index TurnStatus.running = 0
turn_index TurnStatus.completed = 1
turn_index TurnStatus.failed = 2
turn_index TurnStatus.stopped = 3
turn_index TurnStatus.interrupted = 4

abbrev pub input_index : InputState → ℕ
input_index InputState.accepted = 0
input_index InputState.queued = 1
input_index InputState.started = 2
input_index InputState.completed = 3
input_index InputState.rejected = 4
input_index InputState.interrupted = 5

abbrev pub subagent_index : SubagentPhase → ℕ
subagent_index SubagentPhase.running = 0
subagent_index SubagentPhase.idle = 1
subagent_index SubagentPhase.failed = 2
subagent_index SubagentPhase.stopped = 3
subagent_index SubagentPhase.killed = 4
subagent_index SubagentPhase.interrupted = 5

pub phase_index_iff : (a b : SessionPhase) → ((phase_index a == phase_index b) ≡ true) ↔ (a ≡ b)
phase_index_iff a b = ground arith

pub turn_index_iff : (a b : TurnStatus) → ((turn_index a == turn_index b) ≡ true) ↔ (a ≡ b)
turn_index_iff a b = ground arith

pub input_index_iff : (a b : InputState) → ((input_index a == input_index b) ≡ true) ↔ (a ≡ b)
input_index_iff a b = ground arith

pub subagent_index_iff :
    (a b : SubagentPhase) → ((subagent_index a == subagent_index b) ≡ true) ↔ (a ≡ b)
subagent_index_iff a b = ground arith

instance abbrev pub phase_eq : Eq SessionPhase
phase_eq = record { beq = λ a b. phase_index a == phase_index b; beq_iff = phase_index_iff }

instance abbrev pub turn_eq : Eq TurnStatus
turn_eq = record { beq = λ a b. turn_index a == turn_index b; beq_iff = turn_index_iff }

instance abbrev pub input_eq : Eq InputState
input_eq = record { beq = λ a b. input_index a == input_index b; beq_iff = input_index_iff }

instance abbrev pub subagent_eq : Eq SubagentPhase
subagent_eq = record {
  beq = λ a b. subagent_index a == subagent_index b;
  beq_iff = subagent_index_iff;
}
