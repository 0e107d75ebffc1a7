-- ===== src/Session/Snapshot.antt =====
-- src/agent-runtime/session/domain/snapshot.ts: the state of a session as a fold over its events.
-- An error carries its code; the texts of the messages are left out.
use specrails_core.Prelude.{
  ℕ, ◌-◌, String, Bool, true, false, not, Option, none, some, List, [], ◌∷◌, ◌++◌, length, take,
  keep, is_some, leb, str_eq, Result, ok, err, if◌then◌else◌,
}
use specrails_core.Prelude.Dict.{Dict, includes, get, put, values}
use specrails_core.Session.Types.{
  SessionErrorCode, SessionPhase, SessionStatus, TurnOrigin, TurnStatus, InputDelivery, InputState,
  SubagentKind, SubagentPhase, Usage, SubagentRuntime, SessionPolicy, phase_eq, turn_eq, input_eq,
  subagent_eq,
}
use specrails_core.Session.Events.{Delegate}

pub record InputRecord : Type 0 where
  pub input_id : String
  pub delivery : InputDelivery
  pub state : InputState
  pub turn_id : Option String
  pub text_length : ℕ
  pub fingerprint : List ℕ

pub record OpenTurn : Type 0 where
  pub turn_id : String
  pub origin : TurnOrigin
  pub input_ids : List String
  pub started_at : String
  pub text : String

pub record TurnRecord : Type 0 where
  pub turn_id : String
  pub origin : TurnOrigin
  pub status : TurnStatus
  pub started_at : String
  pub ended_at : Option String
  pub usage : Option Usage

pub record SubagentNode : Type 0 where
  pub subagent_id : String
  pub parent_id : Option String
  pub kind : SubagentKind
  pub agent_type : Option String
  pub description : String
  pub phase : SubagentPhase
  pub reason : Option String
  pub restarts : ℕ
  pub started_at : String
  pub ended_at : Option String
  pub usage : Option Usage
  pub tool_uses : Option ℕ
  pub duration_ms : Option ℕ
  pub result_summary : Option String
  pub delegated : Option Delegate

abbrev pub snapshot_turn_history : ℕ
snapshot_turn_history = 100

abbrev pub snapshot_terminal_inputs : ℕ
snapshot_terminal_inputs = 500

pub record ProcessInfo : Type 0 where
  pub generation : ℕ
  pub alive : Bool

pub record Settled : Type 0 where
  pub settled : Bool
  pub live : ℕ

pub record PendingInterruptions : Type 0 where
  pub subagent_ids : List String
  pub input_ids : List String

pub record SessionSnapshot : Type 0 where
  pub session_id : String
  pub last_seq : ℕ
  pub status : SessionStatus
  pub driver : String
  pub model : String
  pub effort : Option String
  pub system_prompt : Option String
  pub policy : Option SessionPolicy
  pub provider_session_ref : Option String
  pub phase : SessionPhase
  pub process : ProcessInfo
  pub open_turn : Option OpenTurn
  pub turns : List TurnRecord
  pub turn_count : ℕ
  pub inputs : Dict InputRecord
  pub subagents : Dict SubagentNode
  pub settled : Settled
  pub pending_interruptions : PendingInterruptions
  pub closed_reason : Option String

unfoldable pub empty_snapshot : String → SessionSnapshot
empty_snapshot session_id = record {
  session_id = session_id;
  last_seq = 0;
  status = SessionStatus.opened;
  driver = "";
  model = "";
  effort = none;
  system_prompt = none;
  policy = none;
  provider_session_ref = none;
  phase = SessionPhase.idle;
  process = record { generation = 0; alive = false };
  open_turn = none;
  turns = [];
  turn_count = 0;
  inputs = [];
  subagents = [];
  settled = record { settled = true; live = 0 };
  pending_interruptions = record { subagent_ids = []; input_ids = [] };
  closed_reason = none;
}

-- Throwing one of the codes.
abbrev pub Outcome {ℓ} : Type ℓ → Type ℓ
Outcome A = Result SessionErrorCode A

-- Sub-agent end states that the agent must be told about before it continues.
abbrev pub notifiable : SubagentPhase → Bool
notifiable SubagentPhase.interrupted = true
notifiable SubagentPhase.stopped = true
notifiable SubagentPhase.killed = true
notifiable _ = false

unfoldable pub add_unique : List String → String → List String
add_unique list id = if includes list id then list else list ++ (id ∷ [])

unfoldable pub require_subagent : SessionSnapshot → String → Outcome SubagentNode
require_subagent s id = elim (get id s.subagents) [
  | none ↦ err SessionErrorCode.illegal_transition
  | some node ↦ ok node
]

unfoldable pub require_open_turn : SessionSnapshot → String → Outcome OpenTurn
require_open_turn s id = elim s.open_turn [
  | none ↦ err SessionErrorCode.illegal_transition
  | some turn ↦
      (if str_eq turn.turn_id id then ok turn else err SessionErrorCode.illegal_transition)
]

-- Journals written before `subagentRuntime` existed ran native sub-agents.
abbrev pub normalize_policy : SessionPolicy → SessionPolicy
normalize_policy policy =
    if is_some policy.subagent_runtime
    then policy
    else record policy { subagent_runtime = some (SubagentRuntime.native none none) }

abbrev pub is_terminal_input : InputState → Bool
is_terminal_input InputState.completed = true
is_terminal_input InputState.rejected = true
is_terminal_input InputState.interrupted = true
is_terminal_input _ = false

abbrev pub terminal_inputs : Dict InputRecord → List InputRecord
terminal_inputs inputs = keep (λ input. is_terminal_input input.state) (values inputs)

abbrev pub input_ids_of : List InputRecord → List String
input_ids_of [] = []
input_ids_of (input ∷ inputs) = input.input_id ∷ input_ids_of inputs

-- Keep every live input and only the most recent terminal ones.
unfoldable pub prune_inputs : Dict InputRecord → Dict InputRecord
prune_inputs inputs =
    let terminal = terminal_inputs inputs in
    let drop_ids = input_ids_of (take (length terminal - snapshot_terminal_inputs) terminal) in
    if leb (length terminal) snapshot_terminal_inputs
    then inputs
    else keep (λ entry. not (includes drop_ids entry.0)) inputs

abbrev pub with_subagent : SessionSnapshot → SubagentNode → SessionSnapshot
with_subagent s node = record s { subagents = put node.subagent_id node s.subagents }
