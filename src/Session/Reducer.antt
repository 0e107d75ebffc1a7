-- ===== src/Session/Reducer.antt =====
-- src/agent-runtime/session/domain/snapshot.ts, lines 142 to 324: one event, and the fold of a
-- journal. `apply_body` is the `switch`, with a function for each case that reads the state.
pub mod Fold
pub mod Frame
pub mod Closed
pub mod Inputs
pub mod Interruptions
pub mod Forest
pub mod Subagents
pub mod History
pub mod LastTurns
pub mod Notice
pub mod Erased
pub mod ErasedFold
pub mod Redacted
pub mod Numbering
pub mod Endings
mod Examples
use Prim.Native.String.{◌++◌ as append}
use specrails_core.Prelude.{
  ℕ, zero, suc, ◌+◌, ◌-◌, String, Bool, true, false, not, ◌&&◌, ◌||◌, Option, none, some, List, [],
  ◌∷◌, ◌++◌, length, take, keep, last_n, is_some, or_else, leb, ◌==◌, str_eq, same, Result, ok, err,
  ◌>>=◌, ◌>>◌, guard, if◌then◌else◌,
}
use specrails_core.Prelude.Dict.{Dict, includes, get, put, values}
use specrails_core.Prelude.Texts.{text_length}
use specrails_core.Session.Types.{
  SessionErrorCode, SessionPhase, SessionStatus, TurnOrigin, TurnStatus, InputDelivery, InputState,
  SubagentKind, SubagentPhase, OutputChannel, Usage, SubagentRuntime, SessionPolicy, phase_eq,
  turn_eq, input_eq, subagent_eq,
}
use specrails_core.Session.StateMachines.{
  session_phase_transitions, turn_transitions, input_transitions, subagent_transitions,
  assert_transition, is_live_subagent_phase,
}
use specrails_core.Session.Events.{
  ProcessState, UpdateOutcome, SessionChanges, SessionOpened, InputAccepted, InputChanged,
  TurnStarted, TurnCompleted, Delegate, SubagentStarted, SubagentUsage, ProcessChanged,
  SessionEventBody, session_opened, session_phase, session_process, session_provider_ref,
  session_updated, session_closed, input_accepted, input_state, turn_started, turn_output,
  turn_tool, turn_completed, subagent_started, subagent_phase, subagent_output, subagent_usage,
  subagent_result, subagents_settled, output_truncated, notice_interruption, provider_diagnostic,
  SessionEvent, SessionEventEnvelope, moved_to, ended_as,
}
use specrails_core.Session.Fingerprint.{fingerprint}
use specrails_core.Session.Snapshot.{
  InputRecord, OpenTurn, TurnRecord, SubagentNode, SessionSnapshot, PendingInterruptions, Outcome,
  snapshot_turn_history, notifiable, add_unique, require_subagent, require_open_turn,
  normalize_policy, prune_inputs, with_subagent,
}

open_session : SessionSnapshot → SessionOpened → SessionSnapshot
open_session s e = record s {
  driver = e.driver;
  model = e.model;
  effort = e.effort;
  system_prompt = e.system_prompt;
  policy = some (normalize_policy e.policy);
  provider_session_ref = or_else e.provider_session_ref s.provider_session_ref;
}

abbrev is_started : ProcessState → Bool
is_started ProcessState.started = true
is_started _ = false

abbrev updated_policy : Option SessionPolicy → Option SessionPolicy → Option SessionPolicy
updated_policy none old = old
updated_policy (some policy) old = some (normalize_policy policy)

abbrev or_keep : Option String → String → String
or_keep none old = old
or_keep (some new) old = new

update_session : SessionSnapshot → SessionChanges → UpdateOutcome → SessionSnapshot
update_session s changes UpdateOutcome.deferred = s
update_session s changes UpdateOutcome.applied = record s {
  model = or_keep changes.model s.model;
  effort = or_else changes.effort s.effort;
  system_prompt = or_else changes.system_prompt s.system_prompt;
  policy = updated_policy changes.policy s.policy;
}

abbrev pub accepted_record : InputAccepted → InputRecord
accepted_record e = record {
  input_id = e.input_id;
  delivery = e.delivery;
  state = InputState.accepted;
  turn_id = none;
  text_length = text_length e.text;
  fingerprint = fingerprint e.text;
}

accept_input : SessionSnapshot → InputAccepted → Outcome SessionSnapshot
accept_input s e =
    if is_some (get e.input_id s.inputs)
    then err SessionErrorCode.input_conflict
    else ok (record s { inputs = put e.input_id (accepted_record e) s.inputs })

abbrev pub moved_record : InputChanged → InputRecord → InputRecord
moved_record e input = record input {
  state = moved_to e.state;
  turn_id = or_else e.turn_id input.turn_id;
}

-- The input's new record and, when it was interrupted, its place among what must be reported.
abbrev move_input : SessionSnapshot → InputChanged → InputRecord → SessionSnapshot
move_input s e input = record s {
  inputs = prune_inputs (put e.input_id (moved_record e input) s.inputs);
  pending_interruptions =
      if same (moved_to e.state) InputState.interrupted
      then record s.pending_interruptions {
        input_ids = add_unique s.pending_interruptions.input_ids e.input_id;
      }
      else s.pending_interruptions;
}

change_input : SessionSnapshot → InputChanged → Outcome SessionSnapshot
change_input s e = elim (get e.input_id s.inputs) [
  | none ↦ err SessionErrorCode.illegal_transition
  | some input ↦
      (assert_transition input_transitions input.state (moved_to e.state)
        >> ok (move_input s e input))
]

abbrev pub new_turn : String → TurnStarted → TurnRecord
new_turn at e = record {
  turn_id = e.turn_id;
  origin = e.origin;
  status = TurnStatus.running;
  started_at = at;
  ended_at = none;
  usage = none;
}

abbrev pub opened_turn : String → TurnStarted → OpenTurn
opened_turn at e = record {
  turn_id = e.turn_id;
  origin = e.origin;
  input_ids = e.input_ids;
  started_at = at;
  text = "";
}

start_turn : SessionSnapshot → String → TurnStarted → Outcome SessionSnapshot
start_turn s at e =
    if is_some s.open_turn
    then err SessionErrorCode.illegal_transition
    else ok (record s {
      open_turn = some (opened_turn at e);
      turns = last_n snapshot_turn_history (s.turns ++ (new_turn at e ∷ []));
      turn_count = s.turn_count + 1;
    })

abbrev pub add_output : SessionSnapshot → OutputChannel → String → OpenTurn → SessionSnapshot
add_output s OutputChannel.text delta turn = record s {
  open_turn = some (record turn { text = append turn.text delta });
}
add_output s OutputChannel.thinking delta turn = s

output_turn : SessionSnapshot → String → OutputChannel → String → Outcome SessionSnapshot
output_turn s id channel delta = do
  turn ← require_open_turn s id
  ok (add_output s channel delta turn)

abbrev pub end_record : String → TurnCompleted → TurnRecord → TurnRecord
end_record at e turn = record turn {
  status = ended_as e.status;
  ended_at = some at;
  usage = some e.usage;
}

unfoldable pub complete_one : String → TurnCompleted → TurnRecord → Outcome TurnRecord
complete_one at e turn =
    if str_eq turn.turn_id e.turn_id
    then (assert_transition turn_transitions turn.status (ended_as e.status)
        >> ok (end_record at e turn))
    else ok turn

-- `turns.map(...)`, which throws at the first turn of that id that may not end so.
unfoldable pub complete_turns : String → TurnCompleted → List TurnRecord → Outcome (List TurnRecord)
unfolding complete_one
complete_turns at e [] = ok []
complete_turns at e (turn ∷ turns) = do
  turn' ← complete_one at e turn
  turns' ← complete_turns at e turns
  ok (turn' ∷ turns')

unfoldable pub complete_turn : SessionSnapshot → String → TurnCompleted → Outcome SessionSnapshot
complete_turn s at e = do
  _ ← require_open_turn s e.turn_id
  turns ← complete_turns at e s.turns
  ok (record s { open_turn = none; turns = turns })

-- A known sub-agent that the provider starts again.
abbrev pub restart_subagent : SubagentNode → SubagentNode
restart_subagent node = record node {
  phase = SubagentPhase.running;
  reason = none;
  ended_at = none;
  restarts = node.restarts + (if same node.phase SubagentPhase.idle then 1 else 0);
}

abbrev pub new_subagent : String → SubagentStarted → SubagentNode
new_subagent at e = record {
  subagent_id = e.subagent_id;
  parent_id = e.parent_id;
  kind = e.kind;
  agent_type = e.agent_type;
  description = e.description;
  phase = SubagentPhase.running;
  reason = none;
  restarts = 0;
  started_at = at;
  ended_at = none;
  usage = none;
  tool_uses = none;
  duration_ms = none;
  result_summary = none;
  delegated = e.delegated;
}

-- No parent, or one that is known.
pub has_parent : SessionSnapshot → Option String → Bool
has_parent s none = true
has_parent s (some id) = is_some (get id s.subagents)

start_subagent : SessionSnapshot → String → SubagentStarted → Outcome SessionSnapshot
unfolding has_parent
start_subagent s at e = elim (get e.subagent_id s.subagents) [
  | none ↦
      (guard (has_parent s e.parent_id) SessionErrorCode.illegal_transition
        >> ok (with_subagent s (new_subagent at e)))
  | some existing ↦
      (assert_transition subagent_transitions existing.phase SubagentPhase.running
        >> ok (with_subagent s (restart_subagent existing)))
]

abbrev pub moved_subagent : String → SubagentPhase → Option String → SubagentNode → SubagentNode
moved_subagent at phase reason node =
    let live = is_live_subagent_phase phase in
    record node {
      phase = phase;
      reason = or_else reason (if live then none else node.reason);
      ended_at = if live then none else some at;
    }

abbrev pub note_subagent : SubagentPhase → String → SessionSnapshot → SessionSnapshot
note_subagent phase id next =
    if notifiable phase
    then record next {
      pending_interruptions = record next.pending_interruptions {
        subagent_ids = add_unique next.pending_interruptions.subagent_ids id;
      };
    }
    else next

unfoldable pub move_subagent :
    SessionSnapshot → String → String → SubagentPhase → Option String → Outcome SessionSnapshot
move_subagent s at id phase reason = do
  node ← require_subagent s id
  assert_transition subagent_transitions node.phase phase
  ok (note_subagent phase id (with_subagent s (moved_subagent at phase reason node)))

use_subagent : SessionSnapshot → SubagentUsage → Outcome SessionSnapshot
use_subagent s e = do
  node ← require_subagent s e.subagent_id
  ok (
      with_subagent s (record node {
        usage = some e.usage;
        tool_uses = or_else e.tool_uses node.tool_uses;
        duration_ms = or_else e.duration_ms node.duration_ms;
      }))

give_result : SessionSnapshot → String → String → Outcome SessionSnapshot
give_result s id summary = do
  node ← require_subagent s id
  ok (with_subagent s (record node { result_summary = some summary }))

-- `list.filter((id) => !noticed.includes(id))`
abbrev pub unnoticed : List String → List String → List String
unnoticed noticed list = keep (λ id. not (includes noticed id)) list

unfoldable pub apply_body : SessionSnapshot → String → SessionEventBody → Outcome SessionSnapshot
unfolding open_session update_session accept_input change_input start_turn output_turn complete_turn
    start_subagent move_subagent use_subagent give_result
apply_body s at (session_opened e) = ok (open_session s e)
apply_body s at (session_phase phase) =
    assert_transition session_phase_transitions s.phase phase >> ok (record s { phase = phase })
apply_body s at (session_process e) =
    ok (record s { process = record { generation = e.generation; alive = is_started e.state } })
apply_body s at (session_provider_ref ref) = ok (record s { provider_session_ref = some ref })
apply_body s at (session_updated changes outcome) = ok (update_session s changes outcome)
apply_body s at (session_closed reason) = ok (record s {
  status = SessionStatus.closed;
  closed_reason = some reason;
  process = record s.process { alive = false };
})
apply_body s at (input_accepted e) = accept_input s e
apply_body s at (input_state e) = change_input s e
apply_body s at (turn_started e) = start_turn s at e
apply_body s at (turn_output id channel delta) = output_turn s id channel delta
apply_body s at (turn_tool id tool) = do _ ← require_open_turn s id; ok s
apply_body s at (turn_completed e) = complete_turn s at e
apply_body s at (subagent_started e) = start_subagent s at e
apply_body s at (subagent_phase id phase reason) = move_subagent s at id phase reason
apply_body s at (subagent_output id channel delta tool) = do _ ← require_subagent s id; ok s
apply_body s at (subagent_usage e) = use_subagent s e
apply_body s at (subagent_result id summary) = give_result s id summary
apply_body s at (subagents_settled settled live) =
    ok (record s { settled = record { settled = settled; live = live } })
apply_body s at (notice_interruption subagents inputs) = ok (record s {
  pending_interruptions = record {
    subagent_ids = unnoticed subagents s.pending_interruptions.subagent_ids;
    input_ids = unnoticed inputs s.pending_interruptions.input_ids;
  };
})
apply_body s at (output_truncated scope events bytes) = ok s
apply_body s at (provider_diagnostic level code message) = ok s

abbrev pub is_closed : SessionStatus → Bool
is_closed SessionStatus.opened = false
is_closed SessionStatus.closed = true

abbrev pub is_diagnostic : SessionEventBody → Bool
is_diagnostic (provider_diagnostic level code message) = true
is_diagnostic _ = false

unfoldable pub apply_event : SessionSnapshot → SessionEvent → Outcome SessionSnapshot
unfolding apply_body
apply_event s e =
    if is_closed s.status && not (is_diagnostic e.body)
    then err SessionErrorCode.session_closed
    else apply_body s e.at e.body

-- One envelope: it is for this session, and the next in sequence.
unfoldable pub fold_step : SessionSnapshot → SessionEventEnvelope → Outcome SessionSnapshot
fold_step s envelope = do
  guard (str_eq envelope.session_id s.session_id) SessionErrorCode.internal
  guard (envelope.seq == s.last_seq + 1) SessionErrorCode.internal
  next ← apply_event s envelope.event
  ok (record next { last_seq = envelope.seq })

unfoldable pub fold_events : SessionSnapshot → List SessionEventEnvelope → Outcome SessionSnapshot
fold_events s [] = ok s
fold_events s (envelope ∷ envelopes) = do next ← fold_step s envelope; fold_events next envelopes

-- Sub-agents currently occupying the provider.
abbrev pub live_subagents : SessionSnapshot → List SubagentNode
live_subagents s = keep (λ node. is_live_subagent_phase node.phase) (values s.subagents)
