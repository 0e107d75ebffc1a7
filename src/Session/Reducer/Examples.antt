-- ===== src/Session/Reducer/Examples.antt =====
-- Runs of src/agent-runtime/session/domain/snapshot.ts at concrete journals.
use specrails_core.Prelude.{
  ℕ, ◌+◌, String, ◌≡◌, refl, true, none, some, List, [], ◌∷◌, ◌++◌, length, last_n, map, ◌⊎◌,
  Result, ok, err, arith,
}
use specrails_core.Prelude.Dict.{get, put, includes}
use specrails_core.Prelude.Texts.{text_length}
use specrails_core.Session.Types.{
  SessionStatus, TurnOrigin, TurnStatus, InputDelivery, InputState, SubagentKind, SubagentPhase,
  empty_usage, SessionErrorCode,
}
use specrails_core.Session.StateMachines.{
  turn_transitions, input_transitions, subagent_transitions, assert_transition, can_transition,
}
use specrails_core.Session.Events.{
  notice_interruption, InputAccepted, InputChanged, InputMove, TurnStarted, TurnCompleted, TurnEnd,
  SubagentStarted, SessionEventBody, input_accepted, input_state, turn_started, turn_completed,
  subagent_started, subagent_phase, provider_diagnostic, session_closed, DiagnosticLevel,
  SessionEventEnvelope,
}
use specrails_core.Session.Fingerprint.{fingerprint}
use specrails_core.Session.Snapshot.{
  InputRecord, OpenTurn, TurnRecord, SessionSnapshot, empty_snapshot, snapshot_turn_history,
  add_unique, require_subagent, require_open_turn, prune_inputs,
}
use specrails_core.Session.Reducer.{
  apply_body, apply_event, fold_step, fold_events, accept_input, change_input, start_turn,
  complete_one, complete_turns, complete_turn, start_subagent, move_subagent, end_record,
}
use specrails_core.Session.Reducer.Fold.{fold_events-coordinates, Numbered}
use specrails_core.Session.Interruption.{InterruptionNotice, build_interruption_notice, notice}
use specrails_core.Prelude.Json.{Json}
use specrails_core.Session.Redaction.{redact_envelope}
use specrails_core.Session.Reducer.Redacted.{redacted_journal-fold}
use specrails_core.Session.Reducer.Erased.{erased}
use specrails_core.Session.Reducer.Notice.{notice_once}
use specrails_core.Session.Reducer.Closed.{closed_absorbs, AllDiagnostic}
use specrails_core.Session.Reducer.LastTurns.{as_started, started, turn_history}
use specrails_core.Session.Reducer.History.{open_turn-Ledger, turn_completes, Ledger}
use specrails_core.Session.Reducer.Forest.{subagents-Progress, IsForest, Progress}
use specrails_core.Session.Reducer.Interruptions.{interrupted_is_reported, Noticed}
use specrails_core.Session.Reducer.Inputs.{
  inputs-IsBounded, live_input_kept, IsBounded, Ended, Waits,
}

abbrev numbered : ℕ → List SessionEventBody → List SessionEventEnvelope
numbered n [] = []
numbered n (body ∷ bodies) =
    record { session_id = "s"; seq = n; event = record { body = body; at = "noon" } }
    ∷ numbered (n + 1) bodies

abbrev input : InputAccepted
input = record { input_id = "i1"; delivery = InputDelivery.queue; text = "go"; attachments = none }

abbrev queued : InputChanged
queued = record { input_id = "i1"; state = InputMove.queued; turn_id = none; reason = none }

abbrev turn : TurnStarted
turn = record { turn_id = "t1"; origin = TurnOrigin.user; input_ids = "i1" ∷ []; trigger = none }

abbrev ended : TurnCompleted
ended = record {
  turn_id = "t1";
  status = TurnEnd.completed;
  text = "done";
  error = none;
  usage = empty_usage;
}

abbrev child : SubagentStarted
child = record {
  subagent_id = "a1";
  parent_id = none;
  kind = SubagentKind.background;
  agent_type = none;
  description = "look";
  prompt = none;
  delegated = none;
}

-- The session's work, up to the turn and its sub-agent.
abbrev opening : List SessionEventBody
opening =
    input_accepted input ∷ input_state queued ∷ turn_started turn ∷ subagent_started child ∷ []

abbrev stopping : List SessionEventBody
stopping = subagent_phase "a1" SubagentPhase.stopped none ∷ turn_completed ended ∷ []

abbrev closing : List SessionEventBody
closing = session_closed "done" ∷ []

abbrev late : List SessionEventBody
late = provider_diagnostic DiagnosticLevel.info "exit" "gone" ∷ []

abbrev or_empty : Result SessionErrorCode SessionSnapshot → SessionSnapshot
or_empty (ok s) = s
or_empty (err e) = empty_snapshot "s"

abbrev from : SessionSnapshot → ℕ → List SessionEventBody → SessionSnapshot
from s n bodies = or_empty (fold_events s (numbered n bodies))

abbrev begun : SessionSnapshot
begun = from (empty_snapshot "s") 1 opening

abbrev stopped : SessionSnapshot
stopped = from begun 5 stopping

abbrev shut : SessionSnapshot
shut = from stopped 7 closing

abbrev shut_late : SessionSnapshot
shut_late = from shut 8 late

opening_folds : fold_events (empty_snapshot "s") (numbered 1 opening) ≡ ok begun
unfolding fold_events fold_step apply_event apply_body accept_input change_input start_turn
    start_subagent assert_transition can_transition get put prune_inputs fingerprint empty_snapshot
    input_transitions
opening_folds = refl

stopping_folds : fold_events begun (numbered 5 stopping) ≡ ok stopped
unfolding fold_events fold_step apply_event apply_body accept_input change_input start_turn
    start_subagent assert_transition can_transition get put prune_inputs fingerprint empty_snapshot
    input_transitions move_subagent complete_turn complete_turns complete_one require_open_turn
    require_subagent subagent_transitions turn_transitions add_unique
stopping_folds = refl

all_folds : fold_events (empty_snapshot "s") (numbered 1 (opening ++ stopping)) ≡ ok stopped
unfolding fold_events fold_step apply_event apply_body accept_input change_input start_turn
    start_subagent assert_transition can_transition get put prune_inputs fingerprint empty_snapshot
    input_transitions move_subagent complete_turn complete_turns complete_one require_open_turn
    require_subagent subagent_transitions turn_transitions add_unique
all_folds = refl

late_folds : fold_events shut (numbered 8 late) ≡ ok shut_late
unfolding fold_events fold_step apply_event apply_body accept_input change_input start_turn
    start_subagent assert_transition can_transition get put prune_inputs fingerprint empty_snapshot
    input_transitions move_subagent complete_turn complete_turns complete_one require_open_turn
    require_subagent subagent_transitions turn_transitions add_unique
late_folds = refl

shut_closed : shut.status ≡ SessionStatus.closed
unfolding fold_events fold_step apply_event apply_body accept_input change_input start_turn
    start_subagent assert_transition can_transition get put prune_inputs fingerprint empty_snapshot
    input_transitions move_subagent complete_turn complete_turns complete_one require_open_turn
    require_subagent subagent_transitions turn_transitions add_unique
shut_closed = refl

fold_events-coordinates_example :
    Numbered begun.session_id (begun.last_seq + 1) (numbered 5 stopping)
    × (stopped.last_seq ≡ begun.last_seq + 2)
    × (stopped.session_id ≡ begun.session_id)
fold_events-coordinates_example =
    fold_events-coordinates begun (numbered 5 stopping) stopped stopping_folds

closed_absorbs_example :
    AllDiagnostic (numbered 8 late) × (shut_late ≡ record shut { last_seq = shut_late.last_seq })
closed_absorbs_example = closed_absorbs shut (numbered 8 late) shut_late shut_closed late_folds

turn_history_example :
    (map as_started stopped.turns
      ≡ last_n snapshot_turn_history (started (numbered 1 (opening ++ stopping))))
    × (stopped.turn_count ≡ length (started (numbered 1 (opening ++ stopping))))
turn_history_example = turn_history "s" (numbered 1 (opening ++ stopping)) stopped all_folds

open_turn-Ledger_example : Ledger begun.open_turn begun.turns
open_turn-Ledger_example = open_turn-Ledger "s" (numbered 1 opening) begun opening_folds

abbrev running_turn : TurnRecord
running_turn = record {
  turn_id = "t1";
  origin = TurnOrigin.user;
  status = TurnStatus.running;
  started_at = "noon";
  ended_at = none;
  usage = none;
}

abbrev current : OpenTurn
current = record {
  turn_id = "t1";
  origin = TurnOrigin.user;
  input_ids = "i1" ∷ [];
  started_at = "noon";
  text = "";
}

turn_completes_example :
    apply_event begun (record { body = turn_completed ended; at = "one" })
    ≡ ok (record begun { open_turn = none; turns = end_record "one" ended running_turn ∷ [] })
unfolding fold_events fold_step apply_event apply_body accept_input change_input start_turn
    start_subagent assert_transition can_transition get put prune_inputs fingerprint empty_snapshot
    input_transitions move_subagent complete_turn complete_turns complete_one require_open_turn
    require_subagent subagent_transitions turn_transitions add_unique
turn_completes_example =
    turn_completes begun "one" ended current [] running_turn refl refl refl refl refl refl tt

empty-IsForest : IsForest (empty_snapshot "s").subagents
unfolding empty_snapshot get
empty-IsForest = record {
  keyed = λ id node h. absurd (ground arith);
  rooted = λ id node h. absurd (ground arith);
}

begun-IsForest : IsForest begun.subagents
begun-IsForest =
    (subagents-Progress (empty_snapshot "s") (numbered 1 opening) begun empty-IsForest
      opening_folds).0

subagents-Progress_example : IsForest stopped.subagents × Progress begun.subagents stopped.subagents
subagents-Progress_example =
    subagents-Progress begun (numbered 5 stopping) stopped begun-IsForest stopping_folds

interrupted_is_reported_example :
    Noticed "a1" (numbered 6 (turn_completed ended ∷ []))
    ⊎ (includes stopped.pending_interruptions.subagent_ids "a1" ≡ true)
interrupted_is_reported_example =
    interrupted_is_reported begun
      (record {
        session_id = "s";
        seq = 5;
        event = record { body = subagent_phase "a1" SubagentPhase.stopped none; at = "noon" };
      })
      (numbered 6 (turn_completed ended ∷ [])) stopped "a1" (refl, refl) stopping_folds

inputs-IsBounded_example : IsBounded stopped.inputs
inputs-IsBounded_example = inputs-IsBounded "s" (numbered 1 (opening ++ stopping)) stopped all_folds

abbrev waiting : InputRecord
waiting = record {
  input_id = "i1";
  delivery = InputDelivery.queue;
  state = InputState.queued;
  turn_id = none;
  text_length = text_length "go";
  fingerprint = fingerprint "go";
}

begun-IsBounded : IsBounded begun.inputs
begun-IsBounded = inputs-IsBounded "s" (numbered 1 opening) begun opening_folds

begun_waits : get "i1" begun.inputs ≡ some waiting
unfolding fold_events fold_step apply_event apply_body accept_input change_input start_turn
    start_subagent assert_transition can_transition get put prune_inputs fingerprint empty_snapshot
    input_transitions move_subagent complete_turn complete_turns complete_one require_open_turn
    require_subagent subagent_transitions turn_transitions add_unique
begun_waits = refl

live_input_kept_example :
    Ended "i1" (numbered 5 stopping) ⊎ Waits stopped.inputs "i1" InputState.queued
live_input_kept_example =
    live_input_kept begun (numbered 5 stopping) stopped "i1" waiting begun-IsBounded stopping_folds
      begun_waits refl

abbrev owed : InterruptionNotice
owed = notice stopped ("a1" ∷ []) []

stopped_owes : build_interruption_notice stopped ≡ some owed
unfolding fold_events fold_step apply_event apply_body accept_input change_input start_turn
    start_subagent assert_transition can_transition get put prune_inputs fingerprint empty_snapshot
    input_transitions move_subagent complete_turn complete_turns complete_one require_open_turn
    require_subagent subagent_transitions turn_transitions add_unique build_interruption_notice
stopped_owes = refl

stopped_opened : stopped.status ≡ SessionStatus.opened
unfolding fold_events fold_step apply_event apply_body accept_input change_input start_turn
    start_subagent assert_transition can_transition get put prune_inputs fingerprint empty_snapshot
    input_transitions move_subagent complete_turn complete_turns complete_one require_open_turn
    require_subagent subagent_transitions turn_transitions add_unique
stopped_opened = refl

notice_once_example :
    (t : SessionSnapshot) × (apply_event stopped
        (record { body = notice_interruption ("a1" ∷ []) []; at = "one" })
      ≡ ok t)
    × (build_interruption_notice t ≡ none)
notice_once_example = notice_once stopped owed "one" stopped_opened stopped_owes

abbrev hide : String → String
hide text = "***"

abbrev hide_deep : Json → Json
hide_deep value = Json.null

redacted_journal-fold_example :
    erased (fold_events begun (map (redact_envelope hide hide_deep) (numbered 5 stopping)))
    ≡ erased (fold_events begun (numbered 5 stopping))
redacted_journal-fold_example =
    redacted_journal-fold hide hide_deep begun begun (numbered 5 stopping) refl
