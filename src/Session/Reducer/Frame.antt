-- ===== src/Session/Reducer/Frame.antt =====
-- What an event leaves alone: the cases of `applyEvent` by the part of the snapshot they write.
use specrails_core.Prelude.{String, Bool, true, false, ◌≡◌, ok, arith}
use specrails_core.Session.Types.{phase_eq, turn_eq, input_eq, subagent_eq}
use specrails_core.Session.Events.{
  SessionEventBody, session_updated, input_accepted, input_state, turn_started, turn_output,
  turn_completed, subagent_started, subagent_phase, subagent_usage, subagent_result,
  notice_interruption, UpdateOutcome,
}
use specrails_core.Session.Reducer.{apply_body}
use specrails_core.Session.Snapshot.{SessionSnapshot}

abbrev pub writes_turns : SessionEventBody → Bool
writes_turns (turn_started e) = true
writes_turns (turn_output id channel delta) = true
writes_turns (turn_completed e) = true
writes_turns _ = false

abbrev pub writes_inputs : SessionEventBody → Bool
writes_inputs (input_accepted e) = true
writes_inputs (input_state e) = true
writes_inputs _ = false

abbrev pub writes_subagents : SessionEventBody → Bool
writes_subagents (subagent_started e) = true
writes_subagents (subagent_phase id phase reason) = true
writes_subagents (subagent_usage e) = true
writes_subagents (subagent_result id summary) = true
writes_subagents _ = false

abbrev pub writes_pending : SessionEventBody → Bool
writes_pending (input_state e) = true
writes_pending (subagent_phase id phase reason) = true
writes_pending (notice_interruption subagents inputs) = true
writes_pending _ = false

pub turns_frame :
    (s : SessionSnapshot) (at : String) (e : SessionEventBody) (t : SessionSnapshot)
    → writes_turns e ≡ false
    → apply_body s at e ≡ ok t
    → (t.open_turn ≡ s.open_turn) × (t.turns ≡ s.turns)
unfolding apply_body
turns_frame s at (session_updated changes UpdateOutcome.applied) t w h = ground arith
turns_frame s at (session_updated changes UpdateOutcome.deferred) t w h = ground arith
turns_frame s at _ t w h = ground arith

pub inputs_frame :
    (s : SessionSnapshot) (at : String) (e : SessionEventBody) (t : SessionSnapshot)
    → writes_inputs e ≡ false
    → apply_body s at e ≡ ok t
    → t.inputs ≡ s.inputs
unfolding apply_body
inputs_frame s at (session_updated changes UpdateOutcome.applied) t w h = ground arith
inputs_frame s at (session_updated changes UpdateOutcome.deferred) t w h = ground arith
inputs_frame s at _ t w h = ground arith

pub subagents_frame :
    (s : SessionSnapshot) (at : String) (e : SessionEventBody) (t : SessionSnapshot)
    → writes_subagents e ≡ false
    → apply_body s at e ≡ ok t
    → t.subagents ≡ s.subagents
unfolding apply_body
subagents_frame s at (session_updated changes UpdateOutcome.applied) t w h = ground arith
subagents_frame s at (session_updated changes UpdateOutcome.deferred) t w h = ground arith
subagents_frame s at _ t w h = ground arith

pub pending_frame :
    (s : SessionSnapshot) (at : String) (e : SessionEventBody) (t : SessionSnapshot)
    → writes_pending e ≡ false
    → apply_body s at e ≡ ok t
    → t.pending_interruptions ≡ s.pending_interruptions
unfolding apply_body
pending_frame s at (session_updated changes UpdateOutcome.applied) t w h = ground arith
pending_frame s at (session_updated changes UpdateOutcome.deferred) t w h = ground arith
pending_frame s at _ t w h = ground arith
