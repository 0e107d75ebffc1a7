-- ===== src/Session/Application/Handlers.antt =====
-- src/agent-runtime/session/application/active-session.ts: the events of a driver.
use specrails_core.Prelude.{ℕ, String, Bool, false, not, ◌&&◌, ◌==◌, Option, none, some, [], ◌∷◌}
use specrails_core.Prelude.Texts.{slice}
use specrails_core.Session.Types.{SessionErrorCode, phase_eq, input_eq, subagent_eq}
use specrails_core.Session.Events.{DiagnosticLevel, subagent_result}
use specrails_core.Session.Reducer.{is_closed}
use specrails_core.Session.Drivers.Events.{DriverEvent}
use specrails_core.Session.Application.Live.{Action, Deps, skip, throw, when, with_option, ◌⨾◌}
use specrails_core.Session.Application.Commit.{commit}
use specrails_core.Session.Application.Turns.{complete_live_turn, start_live_turn}
use specrails_core.Session.Application.TurnEvents.{
  track_tool_in_flight, mark_activity, diagnose, process_exited, new_ref, input_receipt,
  output_text, use_tool,
}
use specrails_core.Session.Application.SubagentEvents.{
  subagent_begins, subagent_moves, subagent_says, subagent_uses, new_roster, version_notes,
}

-- The `switch` of `handleDriverEvent`.
unfoldable pub handle_kind : Deps → DriverEvent → Action
handle_kind deps (DriverEvent.process_started pid version) = commit deps (version_notes version)
handle_kind deps (DriverEvent.process_exited exit_code signal) =
    process_exited deps exit_code signal
handle_kind deps (DriverEvent.provider_ref ref) = new_ref deps ref
handle_kind deps (DriverEvent.input_receipt id state reason) = input_receipt deps id state reason
handle_kind deps (DriverEvent.turn_started trigger input_ids) =
    start_live_turn deps trigger input_ids
handle_kind deps (DriverEvent.turn_output channel delta) = output_text deps channel delta
handle_kind deps (DriverEvent.turn_tool tool) = use_tool deps tool
handle_kind deps (DriverEvent.turn_completed e) = complete_live_turn deps e
handle_kind deps (DriverEvent.subagent_started e) = subagent_begins deps e
handle_kind deps (DriverEvent.subagent_phase id phase reason) = subagent_moves deps id phase reason
handle_kind deps (DriverEvent.subagent_output id said) = subagent_says deps id said
handle_kind deps (DriverEvent.subagent_usage e) = subagent_uses deps e
handle_kind deps (DriverEvent.subagent_result id summary) =
    commit deps (subagent_result id (slice 4096 summary) ∷ [])
handle_kind deps (DriverEvent.roster ids) = new_roster deps ids
handle_kind deps (DriverEvent.diagnostic level code message) =
    commit deps (diagnose level code (slice 2000 message))

unfoldable pub handle_driver_event : Deps → DriverEvent → Action
handle_driver_event deps event = track_tool_in_flight event ⨾ mark_activity ⨾ handle_kind deps event

abbrev pub is_generation : Option ℕ → ℕ → Bool
is_generation none generation = false
is_generation (some live) generation = generation == live

-- A refusal of the reducer becomes a diagnostic; the text of its message is left out.
abbrev pub refusal_code : SessionErrorCode → Option String
refusal_code SessionErrorCode.illegal_transition = some "illegal_transition"
refusal_code SessionErrorCode.input_conflict = some "input_conflict"
refusal_code _ = none

unfoldable pub report_refusal : Deps → SessionErrorCode → Action
report_refusal deps code =
    with_option (refusal_code code) (throw code)
      (λ name. commit deps (diagnose DiagnosticLevel.warning name ""))

-- `catch`
unfoldable pub caught : Action → (SessionErrorCode → Action) → Action
caught action recover live = let ran = action live in with_option ran.thrown skip recover ran.live

-- `onDriverEvent`: events of a retired process are ignored.
unfoldable pub on_driver_event : Deps → ℕ → DriverEvent → Action
on_driver_event deps generation event =
    when
      (λ live. is_generation live.live_generation generation && not (is_closed live.state.status))
      (caught (handle_driver_event deps event) (report_refusal deps))
