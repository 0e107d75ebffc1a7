-- ===== src/Session/Application/TurnEvents.antt =====
-- src/agent-runtime/session/application/active-session.ts: the events of a driver that tell of
-- inputs, text and tools.
use Prim.Native.String.{◌++◌ as append}
use specrails_core.Prelude.{
  ℕ, String, Bool, true, false, not, ◌&&◌, Option, none, some, List, [], ◌∷◌, keep, is_some, same,
  str_eq, if◌then◌else◌,
}
use specrails_core.Prelude.Dict.{get}
use specrails_core.Prelude.Texts.{codes, decimal, starts_line}
use specrails_core.Session.Types.{
  OutputChannel, SessionErrorCode, SessionPhase, phase_eq, input_eq, subagent_eq,
}
use specrails_core.Session.Events.{
  DiagnosticLevel, InputMove, ProcessState, SessionEventBody, ToolActivity, ToolPhase, input_state,
  moved_to, provider_diagnostic, session_provider_ref, turn_tool,
}
use specrails_core.Session.Snapshot.{OpenTurn, add_unique}
use specrails_core.Session.OutputBuffer.{TextDelta, add}
use specrails_core.Session.Drivers.Events.{DriverEvent, ReceiptState, SubagentText}
use specrails_core.Session.Application.Live.{
  Action, Deps, DriverInput, PendingInterrupt, TextSegment, arm_timer, cancel_timers, look, set,
  skip, throw, when, with_option, ◌⨾◌,
}
use specrails_core.Session.Application.Commit.{bodies_of, commit, commit_buffered}
use specrails_core.Session.Application.Work.{
  end_running_work, exited_by, has_any, process_event, work_timers,
}

abbrev pub removed : String → List String → List String
removed id ids = keep (λ other. not (str_eq other id)) ids

abbrev pub tool_of : DriverEvent → Option ToolActivity
tool_of (DriverEvent.turn_tool tool) = some tool
tool_of (DriverEvent.subagent_output id (SubagentText.tool tool)) = some tool
tool_of _ = none

abbrev pub tracked : ToolActivity → List String → List String
tracked tool ids = elim tool.phase [
  | ToolPhase.started ↦ add_unique ids tool.tool_use_id
  | ToolPhase.completed ↦ removed tool.tool_use_id ids
]

unfoldable pub track_tool_in_flight : DriverEvent → Action
track_tool_in_flight event = with_option (tool_of event) skip (λ tool.
    when (λ live. not (str_eq tool.tool_use_id ""))
      (set (λ live. record live { tools_in_flight = tracked tool live.tools_in_flight })))

unfoldable pub mark_activity : Action
mark_activity =
    when (λ live. is_some live.state.open_turn) (arm_timer "turnInactivity")
    ⨾ when (λ live. same live.state.phase SessionPhase.background) (arm_timer "stall")

abbrev pub diagnose : DiagnosticLevel → String → String → List SessionEventBody
diagnose level code message = provider_diagnostic level code message ∷ []

-- What is told of a process that went away.
abbrev pub exit_error : Option ℕ → Option String → String
exit_error exit_code signal = append "Provider process exited (code " (
    append (elim exit_code [ some n ↦ decimal n | none ↦ "none" ])
      (append (elim signal [ some name ↦ append ", signal " name | none ↦ "" ]) ")"))

unfoldable pub process_exited : Deps → Option ℕ → Option String → Action
process_exited deps exit_code signal =
    when (λ live. not live.closing)
      (set (λ live. record live { has_driver = false; live_generation = none })
        ⨾ cancel_timers work_timers
        ⨾ set (λ live. record live { tools_in_flight = [] })
        ⨾ end_running_work deps (exited_by (exit_error exit_code signal))
        ⨾ look
            (λ live. commit deps (process_event live ProcessState.exited "crashed" exit_code ∷ [])))

abbrev pub is_ref : Option String → String → Bool
is_ref none ref = false
is_ref (some known) ref = str_eq known ref

unfoldable pub new_ref : Deps → String → Action
new_ref deps ref =
    when (λ live. not (is_ref live.state.provider_session_ref ref))
      (look (λ live.
          with_option (get ref live.baselines) skip
            (λ baseline. set (λ now. record now { baseline = baseline })))
        ⨾ commit deps (session_provider_ref ref ∷ []))

abbrev pub receipt_move : ReceiptState → InputMove
receipt_move ReceiptState.queued = InputMove.queued
receipt_move ReceiptState.started = InputMove.started
receipt_move ReceiptState.completed = InputMove.completed
receipt_move ReceiptState.rejected = InputMove.rejected

abbrev pub others : String → List DriverInput → List DriverInput
others id inputs = keep (λ (input : DriverInput). not (str_eq input.input_id id)) inputs

abbrev pub forget_input : String → Option PendingInterrupt → Option PendingInterrupt
forget_input id none = none
forget_input id (some pending) =
    if has_any (others id pending.inputs)
    then some (record pending { inputs = others id pending.inputs })
    else none

-- `forgetPendingInterrupt([id])`
unfoldable pub forget_pending_interrupt : String → Action
forget_pending_interrupt id =
    set (λ live. record live { pending_interrupt = forget_input id live.pending_interrupt })

abbrev pub is_queued : ReceiptState → Bool
is_queued ReceiptState.queued = true
is_queued _ = false

abbrev pub is_rejected : ReceiptState → Bool
is_rejected ReceiptState.rejected = true
is_rejected _ = false

abbrev pub receipt_turn : Option OpenTurn → ReceiptState → Option String
receipt_turn none state = none
receipt_turn (some turn) state = if is_queued state then none else some turn.turn_id

unfoldable pub input_receipt : Deps → String → ReceiptState → Option String → Action
input_receipt deps id state reason = look (λ before.
    with_option (get id before.state.inputs) skip (λ input.
      when (λ live. not (same input.state (moved_to (receipt_move state))))
        (when (λ live. is_rejected state) (forget_pending_interrupt id)
          ⨾ commit deps (
              input_state (record {
                input_id = id;
                state = receipt_move state;
                turn_id = receipt_turn before.state.open_turn state;
                reason = reason;
              })
              ∷ []))))

-- The next text after a tool call starts a new paragraph.
abbrev pub is_broken : TextSegment → Bool
is_broken TextSegment.broken = true
is_broken _ = false

abbrev pub separated : TextSegment → String → String
separated segment delta =
    if is_broken segment && not (starts_line (codes delta)) then append "\n\n" delta else delta

abbrev pub is_text : OutputChannel → Bool
is_text OutputChannel.text = true
is_text OutputChannel.thinking = false

abbrev pub after_text : OutputChannel → TextSegment → TextSegment
after_text OutputChannel.text segment = TextSegment.whole
after_text OutputChannel.thinking segment = segment

-- `commitBuffered(output.add(delta))`
unfoldable pub buffer_delta : Deps → TextDelta → Action
buffer_delta deps delta = look (λ live.
    set (λ now. record now { output = (add deps.output_limits live.output delta).0 })
    ⨾ commit_buffered deps (bodies_of (add deps.output_limits live.output delta).1))

unfoldable pub output_text : Deps → OutputChannel → String → Action
output_text deps channel delta = look (λ live.
    with_option live.state.open_turn (throw SessionErrorCode.illegal_transition) (λ turn.
      set (λ now. record now { text_segment = after_text channel now.text_segment })
      ⨾ buffer_delta deps (
          TextDelta.turn turn.turn_id channel
            (if is_text channel then separated live.text_segment delta else delta))))

abbrev pub after_tool : TextSegment → TextSegment
after_tool TextSegment.whole = TextSegment.broken
after_tool segment = segment

unfoldable pub use_tool : Deps → ToolActivity → Action
use_tool deps tool = look (λ live.
    with_option live.state.open_turn (throw SessionErrorCode.illegal_transition) (λ turn.
      set (λ now. record now { text_segment = after_tool now.text_segment })
      ⨾ commit deps (turn_tool turn.turn_id tool ∷ [])))
