-- ===== src/Session/Application/Turns.antt =====
-- src/agent-runtime/session/application/active-session.ts: the start and the end of a turn.
use specrails_core.Prelude.{
  String, Bool, true, false, not, ◌&&◌, ◌||◌, Option, none, some, List, [], ◌∷◌, ◌++◌, any, all,
  is_some, same, str_eq, if◌then◌else◌,
}
use specrails_core.Prelude.Dict.{includes, values}
use specrails_core.Session.Types.{
  InputDelivery, InputState, SessionErrorCode, SessionPhase, TurnOrigin, Usage, phase_eq, input_eq,
}
use specrails_core.Session.Events.{
  InputMove, SessionEventBody, TurnEnd, session_phase, turn_completed, turn_started,
}
use specrails_core.Session.Snapshot.{InputRecord, OpenTurn}
use specrails_core.Session.Usage.{
  ReportedUsage, TurnUsageResult, UsageBaseline, compute_turn_usage, with_estimated_cost,
}
use specrails_core.Session.OutputBuffer.{drain_turn, has_pending}
use specrails_core.Session.Drivers.Events.{DriverTurn, DriverTurnStatus, TurnTrigger}
use specrails_core.Session.Application.Live.{
  Action, Deps, DriverInput, Live, PendingInterrupt, Request, TextSegment, arm_timer, cancel_timers,
  choose, look, ask, set, skip, throw, when, with_option, ◌⨾◌,
}
use specrails_core.Session.Application.Commit.{commit, commit_flushed, commit_with}
use specrails_core.Session.Application.Work.{has_any, input_moves}
use specrails_core.Session.Application.Settlement.{settle_phase_after_turn}

abbrev pub is_system_turn : Live → List String → Bool
is_system_turn live input_ids =
    has_any input_ids && all (λ id. includes live.system_input_ids id) input_ids

abbrev pub origin_of : Live → TurnTrigger → List String → TurnOrigin
origin_of live TurnTrigger.continuation input_ids = TurnOrigin.subagent
origin_of live TurnTrigger.input input_ids =
    if is_system_turn live input_ids then TurnOrigin.system else TurnOrigin.user

abbrev pub is_user : TurnOrigin → Bool
is_user TurnOrigin.user = true
is_user _ = false

-- The sub-agents that finished since the last turn, where the user did not start this one.
abbrev pub triggered_by : TurnOrigin → List String → Option (List String)
triggered_by origin finished =
    if is_user origin then none else (if has_any finished then some finished else none)

abbrev pub names_one : List String → List DriverInput → Bool
names_one input_ids inputs = any (λ (input : DriverInput). includes input_ids input.input_id) inputs

-- The interrupt that waits, unless one of its inputs starts the turn.
abbrev pub kept_interrupt : List String → Option PendingInterrupt → Option PendingInterrupt
kept_interrupt input_ids none = none
kept_interrupt input_ids (some pending) =
    if names_one input_ids pending.inputs then none else some pending

abbrev pub phase_to_turn : SessionPhase → List SessionEventBody
phase_to_turn phase =
    if same phase SessionPhase.turn then [] else session_phase SessionPhase.turn ∷ []

unfoldable pub begin_turn : Deps → TurnTrigger → List String → Action
begin_turn deps trigger input_ids = look (λ live.
    let origin = origin_of live trigger input_ids in
    set (λ now. record now {
      last_user_turn_at = if is_user origin then some deps.now else now.last_user_turn_at;
      handoffs = if is_user origin then 0 else now.handoffs;
      finished_since_last_turn = [];
      text_segment = TextSegment.nothing;
      pending_interrupt = kept_interrupt input_ids now.pending_interrupt;
    })
    ⨾ cancel_timers ("idle" ∷ "stall" ∷ [])
    ⨾ commit deps (
        phase_to_turn live.state.phase
        ++ (turn_started (record {
          turn_id = deps.turn_id;
          origin = origin;
          input_ids = input_ids;
          trigger = triggered_by origin live.finished_since_last_turn;
        })
            ∷ []))
    ⨾ arm_timer "turnInactivity")

-- `startTurn`
unfoldable pub start_live_turn : Deps → TurnTrigger → List String → Action
start_live_turn deps trigger input_ids =
    choose (λ live. is_some live.state.open_turn) (throw SessionErrorCode.illegal_transition)
      (begin_turn deps trigger input_ids)

-- A stop that the session asked for, to run an interrupting input, is an interruption.
abbrev pub end_status : DriverTurnStatus → Bool → TurnEnd
end_status DriverTurnStatus.completed is_cut = TurnEnd.completed
end_status DriverTurnStatus.failed is_cut = TurnEnd.failed
end_status DriverTurnStatus.stopped is_cut = if is_cut then TurnEnd.interrupted else TurnEnd.stopped

abbrev pub is_cut_turn : Option PendingInterrupt → String → Bool
is_cut_turn none turn_id = false
is_cut_turn (some pending) turn_id = str_eq pending.turn_id turn_id

abbrev pub turn_text : Option OpenTurn → String
turn_text none = ""
turn_text (some turn) = turn.text

abbrev pub is_interrupted : TurnEnd → Bool
is_interrupted TurnEnd.interrupted = true
is_interrupted _ = false

-- The text of a cut turn is what it streamed, where the provider reports none.
abbrev pub end_text : String → TurnEnd → Option OpenTurn → String
end_text reported status turn =
    if not (str_eq reported "")
    then reported
    else (if is_interrupted status then turn_text turn else "")

abbrev pub usage_result : Live → ReportedUsage → TurnUsageResult
usage_result live reported =
    compute_turn_usage live.descriptor.capabilities.usage live.baseline reported

abbrev pub or_model : Option String → String → String
or_model none model = model
or_model (some model) default = model

abbrev pub estimated_usage : Deps → Live → ReportedUsage → Usage
estimated_usage deps live reported =
    let usage = (usage_result live reported).usage in
    with_estimated_cost usage
      (deps.rate_card live.descriptor.id (or_model usage.model live.config.model))

abbrev pub baseline_option : Live → ReportedUsage → Option (String × UsageBaseline)
baseline_option live reported = elim live.state.provider_session_ref [
  | none ↦ none
  | some ref ↦ some (ref, (usage_result live reported).baseline)
]

abbrev pub is_of_turn : InputRecord → List String → String → Bool
is_of_turn input input_ids turn_id =
    includes input_ids input.input_id
    || elim input.turn_id [ some id ↦ str_eq id turn_id | none ↦ false ]

-- Started inputs of the turn: the ones that opened it and the ones steered into it.
abbrev pub completed_inputs : List InputRecord → List String → String → List SessionEventBody
completed_inputs [] input_ids turn_id = []
completed_inputs (input ∷ inputs) input_ids turn_id =
    let rest = completed_inputs inputs input_ids turn_id in
    if same input.state InputState.started && is_of_turn input input_ids turn_id
    then input_moves input InputMove.completed (some turn_id) none ∷ rest
    else rest

abbrev pub end_bodies : Live → DriverTurn → OpenTurn → TurnEnd → Usage → List SessionEventBody
end_bodies live e turn status usage =
    (drain_turn live.output turn.turn_id).1
    ++ (turn_completed (record {
      turn_id = turn.turn_id;
      status = status;
      text = end_text e.text status live.state.open_turn;
      error = e.error;
      usage = usage;
    })
        ∷ completed_inputs (values live.state.inputs) turn.input_ids turn.turn_id)

-- The next input of those that were held back, the interrupting ones first.
abbrev pub next_held : List DriverInput → List DriverInput → Option DriverInput
next_held (input ∷ inputs) held = some input
next_held [] (input ∷ held) = some input
next_held [] [] = none

abbrev pub rest_of : List DriverInput → List DriverInput
rest_of [] = []
rest_of (input ∷ inputs) = inputs

abbrev pub as_queued : DriverInput → DriverInput
as_queued input = record input {
  delivery = elim input.delivery [ InputDelivery.interrupt ↦ InputDelivery.queue | other ↦ other ];
}

unfoldable pub release_held_input : Action
release_held_input =
    when (λ live. not (is_some live.state.open_turn))
      (look (λ live.
        set (λ now. record now {
          held_inputs =
              if has_any now.interrupt_queue then now.held_inputs else rest_of now.held_inputs;
          interrupt_queue = rest_of now.interrupt_queue;
        })
        ⨾ with_option (next_held live.interrupt_queue live.held_inputs) skip
            (λ input. ask (Request.deliver (as_queued input)))))

-- What follows the deltas that were still buffered.
unfoldable pub finish_turn : Deps → DriverTurn → OpenTurn → TurnEnd → Action
finish_turn deps e turn status =
    look (λ live.
      set (λ now. record now {
        baseline = (usage_result live e.usage).baseline;
        output = (drain_turn live.output turn.turn_id).0;
      })
      ⨾ commit_with deps (baseline_option live e.usage)
          (end_bodies live e turn status (estimated_usage deps live e.usage)))
    ⨾ settle_phase_after_turn deps
    ⨾ release_held_input

-- `completeTurn`
unfoldable pub complete_live_turn : Deps → DriverTurn → Action
complete_live_turn deps e = look (λ before.
    with_option before.state.open_turn (throw SessionErrorCode.illegal_transition) (λ turn.
      cancel_timers ("turnInactivity" ∷ "interruptGrace" ∷ [])
      ⨾ set (λ live. record live { tools_in_flight = [] })
      ⨾ when (λ live. has_pending live.output) (cancel_timers ("flush" ∷ []) ⨾ commit_flushed deps)
      ⨾ finish_turn deps e turn
          (end_status e.status (is_cut_turn before.pending_interrupt turn.turn_id))))
