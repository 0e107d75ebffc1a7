-- ===== src/Session/Application/Work.antt =====
-- src/agent-runtime/session/application/active-session.ts: ending what runs, and retiring the
-- process of a provider.
use specrails_core.Prelude.{
  ℕ, String, Bool, true, false, not, ◌&&◌, ◌||◌, Option, none, some, List, [], ◌∷◌, ◌++◌, any,
  is_some, same, if◌then◌else◌,
}
use specrails_core.Prelude.Dict.{includes, values}
use specrails_core.Session.Types.{SessionPhase, InputState, SubagentPhase, phase_eq, empty_usage}
use specrails_core.Session.Events.{
  InputMove, ProcessState, SessionEventBody, TurnEnd, input_state, session_closed, session_phase,
  session_process, subagent_phase, subagents_settled, turn_completed,
}
use specrails_core.Session.Snapshot.{InputRecord, OpenTurn, SessionSnapshot, SubagentNode}
use specrails_core.Session.Reducer.{live_subagents}
use specrails_core.Session.OutputBuffer.{OutputBuffer, drain_subagent, drain_turn, has_pending}
use specrails_core.Session.Timers.{cancel_all}
use specrails_core.Session.Application.Live.{
  Action, Deps, Live, Request, Teardown, cancel_timers, look, ask, set, when, ◌⨾◌,
}
use specrails_core.Session.Application.Commit.{commit, commit_flushed}

-- Bodies, and the buffer after what was drained for them.
abbrev pub Drawn : Type 0
Drawn = OutputBuffer × List SessionEventBody

abbrev pub closed_turn : Teardown → OutputBuffer → Option OpenTurn → Drawn
closed_turn teardown output none = (output, [])
closed_turn teardown output (some turn) = (
  (drain_turn output turn.turn_id).0,
  (drain_turn output turn.turn_id).1
      ++ (turn_completed (record {
        turn_id = turn.turn_id;
        status = teardown.turn_status;
        text = turn.text;
        error = teardown.error;
        usage = empty_usage;
      })
          ∷ []),
)

abbrev pub is_running : SubagentNode → Bool
is_running node = elim node.phase [ SubagentPhase.running ↦ true | _ ↦ false ]

abbrev pub is_running_or_idle : SubagentNode → Bool
is_running_or_idle node = elim node.phase [
  | SubagentPhase.running ↦ true
  | SubagentPhase.idle ↦ true
  | _ ↦ false
]

-- Only a running sub-agent was cut short.
abbrev pub cut_short : Teardown → SubagentNode → List SessionEventBody
cut_short teardown node =
    if is_running node
    then subagent_phase node.subagent_id teardown.subagent_phase (some teardown.reason) ∷ []
    else []

abbrev pub is_own : SubagentNode → Bool
is_own node = not (is_some node.delegated)

-- A delegated sub-agent outlives the process of the provider.
abbrev pub ended_subagents : Teardown → OutputBuffer → List SubagentNode → Drawn
ended_subagents teardown output [] = (output, [])
ended_subagents teardown output (node ∷ nodes) =
    let drained = drain_subagent output node.subagent_id in
    let rest_after = ended_subagents teardown drained.0 nodes in
    let rest = ended_subagents teardown output nodes in
    if is_own node && is_running_or_idle node
    then (rest_after.0, cut_short teardown node ++ (drained.1 ++ rest_after.1))
    else rest

abbrev pub input_moves : InputRecord → InputMove → Option String → Option String → SessionEventBody
input_moves input state turn_id reason =
    input_state
      (record { input_id = input.input_id; state = state; turn_id = turn_id; reason = reason })

abbrev pub ended_input : Teardown → InputRecord → List SessionEventBody
ended_input teardown input =
    if includes teardown.keep_input_ids input.input_id then [] else elim input.state [
      | InputState.started ↦
          (if teardown.complete_started
            then input_moves input InputMove.completed input.turn_id none
            else input_moves input InputMove.interrupted none (some teardown.reason))
          ∷ []
      | InputState.accepted ↦
          input_moves input InputMove.interrupted none (some teardown.reason) ∷ []
      | InputState.queued ↦ input_moves input InputMove.interrupted none (some teardown.reason) ∷ []
      | _ ↦ []
    ]

abbrev pub ended_inputs : Teardown → List InputRecord → List SessionEventBody
ended_inputs teardown [] = []
ended_inputs teardown (input ∷ inputs) = ended_input teardown input ++ ended_inputs teardown inputs

-- Running sub-agents that Core launched.
abbrev pub delegated_ids : List SubagentNode → List String
delegated_ids [] = []
delegated_ids (node ∷ nodes) =
    let rest = delegated_ids nodes in
    if is_some node.delegated then node.subagent_id ∷ rest else rest

abbrev pub delegated_live : SessionSnapshot → List String
delegated_live s = delegated_ids (live_subagents s)

abbrev pub has_any {ℓ} : {A : Type ℓ} → List A → Bool
has_any list = any (λ x. true) list

abbrev pub next_phase : SessionSnapshot → SessionPhase
next_phase s = if has_any (delegated_live s) then SessionPhase.background else SessionPhase.idle

abbrev pub ended_phase : SessionSnapshot → List SessionEventBody
ended_phase s =
    if not (same s.phase (next_phase s)) || is_some s.open_turn
    then session_phase (next_phase s) ∷ []
    else []

abbrev pub ended_settled : SessionSnapshot → List SessionEventBody
ended_settled s =
    if not (has_any (delegated_live s)) && not s.settled.settled
    then subagents_settled true 0 ∷ []
    else []

-- The bodies that `endRunningWork` commits, and the buffer that it leaves.
abbrev pub ended_work : Teardown → Live → Drawn
ended_work teardown live =
    let s = live.state in
    let turn = closed_turn teardown live.output s.open_turn in
    let subagents = ended_subagents teardown turn.0 (values s.subagents) in
    (
      subagents.0,
      turn.1
          ++ (subagents.1
              ++ (ended_inputs teardown (values s.inputs) ++ (ended_phase s ++ ended_settled s))),
    )

unfoldable pub end_running_work : Deps → Teardown → Action
end_running_work deps teardown =
    when (λ live. has_pending live.output) (cancel_timers ("flush" ∷ []) ⨾ commit_flushed deps)
    ⨾ look (λ live.
      set (λ now. record now {
        output = (ended_work teardown live).0;
        held_inputs = [];
        interrupt_queue = [];
        pending_interrupt = none;
        roster = none;
      })
      ⨾ when (λ now. has_any (ended_work teardown live).1)
          (commit deps (ended_work teardown live).1))

abbrev pub work_timers : List String
work_timers =
    "idle" ∷ "stall" ∷ "backgroundMax" ∷ "turnInactivity" ∷ "settle" ∷ "interruptGrace" ∷ []

-- `retire`, up to the point where it waits for the process to close.
unfoldable pub begin_retire : String → Teardown → Action
begin_retire reason teardown =
    cancel_timers work_timers
    ⨾ when (λ live. live.has_driver) (set (λ live. record live { closing = true }))
    ⨾ when (λ live. live.has_driver || live.is_opening) (ask (Request.retire reason teardown))

abbrev pub process_event : Live → ProcessState → String → Option ℕ → SessionEventBody
process_event live state reason exit_code = session_process (record {
  state = state;
  generation = live.generation;
  reason = some reason;
  exit_code = exit_code;
})

-- `retire`, once the process is closed.
unfoldable pub finish_retire : Deps → String → Teardown → Action
finish_retire deps reason teardown =
    set (λ live. record live { closing = false; has_driver = false; live_generation = none })
    ⨾ end_running_work deps teardown
    ⨾ look (λ live. commit deps (process_event live ProcessState.retired reason none ∷ []))

abbrev pub stopped_by : String → Teardown
stopped_by reason = record {
  turn_status = TurnEnd.stopped;
  subagent_phase = SubagentPhase.stopped;
  reason = reason;
  error = none;
  keep_input_ids = [];
  complete_started = false;
}

abbrev pub interrupted_by : String → Teardown
interrupted_by reason = record {
  turn_status = TurnEnd.interrupted;
  subagent_phase = SubagentPhase.interrupted;
  reason = reason;
  error = none;
  keep_input_ids = [];
  complete_started = false;
}

abbrev pub exited_by : String → Teardown
exited_by error = record {
  turn_status = TurnEnd.failed;
  subagent_phase = SubagentPhase.interrupted;
  reason = "crashed";
  error = some error;
  keep_input_ids = [];
  complete_started = false;
}

-- `close`, after `retire`.
unfoldable pub finish_close : Deps → String → Action
finish_close deps reason =
    commit deps (session_closed reason ∷ [])
    ⨾ set (λ live. record live { timers = cancel_all live.timers })

abbrev pub interrupted_all : String → List String → List SessionEventBody
interrupted_all reason [] = []
interrupted_all reason (id ∷ ids) =
    subagent_phase id SubagentPhase.interrupted (some reason) ∷ interrupted_all reason ids

-- `recoverAfterHostLoss`: delegated children ran in the host that is gone.
unfoldable pub recover_after_host_loss : Deps → String → Action
recover_after_host_loss deps reason = look (λ before.
    when (λ live. has_any (delegated_live live.state))
      (commit deps (interrupted_all reason (delegated_live before.state)))
    ⨾ end_running_work deps (interrupted_by reason)
    ⨾ when (λ live. before.state.process.alive)
        (look (λ live. commit deps (
          session_process (record {
            state = ProcessState.exited;
            generation = live.state.process.generation;
            reason = some reason;
            exit_code = none;
          })
          ∷ []))))
