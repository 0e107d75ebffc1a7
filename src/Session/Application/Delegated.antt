-- ===== src/Session/Application/Delegated.antt =====
-- src/agent-runtime/session/application/active-session.ts: the sub-agents that Core launched for a
-- session, as children of their own.
use Prim.Native.String.{◌++◌ as append}
use specrails_core.Prelude.{
  String, Bool, true, false, not, ◌&&◌, ◌||◌, Option, none, some, List, [], ◌∷◌, ◌++◌, same, str_eq,
  if◌then◌else◌,
}
use specrails_core.Prelude.Dict.{Dict, get, put, remove}
use specrails_core.Prelude.Texts.{slice, trim}
use specrails_core.Session.Types.{SessionErrorCode, SubagentKind, SubagentPhase, Usage, subagent_eq}
use specrails_core.Session.Events.{
  Billing, SessionEventBody, SubagentChannel, TurnEnd, subagent_output, subagent_phase,
  subagent_result, subagent_started, subagent_usage,
}
use specrails_core.Session.Snapshot.{SubagentNode}
use specrails_core.Session.Reducer.{is_closed}
use specrails_core.Session.OutputBuffer.{TextDelta, drain_subagent}
use specrails_core.Session.Drivers.Events.{SubagentText}
use specrails_core.Session.Application.Live.{
  Action, DelegatedResult, Deps, Live, choose, look, set, skip, throw, when, with_option, ◌⨾◌,
}
use specrails_core.Session.Application.Commit.{commit}
use specrails_core.Session.Application.Settlement.{after_subagent_change}
use specrails_core.Session.Application.TurnEvents.{buffer_delta}
use specrails_core.Session.Application.SubagentEvents.{given}

pub record DelegatedChild : Type 0 where
  pub subagent_id : String
  pub description : String
  pub agent_type : String
  pub prompt : String
  pub driver : String
  pub model : String

unfoldable pub delegated_started : Deps → DelegatedChild → Action
delegated_started deps child =
    choose (λ live. is_closed live.state.status) (throw SessionErrorCode.session_closed)
      (commit deps (
          subagent_started (record {
            subagent_id = child.subagent_id;
            parent_id = none;
            kind = SubagentKind.background;
            agent_type = some child.agent_type;
            description = child.description;
            prompt = some (slice 8000 child.prompt);
            delegated = some (record { driver = child.driver; model = child.model });
          })
          ∷ [])
        ⨾ after_subagent_change deps)

abbrev pub is_running_node : Option SubagentNode → Bool
is_running_node none = false
is_running_node (some node) = same node.phase SubagentPhase.running

-- A child that still runs in a session that is open.
abbrev pub is_heard : Live → String → Bool
is_heard live id =
    not (is_closed live.state.status) && is_running_node (get id live.state.subagents)

abbrev pub delegated_said : Deps → String → SubagentText → Action
delegated_said deps id (SubagentText.text delta) = buffer_delta deps (TextDelta.subagent id delta)
delegated_said deps id (SubagentText.tool tool) =
    commit deps (subagent_output id SubagentChannel.tool none (some tool) ∷ [])

unfoldable pub delegated_output : Deps → String → SubagentText → Action
delegated_output deps id said = when (λ live. is_heard live id) (delegated_said deps id said)

pub record ChildOutcome : Type 0 where
  pub status : TurnEnd
  pub text : String
  pub usage : Option Usage
  pub reason : Option String
  pub collected : Bool

abbrev pub child_phase : TurnEnd → SubagentPhase
child_phase TurnEnd.completed = SubagentPhase.idle
child_phase TurnEnd.failed = SubagentPhase.failed
child_phase TurnEnd.interrupted = SubagentPhase.interrupted
child_phase TurnEnd.stopped = SubagentPhase.stopped

abbrev pub status_name : TurnEnd → String
status_name TurnEnd.completed = "completed"
status_name TurnEnd.failed = "failed"
status_name TurnEnd.interrupted = "interrupted"
status_name TurnEnd.stopped = "stopped"

-- The name of the phase: that of the status, but for a child that is idle.
abbrev pub phase_name : TurnEnd → String
phase_name TurnEnd.completed = "idle"
phase_name status = status_name status

abbrev pub is_completed : TurnEnd → Bool
is_completed TurnEnd.completed = true
is_completed _ = false

abbrev pub usage_bodies : String → Option Usage → List SessionEventBody
usage_bodies id none = []
usage_bodies id (some usage) =
    subagent_usage (record {
      subagent_id = id;
      usage = usage;
      tool_uses = none;
      duration_ms = none;
      billing = some Billing.separate;
    })
    ∷ []

abbrev pub result_bodies : String → String → List SessionEventBody
result_bodies id result =
    if str_eq result "" then [] else subagent_result id (slice 4096 result) ∷ []

abbrev pub finished_bodies : Live → String → ChildOutcome → List SessionEventBody
finished_bodies live id outcome =
    (drain_subagent live.output id).1
    ++ (usage_bodies id outcome.usage
        ++ (result_bodies id (trim outcome.text)
            ++ (subagent_phase id (child_phase outcome.status) (given outcome.reason) ∷ [])))

abbrev pub or_name : Option String → String → String
or_name none name = name
or_name (some reason) name = reason

-- What the agent is told of a child whose result nobody collected.
abbrev pub result_text : ChildOutcome → String
result_text outcome =
    let result = trim outcome.text in
    if str_eq result ""
    then append "It ended without a result ("
        (append (or_name outcome.reason (phase_name outcome.status)) ").")
    else result

abbrev pub is_news : ChildOutcome → Bool
is_news outcome =
    not outcome.collected
    && (not (str_eq (trim outcome.text) "") || not (is_completed outcome.status))

abbrev pub with_result : Live → String → SubagentNode → ChildOutcome → Dict DelegatedResult
with_result live id node outcome =
    put id
      (record {
        description = node.description;
        status = status_name outcome.status;
        result = result_text outcome;
      })
      live.delegated_results

unfoldable pub finish_child : Deps → String → ChildOutcome → SubagentNode → Action
finish_child deps id outcome node =
    look (λ live.
      set (λ now. record now { output = (drain_subagent live.output id).0 })
      ⨾ commit deps (finished_bodies live id outcome))
    ⨾ when (λ live. is_news outcome)
        (set (λ live. record live { delegated_results = with_result live id node outcome }))
    ⨾ after_subagent_change deps

unfoldable pub delegated_finished : Deps → String → ChildOutcome → Action
delegated_finished deps id outcome = look (λ before.
    with_option (get id before.state.subagents) skip
      (λ node. when (λ live. is_heard live id) (finish_child deps id outcome node)))

abbrev pub without_results : List String → Dict DelegatedResult → Dict DelegatedResult
without_results [] results = results
without_results (id ∷ ids) results = without_results ids (remove id results)

-- A host received these results through a wait.
unfoldable pub collect_delegated : List String → Action
collect_delegated ids =
    set (λ live. record live { delegated_results = without_results ids live.delegated_results })
