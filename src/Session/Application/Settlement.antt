-- ===== src/Session/Application/Settlement.antt =====
-- src/agent-runtime/session/application/active-session.ts: phases, and what happens when the
-- sub-agents settle. The delays of the timers are outside.
use Prim.Native.String.{◌++◌ as append}
use specrails_core.Prelude.{
  ℕ, suc, String, Bool, true, false, not, ◌&&◌, ◌||◌, Option, none, some, List, [], ◌∷◌, ◌++◌, ltb,
  ◌==◌, keep, length, is_some, or_else, same, if◌then◌else◌,
}
use specrails_core.Prelude.Dict.{get, includes, values}
use specrails_core.Prelude.Texts.{decimal}
use specrails_core.Session.Types.{
  InputDelivery, OnSettled, SessionPhase, SubagentPhase, phase_eq, subagent_eq,
}
use specrails_core.Session.Events.{
  SessionChanges, UpdateOutcome, input_accepted, session_phase, session_updated, subagents_settled,
}
use specrails_core.Session.Snapshot.{SubagentNode}
use specrails_core.Session.Reducer.{is_closed, live_subagents}
use specrails_core.Session.Policy.{subagents_active}
use specrails_core.Session.Application.Live.{
  Action, DelegatedResult, Deps, InputOrigin, Live, Request, SessionConfig, arm_timer,
  cancel_timers, choose, detached, ensure_timer, look, ask, set, when, with_option, ◌⨾◌,
}
use specrails_core.Session.Application.Commit.{commit}
use specrails_core.Session.Application.Work.{begin_retire, has_any, interrupted_by}

abbrev pub process_alive : Live → Bool
process_alive live = live.has_driver || live.is_opening

abbrev pub or_keep : Option String → String → String
or_keep none old = old
or_keep (some new) old = new

abbrev pub changed_config : SessionConfig → SessionChanges → SessionConfig
changed_config config changes = record config {
  model = or_keep changes.model config.model;
  effort = or_else changes.effort config.effort;
  system_prompt = or_else changes.system_prompt config.system_prompt;
  policy = elim changes.policy [ some policy ↦ policy | none ↦ config.policy ];
}

-- `applyChanges`: the flags of a provider are fixed when it starts.
unfoldable pub apply_changes : Deps → SessionChanges → Action
apply_changes deps changes =
    set (λ live. record live { config = changed_config live.config changes })
    ⨾ commit deps (session_updated changes UpdateOutcome.applied ∷ [])
    ⨾ when process_alive (begin_retire "config_change" (interrupted_by "config_change"))

unfoldable pub enter_idle : Deps → Action
enter_idle deps =
    cancel_timers ("stall" ∷ "backgroundMax" ∷ [])
    ⨾ look (λ live.
      with_option live.pending_deferred (when process_alive (arm_timer "idle")) (λ changes.
        set (λ now. record now { pending_deferred = none })
        ⨾ detached (apply_changes deps changes)))

unfoldable pub enter_background : Action
enter_background = arm_timer "stall" ⨾ ensure_timer "backgroundMax"

abbrev pub node_ids : List SubagentNode → List String
node_ids [] = []
node_ids (node ∷ nodes) = node.subagent_id ∷ node_ids nodes

abbrev pub is_idle_node : Option SubagentNode → Bool
is_idle_node none = false
is_idle_node (some node) = same node.phase SubagentPhase.idle

-- `new Set(ids).size`
abbrev pub count_distinct : List String → ℕ
count_distinct [] = 0
count_distinct (id ∷ ids) =
    let rest = count_distinct ids in if includes ids id then rest else suc rest

-- Running in our tree and, when the provider reports a roster, still on it.
abbrev pub live_count : Live → ℕ
live_count live =
    let running = node_ids (live_subagents live.state) in
    elim live.roster [
      | none ↦ length running
      | some roster ↦
          count_distinct
            (running ++ keep (λ id. not (is_idle_node (get id live.state.subagents))) roster)
    ]

unfoldable pub after_subagent_change : Deps → Action
after_subagent_change deps = look (λ live.
    choose (λ now. ltb 0 (live_count live))
      (cancel_timers ("settle" ∷ "idle" ∷ [])
        ⨾ when (λ now. now.state.settled.settled || not (now.state.settled.live == live_count live))
            (commit deps (subagents_settled false (live_count live) ∷ []))
        ⨾ when (λ now. same now.state.phase SessionPhase.idle && not (is_some now.state.open_turn))
            (commit deps (session_phase SessionPhase.background ∷ []) ⨾ enter_background))
      (when (λ now. not now.state.settled.settled) (arm_timer "settle")))

abbrev pub collect_prompt : String
collect_prompt =
    append "[Specrails session] Your sub-agents have finished. "
      "Collect their results (for example with your wait/agent tools), then continue the task or report back to the user."

abbrev pub result_lines : ℕ → List DelegatedResult → String → String
result_lines n [] end = end
result_lines n (item ∷ items) end = append "\n\n" (
    append (decimal n) (
      append ". " (
        append item.description (
          append " (" (
            append item.status
              (append ")\n" (append item.result (result_lines (suc n) items end))))))))

abbrev pub delegated_results_prompt : List DelegatedResult → String
delegated_results_prompt results =
    append "[Specrails session] Sub-agents you delegated have finished. Their results:" (
      result_lines 1 results
        "\n\nContinue the task with these results, or report back to the user.")

-- An input that the session writes on its own.
unfoldable pub hand_off : Deps → String → Action
hand_off deps text =
    set (λ live. record live {
      handoffs = suc live.handoffs;
      system_input_ids = live.system_input_ids ++ (deps.input_id ∷ []);
    })
    ⨾ commit deps (
        input_accepted (record {
          input_id = deps.input_id;
          delivery = InputDelivery.queue;
          text = text;
          attachments = none;
        })
        ∷ [])
    ⨾ ask (
        Request.deliver (record {
          input_id = deps.input_id;
          text = text;
          delivery = InputDelivery.queue;
          origin = InputOrigin.system;
          attachments = none;
        }))

abbrev pub may_resume : Live → Bool
may_resume live =
    subagents_active live.config.policy live.descriptor
    && elim live.config.policy.on_subagents_settled [ OnSettled.resume_agent ↦ true | _ ↦ false ]
    && has_any live.finished_since_last_turn
    && ltb live.handoffs live.config.policy.limits.max_settle_handoffs
    && live.has_driver
    && not (is_some live.pending_interrupt)

unfoldable pub maybe_resume_agent : Deps → Action
maybe_resume_agent deps = when may_resume (hand_off deps collect_prompt)

abbrev pub may_deliver : Live → Bool
may_deliver live =
    has_any live.delegated_results
    && not (is_some live.state.open_turn)
    && not (is_closed live.state.status)
    && not live.closing
    && not (is_some live.pending_interrupt)
    && ltb live.handoffs live.config.policy.limits.max_settle_handoffs

-- Gives the agent the results that it has not seen.
unfoldable pub deliver_delegated_results : Deps → Action
deliver_delegated_results deps = look (λ live.
    set (λ now. record now { delegated_results = [] })
    ⨾ hand_off deps (delegated_results_prompt (values live.delegated_results)))

unfoldable pub on_settled : Deps → Action
on_settled deps =
    when (λ live. not (ltb 0 (live_count live)) && not (is_closed live.state.status))
      (commit deps (subagents_settled true 0 ∷ [])
        ⨾ when (λ live. not (is_some live.state.open_turn))
            (when (λ live. same live.state.phase SessionPhase.background)
                (commit deps (session_phase SessionPhase.idle ∷ []) ⨾ enter_idle deps)
              ⨾ choose may_deliver (deliver_delegated_results deps) (maybe_resume_agent deps)))

abbrev pub phase_after_turn : ℕ → SessionPhase
phase_after_turn live = if ltb 0 live then SessionPhase.background else SessionPhase.idle

unfoldable pub settle_phase_after_turn : Deps → Action
settle_phase_after_turn deps = look (λ before.
    commit deps (session_phase (phase_after_turn (length (live_subagents before.state))) ∷ [])
    ⨾ choose (λ live. ltb 0 (length (live_subagents before.state))) enter_background
        (enter_idle deps)
    ⨾ choose
        (λ live. not live.state.settled.settled && not (is_some (get "settle" live.timers.armed)))
        (after_subagent_change deps)
        (when (λ live. length (live_subagents before.state) == 0 && may_deliver live)
          (deliver_delegated_results deps)))
