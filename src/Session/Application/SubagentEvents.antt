-- ===== src/Session/Application/SubagentEvents.antt =====
-- src/agent-runtime/session/application/active-session.ts: the events of a driver that tell of
-- sub-agents.
use Prim.Native.String.{◌++◌ as append}
use specrails_core.Prelude.{
  String, false, not, ◌&&◌, Option, none, some, List, [], ◌∷◌, is_some, same, str_eq, if◌then◌else◌,
}
use specrails_core.Prelude.Texts.{slice}
use specrails_core.Session.Types.{SubagentPhase, Usage, phase_eq, input_eq, subagent_eq}
use specrails_core.Session.Events.{
  DiagnosticLevel, SessionEventBody, SubagentChannel, subagent_output, subagent_phase,
  subagent_started, subagent_usage,
}
use specrails_core.Session.Snapshot.{add_unique}
use specrails_core.Session.Policy.{native_subagents_allowed}
use specrails_core.Session.Usage.{ReportedUsage, finite, with_estimated_cost}
use specrails_core.Session.OutputBuffer.{TextDelta, drain_subagent}
use specrails_core.Session.Drivers.Events.{DriverSubagent, DriverSubagentUsage, SubagentText}
use specrails_core.Session.Application.Live.{
  Action, Deps, Live, Request, detached, look, ask, set, when, ◌⨾◌,
}
use specrails_core.Session.Application.Commit.{commit}
use specrails_core.Session.Application.Settlement.{after_subagent_change}
use specrails_core.Session.Application.Turns.{or_model}
use specrails_core.Session.Application.TurnEvents.{removed, diagnose, buffer_delta}

abbrev pub blocked_message : String → String
blocked_message id =
    append "The provider started sub-agent "
      (append id " although sub-agents are disabled; it was stopped.")

-- `blockSubagent`, up to the point where it waits for the provider.
unfoldable pub block_subagent : Deps → String → Action
block_subagent deps id =
    commit deps (diagnose DiagnosticLevel.warning "policy.subagent_blocked" (blocked_message id))
    ⨾ ask (Request.block_subagent id)

abbrev pub given : Option String → Option String
given none = none
given (some text) = if str_eq text "" then none else some text

unfoldable pub subagent_begins : Deps → DriverSubagent → Action
subagent_begins deps e =
    set (λ live. record live {
      finished_since_last_turn = removed e.subagent_id live.finished_since_last_turn;
    })
    ⨾ commit deps (
        subagent_started (record {
          subagent_id = e.subagent_id;
          parent_id = e.parent_id;
          kind = e.agent_kind;
          agent_type = given e.agent_type;
          description = e.description;
          prompt = elim (given e.prompt) [ some text ↦ some (slice 8000 text) | none ↦ none ];
          delegated = none;
        })
        ∷ [])
    ⨾ after_subagent_change deps
    ⨾ when (λ live. not (native_subagents_allowed live.config.policy))
        (detached (block_subagent deps e.subagent_id))

abbrev pub drained_unless_running : Live → String → SubagentPhase → List SessionEventBody
drained_unless_running live id phase =
    if same phase SubagentPhase.running then [] else (drain_subagent live.output id).1

unfoldable pub subagent_moves : Deps → String → SubagentPhase → Option String → Action
subagent_moves deps id phase reason =
    look (λ live.
      set (λ now. record now {
        finished_since_last_turn =
            if not (same phase SubagentPhase.running) && not (is_some live.state.open_turn)
            then add_unique now.finished_since_last_turn id
            else now.finished_since_last_turn;
        output =
            if same phase SubagentPhase.running
            then now.output
            else (drain_subagent live.output id).0;
      })
      ⨾ commit deps (subagent_phase id phase (given reason) ∷ drained_unless_running live id phase))
    ⨾ after_subagent_change deps

unfoldable pub subagent_says : Deps → String → SubagentText → Action
subagent_says deps id (SubagentText.text delta) = buffer_delta deps (TextDelta.subagent id delta)
subagent_says deps id (SubagentText.tool tool) =
    commit deps (subagent_output id SubagentChannel.tool none (some tool) ∷ [])

abbrev pub estimated : Deps → Live → Usage → Usage
estimated deps live usage =
    with_estimated_cost usage
      (deps.rate_card live.descriptor.id (or_model usage.model live.config.model))

-- `subagentUsage`
abbrev pub reported_usage : Deps → Live → ReportedUsage → Usage
reported_usage deps live reported = estimated deps live (record {
  input_tokens = finite reported.input_tokens;
  output_tokens = finite reported.output_tokens;
  cache_read_tokens = finite reported.cache_read_tokens;
  cache_write_tokens = finite reported.cache_write_tokens;
  total_tokens = finite reported.total_tokens;
  cost_usd = finite reported.cost_usd;
  cost_estimated = false;
  model = reported.model;
})

unfoldable pub subagent_uses : Deps → DriverSubagentUsage → Action
subagent_uses deps e = look (λ live. commit deps (
    subagent_usage (record {
      subagent_id = e.subagent_id;
      usage = reported_usage deps live e.usage;
      tool_uses = e.tool_uses;
      duration_ms = e.duration_ms;
      billing = none;
    })
    ∷ []))

unfoldable pub new_roster : Deps → List String → Action
new_roster deps ids = set (λ live. record live { roster = some ids }) ⨾ after_subagent_change deps

abbrev pub version_notes : Option String → List SessionEventBody
version_notes version = elim (given version) [
  | some text ↦ diagnose DiagnosticLevel.info "provider_version" text
  | none ↦ []
]
