-- ===== src/Session/Application/Examples.antt =====
-- Runs of a live session.
use specrails_core.Prelude.{refl, str_eq, String, Bool, true, false, none, some, List, [], ◌∷◌}
use specrails_core.Prelude.Json.{Json}
use specrails_core.Session.Types.{
  DriverDescriptor, OnSettled, OutputChannel, Permissions, SessionPolicy, SubagentSupport,
  SubagentUse, ToolMode, CostSemantics, TokenSemantics, SubagentKind,
}
use specrails_core.Session.Policy.{default_limits}
use specrails_core.Session.Snapshot.{SessionSnapshot, empty_snapshot}
use specrails_core.Session.Reducer.{fold_events}
use specrails_core.Session.Usage.{fresh_baseline}
use specrails_core.Session.OutputBuffer.{default_output_limits, empty_buffer}
use specrails_core.Session.Timers.{no_timers}
use specrails_core.Session.Drivers.Events.{DriverEvent, TurnTrigger}
use specrails_core.Session.Application.Live.{Deps, Live, TextSegment}
use specrails_core.Session.Events.{SessionEventBody, provider_diagnostic, DiagnosticLevel}
use specrails_core.Session.Application.Work.{interrupted_by}
use specrails_core.Session.Application.Replay.{IsReplayed}
use specrails_core.Session.Application.Driven.{SessionOp, after_ops, live-IsReplayed}

abbrev policy : SessionPolicy
policy = record {
  subagents = SubagentUse.enabled;
  subagent_runtime = none;
  on_subagents_settled = OnSettled.notify_only;
  tools = record { mode = ToolMode.default; allow = none; deny = none };
  permissions = Permissions.bypass;
  mcp = record { servers = []; inherit_user_scope = false };
  limits = default_limits;
}

abbrev descriptor : DriverDescriptor
descriptor = record {
  id = "claude";
  display_name = "Claude Code";
  capabilities = record {
    resident = true;
    native_input_queue = true;
    subagents = SubagentSupport.supported;
    subagent_disable = true;
    subagent_model = true;
    subagent_effort = true;
    autonomous_continuation = true;
    steer = true;
    tool_filtering = true;
    interrupt = none;
    usage = record {
      cost_usd = CostSemantics.session_cumulative;
      tokens = TokenSemantics.per_turn;
    };
  };
}

abbrev start : SessionSnapshot
start = record (empty_snapshot "session-1") { last_seq = 0 }

abbrev pub live : Live
live = record {
  state = start;
  journal = [];
  stored = start;
  baselines = [];
  config = record {
    cwd = "/work";
    model = "opus";
    effort = none;
    system_prompt = none;
    policy = policy;
  };
  descriptor = descriptor;
  has_driver = true;
  is_opening = false;
  generation = 1;
  live_generation = some 1;
  closing = false;
  baseline = fresh_baseline;
  timers = no_timers;
  next_handle = 0;
  output = empty_buffer;
  held_inputs = [];
  interrupt_queue = [];
  pending_interrupt = none;
  system_input_ids = [];
  pending_deferred = none;
  roster = none;
  handoffs = 0;
  tools_in_flight = [];
  text_segment = TextSegment.nothing;
  finished_since_last_turn = [];
  delegated_results = [];
  last_user_turn_at = none;
  requests = [];
}

abbrev pub deps : Deps
deps = record {
  now = 1000;
  iso = "2026-01-01T00:00:00Z";
  turn_id = "turn-1";
  input_id = "input-1";
  rate_card = λ driver model. none;
  output_limits = default_output_limits;
  redact = λ text. "[REDACTED]";
  redact_deep = λ json. Json.null;
}

abbrev ops : List (Deps × SessionOp)
ops =
    (deps, SessionOp.driver_event 1 (DriverEvent.turn_started TurnTrigger.continuation []))
    ∷ (deps, SessionOp.driver_event 1 (DriverEvent.turn_output OutputChannel.text "Hello"))
    ∷ (deps, SessionOp.driver_event 2 (DriverEvent.turn_output OutputChannel.text "late"))
    ∷ (
      deps,
      SessionOp.driver_event 1 (
          DriverEvent.subagent_started (record {
            subagent_id = "agent-1";
            parent_id = none;
            agent_kind = SubagentKind.background;
            agent_type = none;
            description = "Search";
            prompt = none;
          })),
    )
    ∷ (deps, SessionOp.retire_done "stalled" (interrupted_by "stalled"))
    ∷ []

live-IsReplayed_example : IsReplayed start (after_ops live ops)
unfolding fold_events
live-IsReplayed_example =
    live-IsReplayed start live ops
      (record { copy = start; replayed = refl; alike = refl; kept = refl })

-- Only what was redacted is let through.
abbrev is_redacted : String → Bool
is_redacted text = str_eq text "[REDACTED]"

abbrev is_null : Json → Bool
is_null Json.null = true
is_null _ = false

abbrev leaking : List SessionEventBody
leaking = provider_diagnostic DiagnosticLevel.warning "auth" "token sk-1" ∷ []
