-- ===== src/Session/Examples.antt =====
-- Runs of the policy, the usage and the output buffer at concrete inputs.
use specrails_core.Prelude.{
  ℕ, ◌+◌, ◌≤◌, ◌<◌, ◌^◌, length, ◌≡◌, refl, true, false, none, some, List, [], ◌∷◌, ok, arith,
}
use specrails_core.Prelude.Dict.{get, put, remove}
use specrails_core.Prelude.Texts.{text_length, code_units}
use specrails_core.Session.Types.{
  InputState, input_eq, SubagentRuntime, SubagentUse, SessionPolicy, SubagentSupport,
  DriverDescriptor, UsageSemantics, CostSemantics, TokenSemantics, OutputChannel,
}
use specrails_core.Session.Policy.{
  SessionPolicyInput, RuntimeInput, HostNumber, resolved, default_limits, resolve_policy,
  resolve_runtime, resolve_limits, limits_from, resolve_limit, check_limit, find_key, check_policy,
  set_limit, LimitKey,
}
use specrails_core.Session.Timers.{no_timers, arm, cancel, fire, is_handle, SessionTimers}
use specrails_core.Session.Timers.Stale.{TimerOp, after_ops, stale_never_fires}
use specrails_core.Session.Descriptor.{validate_descriptor}
use specrails_core.Session.Descriptor.Defaults.{default_continuation}
use specrails_core.Session.Policy.Enforced.{resolve_policy-IsEnforceable, IsEnforceable}
use specrails_core.Session.Policy.Normal.{resolve_policy-again, as_input}
use specrails_core.Session.Usage.{RawNumber, ReportedUsage, fresh_baseline, sum_usage}
use specrails_core.Session.Usage.Conserved.{
  Counter, usage_conserved, base_of, final_baseline, last_total, total_used, bill,
}
use specrails_core.Session.Usage.Sums.{Amount, sum_usage_known, amount_of, sum_known}
use specrails_core.Session.OutputBuffer.{OutputLimits, TextDelta, Budget, empty_buffer, drain, add}
use specrails_core.Session.OutputBuffer.Accounts.{output_accounted, add_all, offered}
use specrails_core.Session.Events.{OutputScope}
use specrails_core.Session.StateMachines.{can_transition, is_terminal, input_transitions}
use specrails_core.Session.StateMachines.Reach.{Moves, stay, move, input-Moves_bounded}
use specrails_core.Session.Fingerprint.{fingerprint, fnv}
use specrails_core.Session.Fingerprint.Decoded.{fingerprint_decodes, read_hex}

abbrev driver : DriverDescriptor
driver = record {
  id = "claude-resident";
  display_name = "Claude";
  capabilities = record {
    resident = true;
    native_input_queue = true;
    subagents = SubagentSupport.supported;
    subagent_disable = true;
    subagent_model = true;
    subagent_effort = false;
    autonomous_continuation = true;
    steer = true;
    tool_filtering = true;
    interrupt = none;
    usage = record {
      cost_usd = CostSemantics.session_cumulative;
      tokens = TokenSemantics.per_turn;
    };
  };
}

abbrev sent : SessionPolicyInput
sent = record {
  subagents = SubagentUse.enabled;
  on_subagents_settled = none;
  tools = none;
  permissions = none;
  mcp = none;
  limits = ("idleMs", HostNumber.integer 5000) ∷ ("stallMs", HostNumber.undefined) ∷ [];
  subagent_runtime = some (RuntimeInput.native (some "small") none);
}

abbrev policy : SessionPolicy
policy =
    resolved sent driver.capabilities (SubagentRuntime.native (some "small") none)
      (set_limit LimitKey.idle_ms 5000 default_limits)

policy_resolves : resolve_policy sent driver ≡ ok policy
unfolding resolve_policy check_policy resolve_runtime resolve_limits limits_from resolve_limit
    check_limit find_key
policy_resolves = refl

resolve_policy-IsEnforceable_example : IsEnforceable policy driver.capabilities
resolve_policy-IsEnforceable_example =
    resolve_policy-IsEnforceable sent driver policy policy_resolves

resolve_policy-again_example : resolve_policy (as_input policy) driver ≡ ok policy
resolve_policy-again_example = resolve_policy-again sent driver policy policy_resolves

-- A report of the cost only.
abbrev costing : RawNumber → ReportedUsage
costing cost = record {
  input_tokens = RawNumber.missing;
  output_tokens = RawNumber.missing;
  cache_read_tokens = RawNumber.missing;
  cache_write_tokens = RawNumber.missing;
  total_tokens = RawNumber.missing;
  cost_usd = cost;
  model = none;
}

abbrev reports : List ReportedUsage
reports =
    costing (RawNumber.amount 3)
    ∷ costing RawNumber.invalid
    ∷ costing (RawNumber.amount 3)
    ∷ costing (RawNumber.amount 8)
    ∷ []

abbrev running_cost : UsageSemantics
running_cost = driver.capabilities.usage

usage_conserved_example :
    (0 + total_used Counter.cost (bill running_cost fresh_baseline reports)
      ≡ last_total Counter.cost 0 reports)
    × (base_of Counter.cost (final_baseline running_cost fresh_baseline reports)
        ≡ some (last_total Counter.cost 0 reports))
usage_conserved_example =
    usage_conserved running_cost Counter.cost fresh_baseline reports 0 refl refl
      (omega arith, (tt, (omega arith, (omega arith, tt))))

sum_usage_known_example :
    amount_of Amount.cost (sum_usage (bill running_cost fresh_baseline reports))
    ≡ sum_known Amount.cost (bill running_cost fresh_baseline reports)
sum_usage_known_example = sum_usage_known Amount.cost (bill running_cost fresh_baseline reports)

abbrev small : OutputLimits
small = record { flush_chars = 4; turn_cap = 5; subagent_cap = 5 }

abbrev deltas : List TextDelta
deltas =
    TextDelta.turn "t1" OutputChannel.text "abc"
    ∷ TextDelta.turn "t1" OutputChannel.text "def"
    ∷ TextDelta.turn "t1" OutputChannel.text "g"
    ∷ []

abbrev spent : Budget
spent = record { stored = 4; dropped_events = 1; dropped_bytes = 3; scope = OutputScope.turn "t1" }

deltas_spend : get "turn:t1" (add_all small empty_buffer deltas).budgets ≡ some spent
unfolding add_all add get put text_length code_units
deltas_spend = refl

output_accounted_example :
    let buffer = add_all small empty_buffer deltas in
    (4 ≤ 5)
    × (4 + 3 ≡ offered "turn:t1" deltas)
    × ((drain buffer "turn:t1").1 ≡ [] → 4 ≡ offered "turn:t1" deltas)
    × (get "turn:t1" (drain buffer "turn:t1").0.budgets ≡ none)
output_accounted_example = output_accounted small deltas "turn:t1" spent deltas_spend

-- Accepted, queued, started, completed.
whole_life : Moves input_transitions InputState.accepted 3 InputState.completed
unfolding can_transition input_transitions
whole_life =
    move {b = InputState.queued} {n = 2} (λ h. ground arith) refl
      (move {b = InputState.started} {n = 1} (λ h. ground arith) refl
        (move {b = InputState.completed} {n = 0} (λ h. ground arith) refl stay))

input-Moves_bounded_example :
    (3 ≤ 3) × (is_terminal input_transitions InputState.accepted ≡ true → ◌≡◌ {A = ℕ} 3 0)
input-Moves_bounded_example =
    input-Moves_bounded InputState.accepted InputState.completed 3 whole_life

fingerprint_decodes_example :
    (length (fingerprint "go") ≡ 16)
    × (read_hex (fingerprint "go") ≡ fnv "go")
    × (fnv "go" < 2 ^ 64)
fingerprint_decodes_example = fingerprint_decodes "go"

driver_valid : validate_descriptor driver ≡ ok tt
unfolding validate_descriptor
driver_valid = refl

default_continuation_example :
    (driver.capabilities.subagents ≡ SubagentSupport.supported)
    × (driver.capabilities.resident ≡ true)
default_continuation_example =
    default_continuation sent driver policy driver_valid refl policy_resolves refl

-- The timer 1 was replaced by the timer 2.
abbrev replaced : SessionTimers
replaced = arm (arm no_timers "idle" 1) "idle" 2

replaced_stale : is_handle (get "idle" replaced.armed) 1 ≡ false
unfolding arm cancel get put remove
replaced_stale = refl

abbrev later : List TimerOp
later = TimerOp.cancel_all_op ∷ TimerOp.arm_op "idle" 3 ∷ []

stale_never_fires_example :
    fire (after_ops replaced later) "idle" 1 ≡ (after_ops replaced later, false)
stale_never_fires_example =
    stale_never_fires "idle" 1 replaced later replaced_stale (tt, (λ h. ground arith, tt))
