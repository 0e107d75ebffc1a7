-- ===== src/Session/Policy.antt =====
-- src/agent-runtime/session/domain/policy.ts: a host's policy, resolved against what the driver
-- can enforce. An error carries its code.
pub mod Enforced
pub mod Normal
use specrails_core.Prelude.{
  ℕ, zero, suc, ◌*◌, String, Bool, true, false, not, ◌&&◌, ◌||◌, Option, none, some, List, [], ◌∷◌,
  leb, str_eq, Result, ok, err, ◌>>=◌, ◌>>◌, guard, if◌then◌else◌,
}
use specrails_core.Session.Types.{
  SessionErrorCode, McpServerSpec, SessionLimits, SubagentRuntime, SubagentUse, OnSettled, ToolMode,
  ToolPolicy, Permissions, McpPolicy, SessionPolicy, SubagentSupport, DriverCapabilities,
  DriverDescriptor,
}

abbrev pub default_limits : SessionLimits
default_limits = record {
  idle_ms = 600000;
  stall_ms = 900000;
  background_max_ms = 7200000;
  turn_inactivity_ms = 300000;
  tool_inactivity_ms = 3600000;
  max_settle_handoffs = 3;
  settle_debounce_ms = 1500;
}

pub data LimitKey : Type 0 where
  idle_ms stall_ms background_max_ms turn_inactivity_ms : LimitKey
  tool_inactivity_ms max_settle_handoffs settle_debounce_ms : LimitKey

-- The lower and the upper bound of a limit.
abbrev pub limit_bounds : LimitKey → ℕ × ℕ
limit_bounds LimitKey.idle_ms = (1000, 86400000)
limit_bounds LimitKey.stall_ms = (1000, 86400000)
limit_bounds LimitKey.background_max_ms = (1000, 604800000)
limit_bounds LimitKey.turn_inactivity_ms = (1000, 86400000)
limit_bounds LimitKey.tool_inactivity_ms = (1000, 86400000)
limit_bounds LimitKey.max_settle_handoffs = (0, 20)
limit_bounds LimitKey.settle_debounce_ms = (0, 60000)

-- `LIMIT_BOUNDS[key]`, by the name of the key.
abbrev pub key_name : LimitKey → String
key_name LimitKey.idle_ms = "idleMs"
key_name LimitKey.stall_ms = "stallMs"
key_name LimitKey.background_max_ms = "backgroundMaxMs"
key_name LimitKey.turn_inactivity_ms = "turnInactivityMs"
key_name LimitKey.tool_inactivity_ms = "toolInactivityMs"
key_name LimitKey.max_settle_handoffs = "maxSettleHandoffs"
key_name LimitKey.settle_debounce_ms = "settleDebounceMs"

abbrev pub limit_keys : List LimitKey
limit_keys =
    LimitKey.idle_ms ∷ LimitKey.stall_ms ∷ LimitKey.background_max_ms ∷ LimitKey.turn_inactivity_ms
    ∷ LimitKey.tool_inactivity_ms ∷ LimitKey.max_settle_handoffs ∷ LimitKey.settle_debounce_ms ∷ []

unfoldable pub find_key : List LimitKey → String → Option LimitKey
find_key [] name = none
find_key (key ∷ keys) name = if str_eq (key_name key) name then some key else find_key keys name

abbrev pub limit_of : LimitKey → SessionLimits → ℕ
limit_of LimitKey.idle_ms l = l.idle_ms
limit_of LimitKey.stall_ms l = l.stall_ms
limit_of LimitKey.background_max_ms l = l.background_max_ms
limit_of LimitKey.turn_inactivity_ms l = l.turn_inactivity_ms
limit_of LimitKey.tool_inactivity_ms l = l.tool_inactivity_ms
limit_of LimitKey.max_settle_handoffs l = l.max_settle_handoffs
limit_of LimitKey.settle_debounce_ms l = l.settle_debounce_ms

abbrev pub set_limit : LimitKey → ℕ → SessionLimits → SessionLimits
set_limit LimitKey.idle_ms n l = record l { idle_ms = n }
set_limit LimitKey.stall_ms n l = record l { stall_ms = n }
set_limit LimitKey.background_max_ms n l = record l { background_max_ms = n }
set_limit LimitKey.turn_inactivity_ms n l = record l { turn_inactivity_ms = n }
set_limit LimitKey.tool_inactivity_ms n l = record l { tool_inactivity_ms = n }
set_limit LimitKey.max_settle_handoffs n l = record l { max_settle_handoffs = n }
set_limit LimitKey.settle_debounce_ms n l = record l { settle_debounce_ms = n }

-- A number that a host sends: undefined, no integer from 0 on, or one.
pub data HostNumber : Type 0 where
  undefined other : HostNumber
  integer : ℕ → HostNumber

pub data RuntimeInput : Type 0 where
  native : Option String → Option String → RuntimeInput
  delegated : String → String → Option String → HostNumber → RuntimeInput

pub record McpInput : Type 0 where
  pub servers : Option (List McpServerSpec)
  pub inherit_user_scope : Option Bool

pub record SessionPolicyInput : Type 0 where
  pub subagents : SubagentUse
  pub on_subagents_settled : Option OnSettled
  pub tools : Option ToolPolicy
  pub permissions : Option Permissions
  pub mcp : Option McpInput
  pub limits : List (String × HostNumber)
  pub subagent_runtime : Option RuntimeInput

abbrev pub Outcome : Type 0 → Type 0
Outcome A = Result SessionErrorCode A

abbrev pub unenforceable_unless : Bool → Outcome (Unit {0})
unenforceable_unless test = guard test SessionErrorCode.policy_unenforceable

-- A string that is there and is not empty.
abbrev pub truthy : Option String → Bool
truthy none = false
truthy (some s) = not (str_eq s "")

-- `...(value ? { key: value } : {})`
abbrev pub if_truthy : Option String → Option String
if_truthy none = none
if_truthy (some s) = if str_eq s "" then none else some s

abbrev pub is_supported : SubagentSupport → Bool
is_supported SubagentSupport.supported = true
is_supported SubagentSupport.unsupported = false

abbrev pub is_enabled : SubagentUse → Bool
is_enabled SubagentUse.enabled = true
is_enabled SubagentUse.disabled = false

abbrev pub default_max_delegated : ℕ
default_max_delegated = 4

-- `maxConcurrent`, within [1, 16].
pub concurrency : HostNumber → Outcome ℕ
concurrency undefined = ok default_max_delegated
concurrency other = err SessionErrorCode.invalid_params
concurrency (integer n) = if leb 1 n && leb n 16 then ok n else err SessionErrorCode.invalid_params

unfoldable pub resolve_runtime : Option RuntimeInput → DriverCapabilities → Outcome SubagentRuntime
unfolding concurrency
resolve_runtime none caps = ok (SubagentRuntime.native none none)
resolve_runtime (some (native model effort)) caps = do
  unenforceable_unless (not (truthy model && not caps.subagent_model))
  unenforceable_unless (not (truthy effort && not caps.subagent_effort))
  ok (SubagentRuntime.native (if_truthy model) (if_truthy effort))
resolve_runtime (some (delegated driver model effort max_concurrent)) caps = do
  unenforceable_unless (not (is_supported caps.subagents && not caps.subagent_disable))
  max ← concurrency max_concurrent
  guard (not (str_eq model "")) SessionErrorCode.invalid_params
  ok (SubagentRuntime.delegated driver model (if_truthy effort) max)

-- The test of one limit against its bounds.
unfoldable pub check_limit : LimitKey → HostNumber → SessionLimits → Outcome SessionLimits
check_limit key (integer n) limits =
    if leb (limit_bounds key).0 n && leb n (limit_bounds key).1
    then ok (set_limit key n limits)
    else err SessionErrorCode.invalid_params
check_limit key _ limits = err SessionErrorCode.invalid_params

abbrev pub check_known : Option LimitKey → HostNumber → SessionLimits → Outcome SessionLimits
check_known none value limits = err SessionErrorCode.invalid_params
check_known (some key) value limits = check_limit key value limits

-- One entry of the loop over the limits.
unfoldable pub resolve_limit : String → HostNumber → SessionLimits → Outcome SessionLimits
resolve_limit name undefined limits = ok limits
resolve_limit name value limits = check_known (find_key limit_keys name) value limits

unfoldable pub limits_from : SessionLimits → List (String × HostNumber) → Outcome SessionLimits
unfolding resolve_limit
limits_from limits [] = ok limits
limits_from limits ((name, value) ∷ entries) = do
  limits' ← resolve_limit name value limits
  limits_from limits' entries

unfoldable pub resolve_limits : List (String × HostNumber) → Outcome SessionLimits
resolve_limits entries = limits_from default_limits entries

abbrev pub default_tools : ToolPolicy
default_tools = record { mode = ToolMode.default; allow = none; deny = none }

abbrev pub or_default {ℓ} : {A : Type ℓ} → Option A → A → A
or_default none d = d
or_default (some a) d = a

-- `list?.length`
abbrev pub has_items : Option (List String) → Bool
has_items none = false
has_items (some []) = false
has_items (some (x ∷ xs)) = true

abbrev pub is_default : ToolMode → Bool
is_default ToolMode.default = true
is_default _ = false

abbrev pub is_none : ToolMode → Bool
is_none ToolMode.none = true
is_none _ = false

abbrev pub is_provider_native : OnSettled → Bool
is_provider_native OnSettled.provider_native = true
is_provider_native _ = false

abbrev pub settled_default : Bool → OnSettled
settled_default true = OnSettled.provider_native
settled_default false = OnSettled.resume_agent

abbrev pub resolve_mcp : Option McpInput → McpPolicy
resolve_mcp none = record { servers = []; inherit_user_scope = false }
resolve_mcp (some m) = record {
  servers = or_default m.servers [];
  inherit_user_scope = or_default m.inherit_user_scope false;
}

abbrev pub settled_of : SessionPolicyInput → DriverCapabilities → OnSettled
settled_of input caps =
    or_default input.on_subagents_settled (settled_default caps.autonomous_continuation)

abbrev pub tools_of : SessionPolicyInput → ToolPolicy
tools_of input = or_default input.tools default_tools

-- The four refusals at the head of `resolvePolicy`, in order.
unfoldable pub check_policy : SessionPolicyInput → DriverCapabilities → Outcome (Unit {0})
check_policy input caps = do
  unenforceable_unless (
      not (
        not (is_enabled input.subagents)
        && is_supported caps.subagents
        && not caps.subagent_disable))
  unenforceable_unless (
      not (
        is_provider_native (settled_of input caps)
        && is_supported caps.subagents
        && is_enabled input.subagents
        && not caps.autonomous_continuation))
  unenforceable_unless (
      not (
        not caps.tool_filtering
        && (not (is_default (tools_of input).mode)
            || has_items (tools_of input).allow
            || has_items (tools_of input).deny)))
  unenforceable_unless (
      not (
        is_none (tools_of input).mode
        && caps.resident
        && is_supported caps.subagents
        && is_enabled input.subagents))

-- The policy that `resolvePolicy` returns.
abbrev pub resolved :
    SessionPolicyInput → DriverCapabilities → SubagentRuntime → SessionLimits → SessionPolicy
resolved input caps runtime limits = record {
  subagents = input.subagents;
  subagent_runtime = some runtime;
  on_subagents_settled = settled_of input caps;
  tools = tools_of input;
  permissions = or_default input.permissions Permissions.workspace_write;
  mcp = resolve_mcp input.mcp;
  limits = limits;
}

unfoldable pub resolve_policy : SessionPolicyInput → DriverDescriptor → Outcome SessionPolicy
resolve_policy input driver = do
  check_policy input driver.capabilities
  runtime ← resolve_runtime input.subagent_runtime driver.capabilities
  limits ← resolve_limits input.limits
  ok (resolved input driver.capabilities runtime limits)

-- A policy whose runtime is missing is read as native, as `normalizePolicy` does.
abbrev pub is_delegated : Option SubagentRuntime → Bool
is_delegated (some (SubagentRuntime.delegated driver model effort max)) = true
is_delegated _ = false

pub native_subagents_allowed : SessionPolicy → Bool
native_subagents_allowed policy =
    is_enabled policy.subagents && not (is_delegated policy.subagent_runtime)

abbrev pub delegated_subagents : SessionPolicy → Bool
delegated_subagents policy = is_enabled policy.subagents && is_delegated policy.subagent_runtime

abbrev pub subagents_active : SessionPolicy → DriverDescriptor → Bool
unfolding native_subagents_allowed
subagents_active policy driver =
    native_subagents_allowed policy && is_supported driver.capabilities.subagents
