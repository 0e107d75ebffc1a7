-- ===== src/Session/Policy/Enforced.antt =====
-- What a resolved policy asks, the driver can enforce.
use specrails_core.Prelude.{
  ℕ, ◌≤◌, ◌≡◌, ◌≢◌, refl, String, true, false, Option, none, some, List, [], ◌∷◌, ok, >>=-eq-ok,
  ok-injective, arith, eq_iff, subst, sym, Option-cases, inl, inr,
}
use specrails_core.Session.Types.{
  SessionLimits, SubagentRuntime, SubagentUse, OnSettled, ToolMode, SessionPolicy, SubagentSupport,
  DriverCapabilities, DriverDescriptor,
}
use specrails_core.Session.Policy.{
  LimitKey, limit_bounds, limit_of, limit_keys, find_key, set_limit, HostNumber, undefined, other,
  integer, RuntimeInput, native, delegated, SessionPolicyInput, if_truthy, resolve_runtime,
  check_limit, resolve_limit, limits_from, resolve_limits, default_limits, has_items, settled_of,
  tools_of, check_policy, resolve_policy,
}

-- Every limit lies within its bounds.
abbrev pub InBounds : SessionLimits → Type 0
InBounds l =
    (key : LimitKey)
    → ((limit_bounds key).0 ≤ limit_of key l) × (limit_of key l ≤ (limit_bounds key).1)

-- The runtime asks for a model or an effort only where the driver can choose it, and for delegation
-- only where the driver's own sub-agents can be switched off.
abbrev pub RuntimeHolds : Option SubagentRuntime → DriverCapabilities → Type 0
RuntimeHolds none caps = ⊥
RuntimeHolds (some (SubagentRuntime.native model effort)) caps =
    (model ≢ none → caps.subagent_model ≡ true) × (effort ≢ none → caps.subagent_effort ≡ true)
RuntimeHolds (some (SubagentRuntime.delegated driver model effort max)) caps =
    (caps.subagents ≡ SubagentSupport.supported → caps.subagent_disable ≡ true)
    × (model ≢ "")
    × (1 ≤ max)
    × (max ≤ 16)

-- The whole policy.
pub record IsEnforceable (p : SessionPolicy) (caps : DriverCapabilities) : Type 0 where
  pub switched_off :
      p.subagents ≡ SubagentUse.disabled
      → caps.subagents ≡ SubagentSupport.supported
      → caps.subagent_disable ≡ true
  pub continues :
      p.on_subagents_settled ≡ OnSettled.provider_native
      → caps.subagents ≡ SubagentSupport.supported
      → p.subagents ≡ SubagentUse.enabled
      → caps.autonomous_continuation ≡ true
  pub filtered :
      caps.tool_filtering ≡ false
      → (p.tools.mode ≡ ToolMode.default)
        × (has_items p.tools.allow ≡ false)
        × (has_items p.tools.deny ≡ false)
  pub launches :
      p.tools.mode ≡ ToolMode.none
      → caps.resident ≡ true
      → caps.subagents ≡ SubagentSupport.supported
      → p.subagents ≡ SubagentUse.disabled
  pub runtime : RuntimeHolds p.subagent_runtime caps
  pub limits : InBounds p.limits

set_limit-InBounds :
    (key : LimitKey) (n : ℕ) (l : SessionLimits)
    → (limit_bounds key).0 ≤ n
    → n ≤ (limit_bounds key).1
    → InBounds l
    → InBounds (set_limit key n l)
set_limit-InBounds LimitKey.idle_ms n l lo hi b k = ground (arith, b k)
set_limit-InBounds LimitKey.stall_ms n l lo hi b k = ground (arith, b k)
set_limit-InBounds LimitKey.background_max_ms n l lo hi b k = ground (arith, b k)
set_limit-InBounds LimitKey.turn_inactivity_ms n l lo hi b k = ground (arith, b k)
set_limit-InBounds LimitKey.tool_inactivity_ms n l lo hi b k = ground (arith, b k)
set_limit-InBounds LimitKey.max_settle_handoffs n l lo hi b k = ground (arith, b k)
set_limit-InBounds LimitKey.settle_debounce_ms n l lo hi b k = ground (arith, b k)

check_limit-inv :
    (key : LimitKey) (n : ℕ) (l l' : SessionLimits)
    → check_limit key (integer n) l ≡ ok l'
    → ((limit_bounds key).0 ≤ n) × (n ≤ (limit_bounds key).1) × (l' ≡ set_limit key n l)
unfolding check_limit
check_limit-inv key n l l' h = ground arith

check_limit-InBounds :
    (key : LimitKey) (value : HostNumber) (l l' : SessionLimits)
    → InBounds l
    → check_limit key value l ≡ ok l'
    → InBounds l'
unfolding check_limit
check_limit-InBounds key undefined l l' b h k = absurd (ground arith)
check_limit-InBounds key other l l' b h k = absurd (ground arith)
check_limit-InBounds key (integer n) l l' b h k =
    let (lo, hi, same_l) = check_limit-inv key n l l' h in
    subst InBounds (sym same_l) (set_limit-InBounds key n l lo hi b) k

pub default-InBounds : InBounds default_limits
default-InBounds key = ground arith

pub native-inv :
    (model effort : Option String) (caps : DriverCapabilities) (r : SubagentRuntime)
    → resolve_runtime (some (native model effort)) caps ≡ ok r
    → (if_truthy model ≢ none → caps.subagent_model ≡ true)
      × (if_truthy effort ≢ none → caps.subagent_effort ≡ true)
      × (r ≡ SubagentRuntime.native (if_truthy model) (if_truthy effort))
unfolding resolve_runtime
native-inv model effort caps r h = ((λ m. ground arith), (λ e. ground arith), ground arith)

pub delegated-inv :
    (driver model : String) (effort : Option String) (max : HostNumber) (caps : DriverCapabilities)
    (r : SubagentRuntime)
    → resolve_runtime (some (delegated driver model effort max)) caps ≡ ok r
    → (n : ℕ) × (caps.subagents ≡ SubagentSupport.supported → caps.subagent_disable ≡ true)
      × (model ≢ "")
      × (1 ≤ n)
      × (n ≤ 16)
      × (r ≡ SubagentRuntime.delegated driver model (if_truthy effort) n)
unfolding resolve_runtime
delegated-inv driver model effort undefined caps r h = (
  4,
  (λ o. ground arith),
  (λ e. ground (arith, eq_iff model "")),
  omega arith,
  omega arith,
  ground arith,
)
delegated-inv driver model effort other caps r h = absurd (ground arith)
delegated-inv driver model effort (integer n) caps r h = (
  n,
  (λ o. ground arith),
  (λ e. ground (arith, eq_iff model "")),
  ground arith,
  ground arith,
  ground arith,
)

resolve_runtime-RuntimeHolds :
    (input : Option RuntimeInput) (caps : DriverCapabilities) (r : SubagentRuntime)
    → resolve_runtime input caps ≡ ok r
    → RuntimeHolds (some r) caps
unfolding resolve_runtime
resolve_runtime-RuntimeHolds none caps r h =
    subst (λ x. RuntimeHolds (some x) caps) (ok-injective h)
      ((λ e. absurd (e refl)), (λ e. absurd (e refl)))
resolve_runtime-RuntimeHolds (some (native model effort)) caps r h =
    let (m, e, same_r) = native-inv model effort caps r h in
    subst (λ x. RuntimeHolds (some x) caps) (sym same_r) (m, e)
resolve_runtime-RuntimeHolds (some (delegated driver model effort max)) caps r h =
    let (n, off, named, lo, hi, same_r) = delegated-inv driver model effort max caps r h in
    subst (λ x. RuntimeHolds (some x) caps) (sym same_r) (off, named, lo, hi)

resolve_limit-InBounds :
    (name : String) (value : HostNumber) (l l' : SessionLimits)
    → InBounds l
    → resolve_limit name value l ≡ ok l'
    → InBounds l'
unfolding resolve_limit
resolve_limit-InBounds name undefined l l' b h = subst InBounds (ok-injective h) b
resolve_limit-InBounds name value l l' b h = elim (Option-cases (find_key limit_keys name)) [
  | inl unknown ↦ absurd (ground arith)
  | inr (key, found) ↦ check_limit-InBounds key value l l' b (ground arith)
]

pub limits_from-InBounds :
    (entries : List (String × HostNumber)) (l l' : SessionLimits)
    → InBounds l
    → limits_from l entries ≡ ok l'
    → InBounds l'
unfolding limits_from
limits_from-InBounds [] l l' b h = subst InBounds (ok-injective h) b
limits_from-InBounds ((name, value) ∷ entries) l l' b h =
    let (next, first, rest) =
      >>=-eq-ok (resolve_limit name value l) (λ n. limits_from n entries) h in
    limits_from-InBounds entries next l' (resolve_limit-InBounds name value l next b first) rest

-- What the four refusals leave.
record Passed (input : SessionPolicyInput) (caps : DriverCapabilities) : Type 0 where
  switched_off :
      input.subagents ≡ SubagentUse.disabled
      → caps.subagents ≡ SubagentSupport.supported
      → caps.subagent_disable ≡ true
  continues :
      settled_of input caps ≡ OnSettled.provider_native
      → caps.subagents ≡ SubagentSupport.supported
      → input.subagents ≡ SubagentUse.enabled
      → caps.autonomous_continuation ≡ true
  filtered :
      caps.tool_filtering ≡ false
      → ((tools_of input).mode ≡ ToolMode.default)
        × (has_items (tools_of input).allow ≡ false)
        × (has_items (tools_of input).deny ≡ false)
  launches :
      (tools_of input).mode ≡ ToolMode.none
      → caps.resident ≡ true
      → caps.subagents ≡ SubagentSupport.supported
      → input.subagents ≡ SubagentUse.disabled

check_policy-Passed :
    (input : SessionPolicyInput) (caps : DriverCapabilities)
    → check_policy input caps ≡ ok tt
    → Passed input caps
unfolding check_policy
check_policy-Passed input caps h = record {
  switched_off = λ a b. ground arith;
  continues = λ a b c. ground arith;
  filtered = λ a. (ground arith, ground arith, ground arith);
  launches = λ a b c. ground arith;
}

-- A policy that is resolved asks nothing that the driver cannot enforce, has every limit within
-- its bounds, and says how its sub-agents run.
pub resolve_policy-IsEnforceable :
    (input : SessionPolicyInput) (driver : DriverDescriptor) (p : SessionPolicy)
    → resolve_policy input driver ≡ ok p
    → IsEnforceable p driver.capabilities
unfolding resolve_policy resolve_limits
resolve_policy-IsEnforceable input driver p h =
    let caps = driver.capabilities in
    let (_, passed, next) = >>=-eq-ok (check_policy input caps) _ h in
    let (runtime, run, next') = >>=-eq-ok (resolve_runtime input.subagent_runtime caps) _ next in
    let (limits, lim, done) = >>=-eq-ok (resolve_limits input.limits) _ next' in
    let pass = check_policy-Passed input caps passed in
    subst (λ q. IsEnforceable q caps) (ok-injective done)
      (record {
        switched_off = pass.switched_off;
        continues = pass.continues;
        filtered = pass.filtered;
        launches = pass.launches;
        runtime = resolve_runtime-RuntimeHolds input.subagent_runtime caps runtime run;
        limits = limits_from-InBounds input.limits default_limits limits default-InBounds lim;
      })
