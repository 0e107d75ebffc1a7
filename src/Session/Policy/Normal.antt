-- ===== src/Session/Policy/Normal.antt =====
-- Resolving is idempotent: a resolved policy, sent again, resolves to itself.
use specrails_core.Prelude.{
  ℕ, ◌≤◌, ◌≡◌, ◌≢◌, refl, ap, String, true, Option, none, some, List, [], ◌∷◌, ◌∙◌, ok, >>=-eq-ok,
  ok-injective, arith, eq_iff, subst, sym,
}
use specrails_core.Session.Types.{
  SessionLimits, SubagentRuntime, SessionPolicy, SubagentSupport, DriverCapabilities,
  DriverDescriptor,
}
use specrails_core.Session.Policy.{
  LimitKey, limit_of, limit_keys, find_key, set_limit, HostNumber, integer, RuntimeInput, native,
  delegated, SessionPolicyInput, truthy, if_truthy, resolve_runtime, check_limit, resolve_limit,
  limits_from, resolve_limits, default_limits, check_policy, resolve_policy, resolved, key_name,
  check_policy,
}
use specrails_core.Session.Policy.Enforced.{
  InBounds, default-InBounds, limits_from-InBounds, native-inv, delegated-inv,
}

abbrev runtime_input : SubagentRuntime → RuntimeInput
runtime_input (SubagentRuntime.native model effort) = native model effort
runtime_input (SubagentRuntime.delegated driver model effort max) =
    delegated driver model effort (integer max)

abbrev runtime_of : Option SubagentRuntime → Option RuntimeInput
runtime_of none = none
runtime_of (some r) = some (runtime_input r)

abbrev entry : LimitKey → SessionLimits → String × HostNumber
entry key l = (key_name key, integer (limit_of key l))

abbrev entries : List LimitKey → SessionLimits → List (String × HostNumber)
entries [] l = []
entries (key ∷ keys) l = entry key l ∷ entries keys l

-- A policy, every part of it written out, as a host sends one.
pub as_input : SessionPolicy → SessionPolicyInput
as_input p = record {
  subagents = p.subagents;
  on_subagents_settled = some p.on_subagents_settled;
  tools = some p.tools;
  permissions = some p.permissions;
  mcp =
      some (record {
        servers = some p.mcp.servers;
        inherit_user_scope = some p.mcp.inherit_user_scope;
      });
  limits = entries limit_keys p.limits;
  subagent_runtime = runtime_of p.subagent_runtime;
}

if_truthy_idem : (s : Option String) → if_truthy (if_truthy s) ≡ if_truthy s
if_truthy_idem s = ground arith

truthy-if_truthy : (s : Option String) → truthy (if_truthy s) ≡ truthy s
truthy-if_truthy s = ground arith

native_again :
    (model effort : Option String) (caps : DriverCapabilities) (r : SubagentRuntime)
    → resolve_runtime (some (native model effort)) caps ≡ ok r
    → resolve_runtime (some (native (if_truthy model) (if_truthy effort))) caps
      ≡ resolve_runtime (some (native model effort)) caps
unfolding resolve_runtime
native_again model effort caps r h =
    rw
      (truthy-if_truthy model, truthy-if_truthy effort, if_truthy_idem model, if_truthy_idem effort)
      refl

delegated_again :
    (driver model : String) (effort : Option String) (n : ℕ) (caps : DriverCapabilities)
    → (caps.subagents ≡ SubagentSupport.supported → caps.subagent_disable ≡ true)
    → model ≢ ""
    → 1 ≤ n
    → n ≤ 16
    → resolve_runtime (some (delegated driver model (if_truthy effort) (integer n))) caps
      ≡ ok (SubagentRuntime.delegated driver model (if_truthy effort) n)
unfolding resolve_runtime
delegated_again driver model effort n caps off named lo hi =
    rw (if_truthy_idem effort) (ground (arith, eq_iff model ""))

runtime_again :
    (input : Option RuntimeInput) (caps : DriverCapabilities) (r : SubagentRuntime)
    → resolve_runtime input caps ≡ ok r
    → resolve_runtime (some (runtime_input r)) caps ≡ ok r
unfolding resolve_runtime
runtime_again none caps r h =
    subst (λ x. resolve_runtime (some (runtime_input x)) caps ≡ ok x) (ok-injective h) refl
runtime_again (some (native model effort)) caps r h =
    let (_, _, same_r) = native-inv model effort caps r h in
    subst (λ x. resolve_runtime (some (runtime_input x)) caps ≡ ok x) (sym same_r)
      (native_again model effort caps r h ∙ h ∙ ap ok same_r)
runtime_again (some (delegated driver model effort max)) caps r h =
    let (n, off, named, lo, hi, same_r) = delegated-inv driver model effort max caps r h in
    subst (λ x. resolve_runtime (some (runtime_input x)) caps ≡ ok x) (sym same_r)
      (delegated_again driver model effort n caps off named lo hi)

set_again :
    (key : LimitKey) (l l' : SessionLimits)
    → InBounds l
    → resolve_limit (key_name key) (integer (limit_of key l)) l'
      ≡ ok (set_limit key (limit_of key l) l')
unfolding resolve_limit check_limit find_key
set_again LimitKey.idle_ms l l' b = ground (arith, b LimitKey.idle_ms)
set_again LimitKey.stall_ms l l' b = ground (arith, b LimitKey.stall_ms)
set_again LimitKey.background_max_ms l l' b = ground (arith, b LimitKey.background_max_ms)
set_again LimitKey.turn_inactivity_ms l l' b = ground (arith, b LimitKey.turn_inactivity_ms)
set_again LimitKey.tool_inactivity_ms l l' b = ground (arith, b LimitKey.tool_inactivity_ms)
set_again LimitKey.max_settle_handoffs l l' b = ground (arith, b LimitKey.max_settle_handoffs)
set_again LimitKey.settle_debounce_ms l l' b = ground (arith, b LimitKey.settle_debounce_ms)

abbrev set_all : List LimitKey → SessionLimits → SessionLimits → SessionLimits
set_all [] l l' = l'
set_all (key ∷ keys) l l' = set_all keys l (set_limit key (limit_of key l) l')

limits_again :
    (keys : List LimitKey) (l l' : SessionLimits)
    → InBounds l
    → limits_from l' (entries keys l) ≡ ok (set_all keys l l')
unfolding limits_from
limits_again [] l l' b = refl
limits_again (key ∷ keys) l l' b =
    rw (set_again key l l' b) (limits_again keys l (set_limit key (limit_of key l) l') b)

check_again :
    (input : SessionPolicyInput) (caps : DriverCapabilities) (runtime : SubagentRuntime)
    (limits : SessionLimits)
    → check_policy (as_input (resolved input caps runtime limits)) caps ≡ check_policy input caps
unfolding check_policy as_input
check_again input caps runtime limits = refl

-- A policy that a host's input resolved to resolves to itself when it is sent written out: a host
-- that reads the policy back and sends it again changes nothing.
pub resolve_policy-again :
    (input : SessionPolicyInput) (driver : DriverDescriptor) (p : SessionPolicy)
    → resolve_policy input driver ≡ ok p
    → resolve_policy (as_input p) driver ≡ ok p
unfolding resolve_policy resolve_limits as_input
resolve_policy-again input driver p h =
    let caps = driver.capabilities in
    let (_, passed, next) = >>=-eq-ok (check_policy input caps) _ h in
    let (runtime, run, next') = >>=-eq-ok (resolve_runtime input.subagent_runtime caps) _ next in
    let (limits, lim, done) = >>=-eq-ok (resolve_limits input.limits) _ next' in
    subst (λ q. resolve_policy (as_input q) driver ≡ ok q) (ok-injective done)
      (rw
        (
          check_again input caps runtime limits,
          passed,
          runtime_again input.subagent_runtime caps runtime run,
          limits_again limit_keys limits default_limits
              (limits_from-InBounds input.limits default_limits limits default-InBounds lim),
        )
        refl)
