-- ===== src/Session/Descriptor/Defaults.antt =====
-- What a valid descriptor makes of a policy's defaults.
use specrails_core.Prelude.{◌≡◌, true, none, ok, >>=-eq-ok, ok-injective, arith, ap, ◌∙◌}
use specrails_core.Session.Types.{
  OnSettled, SessionPolicy, SubagentSupport, DriverCapabilities, DriverDescriptor,
}
use specrails_core.Session.Policy.{
  SessionPolicyInput, check_policy, resolve_runtime, resolve_limits, resolve_policy, settled_of,
}
use specrails_core.Session.Descriptor.{validate_descriptor}

continuation_is_backed :
    (driver : DriverDescriptor)
    → validate_descriptor driver ≡ ok tt
    → driver.capabilities.autonomous_continuation ≡ true
    → (driver.capabilities.subagents ≡ SubagentSupport.supported)
      × (driver.capabilities.resident ≡ true)
unfolding validate_descriptor
continuation_is_backed driver valid on = (ground arith, ground arith)

settled_needs_continuation :
    (input : SessionPolicyInput) (caps : DriverCapabilities)
    → input.on_subagents_settled ≡ none
    → settled_of input caps ≡ OnSettled.provider_native
    → caps.autonomous_continuation ≡ true
settled_needs_continuation input caps left h = ground arith

-- A host that leaves open what happens when sub-agents settle leaves it to the provider only on a
-- driver that has sub-agents and a resident process, if the driver's descriptor is valid.
pub default_continuation :
    (input : SessionPolicyInput) (driver : DriverDescriptor) (p : SessionPolicy)
    → validate_descriptor driver ≡ ok tt
    → input.on_subagents_settled ≡ none
    → resolve_policy input driver ≡ ok p
    → p.on_subagents_settled ≡ OnSettled.provider_native
    → (driver.capabilities.subagents ≡ SubagentSupport.supported)
      × (driver.capabilities.resident ≡ true)
unfolding resolve_policy
default_continuation input driver p valid left h on =
    let caps = driver.capabilities in
    let (_, _, next) = >>=-eq-ok (check_policy input caps) _ h in
    let (runtime, _, next') = >>=-eq-ok (resolve_runtime input.subagent_runtime caps) _ next in
    let (limits, _, done) = >>=-eq-ok (resolve_limits input.limits) _ next' in
    let same = ap (λ (q : SessionPolicy). q.on_subagents_settled) (ok-injective done) in
    continuation_is_backed driver valid (settled_needs_continuation input caps left (same ∙ on))
