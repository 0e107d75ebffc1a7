-- ===== src/Engine/Gate.antt =====
-- src/agent-runtime/engine/concurrency.ts: weighted permits, given in the order in which they were
-- asked for. A promise that is resolved is an admission; `release` is the function that it is
-- resolved with, which acts once. A waiter has a number in place of its identity.
use specrails_core.Prelude.{
  ℕ, ◌+◌, ◌-◌, Bool, ◌&&◌, List, [], ◌∷◌, ◌++◌, leb, ◌==◌, any, Result, ok, err, if◌then◌else◌,
}
use specrails_core.Engine.Contracts.{EngineErrorCode, EngineEffect}

pub record Waiter : Type 0 where
  pub id : ℕ
  pub weight : ℕ

-- `held` are the admissions that were not released.
pub record ConcurrencyGate : Type 0 where
  pub capacity : ℕ
  pub available : ℕ
  pub queue : List Waiter
  pub held : List Waiter

-- What the loop of `drain` leaves, with the waiters that it admits.
pub record Drained : Type 0 where
  pub available : ℕ
  pub queue : List Waiter
  pub admitted : List Waiter

unfoldable pub drain_queue : ℕ → List Waiter → Drained
drain_queue available [] = record { available = available; queue = []; admitted = [] }
drain_queue available (waiter ∷ queue) =
    let rest = drain_queue (available - waiter.weight) queue in
    if leb waiter.weight available
    then record rest { admitted = waiter ∷ rest.admitted }
    else record { available = available; queue = waiter ∷ queue; admitted = [] }

-- A gate and the waiters admitted on the way to it.
abbrev pub Admitting : Type 0
Admitting = ConcurrencyGate × List Waiter

unfoldable pub drain_permits : ConcurrencyGate → Admitting
unfolding drain_queue
drain_permits gate =
    let result = drain_queue gate.available gate.queue in
    (
      record gate {
        available = result.available;
        queue = result.queue;
        held = gate.held ++ result.admitted;
      },
      result.admitted,
    )

-- `Number.MAX_SAFE_INTEGER`
abbrev pub max_safe_integer : ℕ
max_safe_integer = 9007199254740991

unfoldable pub new_gate : ℕ → Result EngineErrorCode ConcurrencyGate
new_gate capacity =
    if leb 1 capacity && leb capacity max_safe_integer
    then ok (record { capacity = capacity; available = capacity; queue = []; held = [] })
    else err EngineErrorCode.invalid_arguments

unfoldable pub acquire : ConcurrencyGate → Bool → Waiter → Result EngineErrorCode Admitting
unfolding drain_permits
acquire gate is_aborted waiter =
    if leb 1 waiter.weight && leb waiter.weight gate.capacity
    then (if is_aborted
        then err EngineErrorCode.aborted
        else ok (drain_permits (record gate { queue = gate.queue ++ (waiter ∷ []) })))
    else err EngineErrorCode.invalid_arguments

abbrev pub has_waiter : ℕ → List Waiter → Bool
has_waiter id waiters = any (λ w. w.id == id) waiters

-- Without the first waiter of that number.
unfoldable pub without_waiter : ℕ → List Waiter → List Waiter
without_waiter id [] = []
without_waiter id (waiter ∷ waiters) =
    let rest = without_waiter id waiters in if waiter.id == id then waiters else waiter ∷ rest

unfoldable pub weight_of : ℕ → List Waiter → ℕ
weight_of id [] = 0
weight_of id (waiter ∷ waiters) =
    let rest = weight_of id waiters in if waiter.id == id then waiter.weight else rest

-- The signal of a waiter is aborted: only one that still waits is taken out.
unfoldable pub abort : ConcurrencyGate → ℕ → Admitting
unfolding drain_permits without_waiter
abort gate id =
    if has_waiter id gate.queue
    then drain_permits (record gate { queue = without_waiter id gate.queue })
    else (gate, [])

-- A second release of the same permit does nothing.
unfoldable pub release : ConcurrencyGate → ℕ → Admitting
unfolding drain_permits without_waiter weight_of
release gate id =
    if has_waiter id gate.held
    then drain_permits (record gate {
      available = gate.available + weight_of id gate.held;
      held = without_waiter id gate.held;
    })
    else (gate, [])

-- `RepositoryEffectGate`: a write takes every permit.
abbrev pub effect_weight : ConcurrencyGate → EngineEffect → ℕ
effect_weight gate EngineEffect.read = 1
effect_weight gate EngineEffect.write = gate.capacity

unfoldable pub acquire_effect :
    ConcurrencyGate → Bool → ℕ → EngineEffect → Result EngineErrorCode Admitting
unfolding acquire
acquire_effect gate is_aborted id effect =
    acquire gate is_aborted (record { id = id; weight = effect_weight gate effect })
