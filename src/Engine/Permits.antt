-- ===== src/Engine/Permits.antt =====
-- What the permits of a gate amount to, whatever is asked for, aborted and released.
use specrails_core.Prelude.{
  ℕ, suc, ◌+◌, ◌-◌, ◌≤◌, ◌<◌, ◌≡◌, refl, Bool, true, ◌&&◌, List, [], ◌∷◌, ◌++◌, leb, ◌==◌, any,
  Result, ok, err, All, length, arith, Bool-cases, inl, inr, subst, sym, ap, ◌∙◌,
}
use specrails_core.Engine.Gate.{
  Waiter, ConcurrencyGate, drain_queue, Admitting, drain_permits, new_gate, acquire, has_waiter,
  without_waiter, weight_of, abort, release,
}
use specrails_core.Engine.Contracts.{EngineErrorCode}

pub data GateOp : Type 0 where
  acquire_op : Bool → Waiter → GateOp
  abort_op release_op : ℕ → GateOp

-- A request that is refused changes nothing.
abbrev pub or_unchanged : ConcurrencyGate → Result EngineErrorCode Admitting → Admitting
or_unchanged gate (ok r) = r
or_unchanged gate (err e) = (gate, [])

unfoldable pub after_op : ConcurrencyGate → GateOp → Admitting
after_op gate (GateOp.acquire_op is_aborted waiter) =
    or_unchanged gate (acquire gate is_aborted waiter)
after_op gate (GateOp.abort_op id) = abort gate id
after_op gate (GateOp.release_op id) = release gate id

-- The gate after the operations, and all admissions in order.
unfoldable pub after_ops : ConcurrencyGate → List GateOp → Admitting
unfolding after_op
after_ops gate [] = (gate, [])
after_ops gate (op ∷ ops) =
    let first = after_op gate op in let rest = after_ops first.0 ops in (rest.0, first.1 ++ rest.1)

pub total_weight : List Waiter → ℕ
total_weight [] = 0
total_weight (w ∷ ws) = w.weight + total_weight ws

-- The first waiter does not fit: nobody waits for nothing.
abbrev pub Blocked : ℕ → List Waiter → Type 0
Blocked available [] = Unit
Blocked available (w ∷ ws) = available < w.weight

abbrev pub Fits : ℕ → Waiter → Type 0
Fits capacity w = (1 ≤ w.weight) × (w.weight ≤ capacity)

pub record IsBalanced (gate : ConcurrencyGate) : Type 0 where
  pub conserved : gate.available + total_weight gate.held ≡ gate.capacity
  pub blocked : Blocked gate.available gate.queue
  pub held_fit : All (Fits gate.capacity) gate.held
  pub queue_fit : All (Fits gate.capacity) gate.queue

total_weight-append :
    (xs ys : List Waiter) → total_weight (xs ++ ys) ≡ total_weight xs + total_weight ys
unfolding total_weight
total_weight-append [] ys = omega arith
total_weight-append (x ∷ xs) ys = omega (arith, total_weight-append xs ys)

All-append : (P : Waiter → Type 0) (xs ys : List Waiter) → All P xs → All P ys → All P (xs ++ ys)
All-append P [] ys p q = q
All-append P (x ∷ xs) ys (p, ps) q = (p, All-append P xs ys ps q)

drain_queue-balance :
    (n : ℕ) (queue : List Waiter)
    → let d = drain_queue n queue in
      (d.available + total_weight d.admitted ≡ n) × Blocked d.available d.queue
unfolding drain_queue total_weight
drain_queue-balance n [] = (omega arith, tt)
drain_queue-balance n (w ∷ queue) = elim (Bool-cases (leb w.weight n)) [
  | inl fits ↦
      let (kept, blocked) = drain_queue-balance (n - w.weight) queue in
      rw fits (ground arith, blocked)
  | inr large ↦ rw large (omega arith, ground arith)
]

pub drain_queue-order :
    (n : ℕ) (queue : List Waiter) → let d = drain_queue n queue in d.admitted ++ d.queue ≡ queue
unfolding drain_queue
drain_queue-order n [] = refl
drain_queue-order n (w ∷ queue) = ground (arith, drain_queue-order (n - w.weight) queue)

All-drained :
    (P : Waiter → Type 0) (n : ℕ) (queue : List Waiter)
    → All P queue
    → let d = drain_queue n queue in All P d.admitted × All P d.queue
unfolding drain_queue
All-drained P n [] p = (tt, tt)
All-drained P n (w ∷ queue) (p, ps) = elim (Bool-cases (leb w.weight n)) [
  | inl fits ↦ let (a, q) = All-drained P (n - w.weight) queue ps in rw fits ((p, a), q)
  | inr large ↦ rw large (tt, (p, ps))
]

-- Draining balances a gate that is conserved.
drain_permits-IsBalanced :
    (gate : ConcurrencyGate)
    → gate.available + total_weight gate.held ≡ gate.capacity
    → All (Fits gate.capacity) gate.held
    → All (Fits gate.capacity) gate.queue
    → IsBalanced (drain_permits gate).0
unfolding drain_permits
drain_permits-IsBalanced gate kept hf qf =
    let (sum, blocked) = drain_queue-balance gate.available gate.queue in
    let (af, qf') = All-drained (Fits gate.capacity) gate.available gate.queue qf in
    let d = drain_queue gate.available gate.queue in
    record {
      conserved = omega (arith, kept, sum, total_weight-append gate.held d.admitted);
      blocked = blocked;
      held_fit = All-append (Fits gate.capacity) gate.held d.admitted hf af;
      queue_fit = qf';
    }

total_weight-without :
    (id : ℕ) (ws : List Waiter)
    → has_waiter id ws ≡ true
    → total_weight (without_waiter id ws) + weight_of id ws ≡ total_weight ws
unfolding without_waiter weight_of total_weight
total_weight-without id [] h = absurd (ground arith)
total_weight-without id (w ∷ ws) h = elim (Bool-cases (w.id == id)) [
  | inl found ↦ rw found (omega arith)
  | inr other ↦ let rest = total_weight-without id ws (ground arith) in rw other (omega arith)
]

All-without :
    (P : Waiter → Type 0) (id : ℕ) (ws : List Waiter) → All P ws → All P (without_waiter id ws)
unfolding without_waiter
All-without P id [] p = tt
All-without P id (w ∷ ws) (p, ps) = elim (Bool-cases (w.id == id)) [
  | inl found ↦ rw found ps
  | inr other ↦ rw other (p, All-without P id ws ps)
]

op-IsBalanced :
    (gate : ConcurrencyGate) (op : GateOp) → IsBalanced gate → IsBalanced (after_op gate op).0
unfolding after_op acquire abort release
op-IsBalanced gate (GateOp.acquire_op is_aborted waiter) b =
    elim (Bool-cases (leb 1 waiter.weight && leb waiter.weight gate.capacity)) [
      | inl fits ↦ elim (Bool-cases is_aborted) [
        | inl stop ↦ rw (fits, stop) b
        | inr go ↦
            rw (fits, go)
              (drain_permits-IsBalanced (record gate { queue = gate.queue ++ (waiter ∷ []) })
                b.conserved b.held_fit
                (All-append (Fits gate.capacity) gate.queue (waiter ∷ []) b.queue_fit
                  ((ground arith, ground arith), tt)))
      ]
      | inr bad ↦ rw bad b
    ]
op-IsBalanced gate (GateOp.abort_op id) b = elim (Bool-cases (has_waiter id gate.queue)) [
  | inl waits ↦ rw waits (
      drain_permits-IsBalanced (record gate { queue = without_waiter id gate.queue }) b.conserved
        b.held_fit (All-without (Fits gate.capacity) id gate.queue b.queue_fit))
  | inr gone ↦ rw gone b
]
op-IsBalanced gate (GateOp.release_op id) b = elim (Bool-cases (has_waiter id gate.held)) [
  | inl holds ↦ rw holds (
      drain_permits-IsBalanced
        (record gate {
          available = gate.available + weight_of id gate.held;
          held = without_waiter id gate.held;
        })
        (omega (arith, b.conserved, total_weight-without id gate.held holds))
        (All-without (Fits gate.capacity) id gate.held b.held_fit) b.queue_fit)
  | inr gone ↦ rw gone b
]

op-capacity : (gate : ConcurrencyGate) (op : GateOp) → (after_op gate op).0.capacity ≡ gate.capacity
unfolding after_op acquire abort release drain_permits
op-capacity gate (GateOp.acquire_op is_aborted waiter) = ground arith
op-capacity gate (GateOp.abort_op id) = ground arith
op-capacity gate (GateOp.release_op id) = ground arith

pub ops-capacity :
    (gate : ConcurrencyGate) (ops : List GateOp) → (after_ops gate ops).0.capacity ≡ gate.capacity
unfolding after_ops
ops-capacity gate [] = refl
ops-capacity gate (op ∷ ops) = ops-capacity (after_op gate op).0 ops ∙ op-capacity gate op

ops-IsBalanced :
    (gate : ConcurrencyGate) (ops : List GateOp)
    → IsBalanced gate
    → IsBalanced (after_ops gate ops).0
unfolding after_ops
ops-IsBalanced gate [] b = b
ops-IsBalanced gate (op ∷ ops) b = ops-IsBalanced (after_op gate op).0 ops (op-IsBalanced gate op b)

new_gate-IsBalanced :
    (capacity : ℕ) (gate : ConcurrencyGate)
    → new_gate capacity ≡ ok gate
    → IsBalanced gate × (gate.capacity ≡ capacity)
unfolding new_gate total_weight
new_gate-IsBalanced capacity gate made = elim (Bool-cases (leb 1 capacity)) [
  | inl positive ↦
      let start : ConcurrencyGate = record {
        capacity = capacity;
        available = capacity;
        queue = [];
        held = [];
      } in
      let same : start ≡ gate = ground arith in
      (
        subst IsBalanced same
            (record { conserved = omega arith; blocked = tt; held_fit = tt; queue_fit = tt }),
        ap (λ g. g.capacity) (sym same),
      )
  | inr zero_capacity ↦ absurd (ground arith)
]

-- Whatever is asked for, aborted and released on a new gate: the permits that are left and those
-- of the holders make up the capacity, every waiter and holder fits it, and the first waiter
-- needs more than is left.
pub gate-IsBalanced :
    (capacity : ℕ) (gate : ConcurrencyGate) (ops : List GateOp)
    → new_gate capacity ≡ ok gate
    → IsBalanced (after_ops gate ops).0 × ((after_ops gate ops).0.capacity ≡ capacity)
gate-IsBalanced capacity gate ops made =
    let (b, same) = new_gate-IsBalanced capacity gate made in
    (ops-IsBalanced gate ops b, ops-capacity gate ops ∙ same)

idle :
    (capacity available : ℕ) (held queue : List Waiter)
    → available + total_weight held ≡ capacity
    → Blocked available queue
    → All (Fits capacity) queue
    → held ≡ []
    → queue ≡ []
unfolding total_weight
idle c a h [] kept blocked fit free = refl
idle c a [] (w ∷ q) kept blocked (fit, _) free = absurd (omega (arith, kept, blocked, fit.1))
idle c a (x ∷ h) (w ∷ q) kept blocked fit free = absurd (ground arith)

-- After any operations on a new gate nobody waits once nobody holds a permit.
pub no_deadlock :
    (capacity : ℕ) (gate : ConcurrencyGate) (ops : List GateOp)
    → new_gate capacity ≡ ok gate
    → (after_ops gate ops).0.held ≡ []
    → (after_ops gate ops).0.queue ≡ []
no_deadlock capacity gate ops made free =
    let b = (gate-IsBalanced capacity gate ops made).0 in
    let last = (after_ops gate ops).0 in
    idle last.capacity last.available last.held last.queue b.conserved b.blocked b.queue_fit free

length-total_weight :
    (c : ℕ) (held : List Waiter) → All (Fits c) held → length held ≤ total_weight held
unfolding total_weight
length-total_weight c [] fit = omega arith
length-total_weight c (x ∷ held) (f, fit) = omega (arith, f.0, length-total_weight c held fit)

-- One of them has the weight `c`.
abbrev pub has_weight : ℕ → List Waiter → Bool
has_weight c held = any (λ w. w.weight == c) held

length-of_weight :
    (c : ℕ) (held : List Waiter)
    → All (Fits c) held
    → has_weight c held ≡ true
    → c + length held ≤ suc (total_weight held)
unfolding total_weight
length-of_weight c [] fit there = absurd (ground arith)
length-of_weight c (x ∷ held) (f, fit) there = elim (Bool-cases (x.weight == c)) [
  | inl full ↦
      let same : x.weight ≡ c = ground arith in omega (arith, same, length-total_weight c held fit)
  | inr less ↦ omega (arith, f.0, length-of_weight c held fit (ground arith))
]

-- After any operations on a new gate of a repository, a holder of the whole capacity (a write)
-- is the only holder.
pub write_excludes :
    (capacity : ℕ) (gate : ConcurrencyGate) (ops : List GateOp)
    → new_gate capacity ≡ ok gate
    → has_weight capacity (after_ops gate ops).0.held ≡ true
    → length (after_ops gate ops).0.held ≤ 1
write_excludes capacity gate ops made writes =
    let (b, same) = gate-IsBalanced capacity gate ops made in
    let last = (after_ops gate ops).0 in
    let many =
      length-of_weight last.capacity last.held b.held_fit
        (subst (λ c. has_weight c last.held ≡ true) (sym same) writes) in
    omega (arith, b.conserved, many)
