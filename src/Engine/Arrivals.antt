-- ===== src/Engine/Arrivals.antt =====
-- A gate serves in the order of arrival: no later request overtakes an earlier one.
use mathlib.Core.List.{append-nil, append_assoc}
use specrails_core.Prelude.{
  ℕ, ◌+◌, ◌≡◌, ◌&&◌, List, [], ◌∷◌, ◌++◌, leb, ◌==◌, ok, arith, Bool-cases, inl, inr, subst, sym,
}
use specrails_core.Engine.Gate.{
  Waiter, ConcurrencyGate, drain_permits, new_gate, acquire, has_waiter, without_waiter, abort,
  release, weight_of,
}
use specrails_core.Engine.Permits.{GateOp, after_op, after_ops, drain_queue-order}

-- `xs` is `ys` with some left out.
pub data InOrder : List Waiter → List Waiter → Type 0 where
  done : InOrder [] []
  take_next : {x : Waiter} {xs ys : List Waiter} → InOrder xs ys → InOrder (x ∷ xs) (x ∷ ys)
  leave_out : {y : Waiter} {xs ys : List Waiter} → InOrder xs ys → InOrder xs (y ∷ ys)

InOrder-refl : (xs : List Waiter) → InOrder xs xs
InOrder-refl [] = done
InOrder-refl (x ∷ xs) = take_next (InOrder-refl xs)

InOrder-trans : {xs ys zs : List Waiter} → InOrder xs ys → InOrder ys zs → InOrder xs zs
InOrder-trans p done = p
InOrder-trans (take_next p) (take_next q) = take_next (InOrder-trans p q)
InOrder-trans (leave_out p) (take_next q) = leave_out (InOrder-trans p q)
InOrder-trans p (leave_out q) = leave_out (InOrder-trans p q)

InOrder-append :
    {us vs xs ys : List Waiter} → InOrder us vs → InOrder xs ys → InOrder (us ++ xs) (vs ++ ys)
InOrder-append done q = q
InOrder-append (take_next p) q = take_next (InOrder-append p q)
InOrder-append (leave_out p) q = leave_out (InOrder-append p q)

InOrder-without : (id : ℕ) (ws : List Waiter) → InOrder (without_waiter id ws) ws
unfolding without_waiter
InOrder-without id [] = done
InOrder-without id (w ∷ ws) = elim (Bool-cases (w.id == id)) [
  | inl found ↦ rw found (leave_out (InOrder-refl ws))
  | inr other ↦ rw other (take_next (InOrder-without id ws))
]

-- The requests for which a promise was made, in the order of the calls.
abbrev pub arrival : GateOp → List Waiter
arrival (GateOp.acquire_op is_aborted waiter) = waiter ∷ []
arrival (GateOp.abort_op id) = []
arrival (GateOp.release_op id) = []

abbrev pub arrivals : List GateOp → List Waiter
arrivals [] = []
arrivals (op ∷ ops) = arrival op ++ arrivals ops

drain_permits-InOrder :
    (gate : ConcurrencyGate) → (drain_permits gate).1 ++ (drain_permits gate).0.queue ≡ gate.queue
unfolding drain_permits
drain_permits-InOrder gate = drain_queue-order gate.available gate.queue

same-InOrder : {xs ys : List Waiter} → xs ≡ ys → InOrder xs ys
same-InOrder {xs} same = subst (λ ys. InOrder xs ys) same (InOrder-refl xs)

unserved :
    (gate : ConcurrencyGate) (waiter : Waiter) → InOrder gate.queue (gate.queue ++ (waiter ∷ []))
unserved gate waiter =
    InOrder-trans (same-InOrder (sym (append-nil gate.queue)))
      (InOrder-append (InOrder-refl gate.queue) (leave_out done))

widened :
    (gate : ConcurrencyGate) {xs : List Waiter}
    → InOrder xs gate.queue
    → InOrder xs (gate.queue ++ [])
widened gate p = InOrder-trans p (same-InOrder (sym (append-nil gate.queue)))

op-InOrder :
    (gate : ConcurrencyGate) (op : GateOp)
    → let r = after_op gate op in InOrder (r.1 ++ r.0.queue) (gate.queue ++ arrival op)
unfolding after_op acquire abort release
op-InOrder gate (GateOp.acquire_op is_aborted waiter) =
    elim (Bool-cases (leb 1 waiter.weight && leb waiter.weight gate.capacity)) [
      | inl fits ↦ elim (Bool-cases is_aborted) [
        | inl stop ↦ rw (fits, stop) (unserved gate waiter)
        | inr go ↦
            rw (fits, go)
              (same-InOrder
                (drain_permits-InOrder (record gate { queue = gate.queue ++ (waiter ∷ []) })))
      ]
      | inr bad ↦ rw bad (unserved gate waiter)
    ]
op-InOrder gate (GateOp.abort_op id) = elim (Bool-cases (has_waiter id gate.queue)) [
  | inl waits ↦ rw waits (
      widened gate (
        InOrder-trans
          (same-InOrder
            (drain_permits-InOrder (record gate { queue = without_waiter id gate.queue })))
          (InOrder-without id gate.queue)))
  | inr gone ↦ rw gone (widened gate (InOrder-refl gate.queue))
]
op-InOrder gate (GateOp.release_op id) = elim (Bool-cases (has_waiter id gate.held)) [
  | inl holds ↦ rw holds (
      widened gate (
        same-InOrder (
          drain_permits-InOrder (record gate {
            available = gate.available + weight_of id gate.held;
            held = without_waiter id gate.held;
          }))))
  | inr gone ↦ rw gone (widened gate (InOrder-refl gate.queue))
]

ops-InOrder :
    (gate : ConcurrencyGate) (ops : List GateOp)
    → let r = after_ops gate ops in InOrder (r.1 ++ r.0.queue) (gate.queue ++ arrivals ops)
unfolding after_ops
ops-InOrder gate [] = widened gate (InOrder-refl gate.queue)
ops-InOrder gate (op ∷ ops) =
    let first = after_op gate op in
    let rest = after_ops first.0 ops in
    let later = InOrder-append (InOrder-refl first.1) (ops-InOrder first.0 ops) in
    let sooner = InOrder-append (op-InOrder gate op) (InOrder-refl (arrivals ops)) in
    InOrder-trans (same-InOrder (append_assoc first.1 rest.1 rest.0.queue)) (
      InOrder-trans later (
        InOrder-trans (same-InOrder (sym (append_assoc first.1 first.0.queue (arrivals ops)))) (
          InOrder-trans sooner
            (same-InOrder (append_assoc gate.queue (arrival op) (arrivals ops))))))

new_gate-empty :
    (capacity : ℕ) (gate : ConcurrencyGate) → new_gate capacity ≡ ok gate → gate.queue ≡ []
unfolding new_gate
new_gate-empty capacity gate made = elim (Bool-cases (leb 1 capacity)) [
  | inl positive ↦ ground arith
  | inr zero_capacity ↦ absurd (ground arith)
]

-- On a new gate, whatever is asked for, aborted and released: the requests that were admitted,
-- followed by those that still wait, stand in the order in which they were asked for.
pub served-InOrder :
    (capacity : ℕ) (gate : ConcurrencyGate) (ops : List GateOp)
    → new_gate capacity ≡ ok gate
    → InOrder ((after_ops gate ops).1 ++ (after_ops gate ops).0.queue) (arrivals ops)
unfolding new_gate
served-InOrder capacity gate ops made =
    subst
      (λ (waiting : List Waiter).
        InOrder ((after_ops gate ops).1 ++ (after_ops gate ops).0.queue) (waiting ++ arrivals ops))
      (new_gate-empty capacity gate made) (ops-InOrder gate ops)
