-- ===== src/Session/Timers/Stale.antt =====
-- A timer that was replaced or cancelled does not fire.
use specrails_core.Prelude.{ℕ, false, List, [], ◌∷◌, ◌≡◌, ◌≢◌, refl, arith, All}
use specrails_core.Prelude.Dict.{get, remove, keys, get-put, get-remove}
use specrails_core.Session.Timers.{
  SessionTimers, TimerKind, cancel, cancel_all, arm, ensure, is_handle, fire,
}

pub data TimerOp : Type 0 where
  arm_op ensure_op fire_op : TimerKind → ℕ → TimerOp
  cancel_op : List TimerKind → TimerOp
  cancel_all_op : TimerOp

pub after_op : SessionTimers → TimerOp → SessionTimers
after_op t (TimerOp.arm_op kind handle) = arm t kind handle
after_op t (TimerOp.ensure_op kind handle) = ensure t kind handle
after_op t (TimerOp.fire_op kind handle) = (fire t kind handle).0
after_op t (TimerOp.cancel_op kinds) = cancel t kinds
after_op t TimerOp.cancel_all_op = cancel_all t

pub after_ops : SessionTimers → List TimerOp → SessionTimers
unfolding after_op
after_ops t [] = t
after_ops t (op ∷ ops) = after_ops (after_op t op) ops

-- The operation does not give the handle to a timer: a clock never gives one twice.
abbrev pub Spares : ℕ → TimerOp → Type 0
Spares h (TimerOp.arm_op kind handle) = handle ≢ h
Spares h (TimerOp.ensure_op kind handle) = handle ≢ h
Spares h _ = Unit

abbrev Stale : TimerKind → ℕ → SessionTimers → Type 0
Stale kind h t = is_handle (get kind t.armed) h ≡ false

remove-Stale :
    (kind : TimerKind) (h : ℕ) (k : TimerKind) (t : SessionTimers)
    → Stale kind h t
    → Stale kind h (record t { armed = remove k t.armed })
remove-Stale kind h k t stale = ground (arith, get-remove k kind t.armed)

cancel-Stale :
    (kind : TimerKind) (h : ℕ) (t : SessionTimers) (kinds : List TimerKind)
    → Stale kind h t
    → Stale kind h (cancel t kinds)
unfolding cancel
cancel-Stale kind h t [] stale = stale
cancel-Stale kind h t (k ∷ kinds) stale =
    cancel-Stale kind h (record t { armed = remove k t.armed }) kinds
      (remove-Stale kind h k t stale)

arm-Stale :
    (kind : TimerKind) (h : ℕ) (t : SessionTimers) (k : TimerKind) (handle : ℕ)
    → handle ≢ h
    → Stale kind h t
    → Stale kind h (arm t k handle)
unfolding arm cancel
arm-Stale kind h t k handle ne stale =
    let removed = remove-Stale kind h k t stale in
    ground (arith, get-put k kind handle (remove k t.armed))

op-Stale :
    (kind : TimerKind) (h : ℕ) (t : SessionTimers) (op : TimerOp)
    → Spares h op
    → Stale kind h t
    → Stale kind h (after_op t op)
unfolding after_op ensure fire cancel_all
op-Stale kind h t (TimerOp.arm_op k handle) ne stale = arm-Stale kind h t k handle ne stale
op-Stale kind h t (TimerOp.ensure_op k handle) ne stale =
    let armed = arm-Stale kind h t k handle ne stale in ground arith
op-Stale kind h t (TimerOp.fire_op k handle) ne stale =
    let removed = remove-Stale kind h k t stale in ground arith
op-Stale kind h t (TimerOp.cancel_op kinds) ne stale = cancel-Stale kind h t kinds stale
op-Stale kind h t TimerOp.cancel_all_op ne stale = cancel-Stale kind h t (keys t.armed) stale

-- A timer that is no longer the one armed under its kind, because it was cancelled, replaced or
-- has fired, never runs its callback and changes nothing, whatever is armed or cancelled later.
pub stale_never_fires :
    (kind : TimerKind) (h : ℕ) (t : SessionTimers) (ops : List TimerOp)
    → is_handle (get kind t.armed) h ≡ false
    → All (Spares h) ops
    → fire (after_ops t ops) kind h ≡ (after_ops t ops, false)
unfolding after_ops fire
stale_never_fires kind h t [] stale spared = rw stale refl
stale_never_fires kind h t (op ∷ ops) stale (spared, rest) =
    stale_never_fires kind h (after_op t op) ops (op-Stale kind h t op spared stale) rest
