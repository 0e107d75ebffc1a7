-- ===== src/Session/Timers.antt =====
-- src/agent-runtime/session/application/timers.ts: the named timers of one session. The handle that
-- the clock gives to a timer is an argument; `fire` is the callback that the clock runs later, and
-- may run although the handle was cancelled. A kind is one of the strings of `TimerKind`.
pub mod Stale
use specrails_core.Prelude.{
  ℕ, String, Bool, true, false, Option, none, some, List, [], ◌∷◌, ◌==◌, is_some, if◌then◌else◌,
}
use specrails_core.Prelude.Dict.{Dict, get, put, remove, keys}

abbrev pub TimerKind : Type 0
TimerKind = String

-- `armed`
pub record SessionTimers : Type 0 where
  pub armed : Dict ℕ

abbrev pub no_timers : SessionTimers
no_timers = record { armed = [] }

abbrev pub is_armed : SessionTimers → TimerKind → Bool
is_armed t kind = is_some (get kind t.armed)

-- `cancel(...kinds)`
unfoldable pub cancel : SessionTimers → List TimerKind → SessionTimers
cancel t [] = t
cancel t (kind ∷ kinds) = cancel (record t { armed = remove kind t.armed }) kinds

unfoldable pub cancel_all : SessionTimers → SessionTimers
unfolding cancel
cancel_all t = cancel t (keys t.armed)

unfoldable pub arm : SessionTimers → TimerKind → ℕ → SessionTimers
unfolding cancel
arm t kind handle = record t { armed = put kind handle (cancel t (kind ∷ [])).armed }

unfoldable pub ensure : SessionTimers → TimerKind → ℕ → SessionTimers
unfolding arm
ensure t kind handle = if is_armed t kind then t else arm t kind handle

abbrev pub is_handle : Option ℕ → ℕ → Bool
is_handle none handle = false
is_handle (some h) handle = h == handle

-- The new timers, and whether the session's callback runs.
unfoldable pub fire : SessionTimers → TimerKind → ℕ → SessionTimers × Bool
fire t kind handle =
    if is_handle (get kind t.armed) handle
    then (record t { armed = remove kind t.armed }, true)
    else (t, false)
