-- ===== src/Session/StateMachines/Reach.antt =====
-- How far the state machines can go.
use specrails_core.Prelude.{ℕ, ◌+◌, ◌≤◌, ◌≡◌, ◌≢◌, true, Eq, arith}
use specrails_core.Session.Types.{InputState, input_eq, subagent_eq, phase_eq, turn_eq}
use specrails_core.Session.StateMachines.{Table, can_transition, is_terminal, input_transitions}

-- Changes of state that a table allows, one after the other; applying the current state again
-- is none.
pub data Moves {S : Type 0} ⦃e : Eq S⦄ (table : Table S) : S → ℕ → S → Type 0 where
  stay : {a : S} → Moves table a 0 a
  move :
      {a b c : S} {n : ℕ}
      → a ≢ b
      → can_transition table a b ≡ true
      → Moves table b n c
      → Moves table a (n + 1) c

-- The changes that an input may still go through.
abbrev input_rank : InputState → ℕ
input_rank InputState.accepted = 3
input_rank InputState.queued = 2
input_rank InputState.started = 1
input_rank _ = 0

input_falls :
    (a b : InputState)
    → a ≢ b
    → can_transition input_transitions a b ≡ true
    → input_rank b + 1 ≤ input_rank a
unfolding can_transition input_transitions
input_falls a b ne h = ground arith

input-Moves :
    (a b : InputState) (n : ℕ) → Moves input_transitions a n b → n + input_rank b ≤ input_rank a
input-Moves a b _ stay = omega arith
input-Moves a b _ (move {b = c} {n = n} ne h rest) =
    let step = input_falls a c ne h in let rest' = input-Moves c b n rest in omega arith

-- An input changes its state three times at most, and not at all once it is terminal.
pub input-Moves_bounded :
    (a b : InputState) (n : ℕ)
    → Moves input_transitions a n b
    → (n ≤ 3) × (is_terminal input_transitions a ≡ true → n ≡ 0)
unfolding is_terminal input_transitions
input-Moves_bounded a b n moves =
    let bound = input-Moves a b n moves in (ground arith, λ h. ground arith)
