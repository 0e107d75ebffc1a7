-- ===== src/Session/StateMachines.antt =====
-- src/agent-runtime/session/domain/state-machines.ts: the transition tables and their tests.
pub mod Reach
use specrails_core.Prelude.{
  Bool, true, false, not, ◌||◌, Option, none, some, List, [], ◌∷◌, any, is_some, Eq, same, Result,
  guard, if◌then◌else◌,
}
use specrails_core.Session.Types.{
  SessionErrorCode, SessionPhase, TurnStatus, InputState, SubagentPhase, phase_eq, turn_eq,
  input_eq, subagent_eq,
}

-- A state with no row is terminal.
abbrev pub Table : Type 0 → Type 0
Table S = List (S × List S)

abbrev pub session_phase_transitions : Table SessionPhase
session_phase_transitions =
    (SessionPhase.idle, SessionPhase.turn ∷ SessionPhase.background ∷ [])
    ∷ (SessionPhase.turn, SessionPhase.idle ∷ SessionPhase.background ∷ [])
    ∷ (SessionPhase.background, SessionPhase.turn ∷ SessionPhase.idle ∷ [])
    ∷ []

unfoldable pub turn_transitions : Table TurnStatus
turn_transitions =
    (
      TurnStatus.running,
      TurnStatus.completed ∷ TurnStatus.failed ∷ TurnStatus.stopped ∷ TurnStatus.interrupted ∷ [],
    )
    ∷ []

unfoldable pub input_transitions : Table InputState
input_transitions =
    (
      InputState.accepted,
      InputState.queued ∷ InputState.started ∷ InputState.rejected ∷ InputState.interrupted ∷ [],
    )
    ∷ (InputState.queued, InputState.started ∷ InputState.rejected ∷ InputState.interrupted ∷ [])
    ∷ (InputState.started, InputState.completed ∷ InputState.interrupted ∷ [])
    ∷ []

unfoldable pub subagent_transitions : Table SubagentPhase
subagent_transitions =
    (
      SubagentPhase.running,
      SubagentPhase.idle ∷ SubagentPhase.failed ∷ SubagentPhase.stopped ∷ SubagentPhase.killed
          ∷ SubagentPhase.interrupted ∷ [],
    )
    ∷ (
      SubagentPhase.idle,
      SubagentPhase.running ∷ SubagentPhase.failed ∷ SubagentPhase.stopped ∷ SubagentPhase.killed
          ∷ SubagentPhase.interrupted ∷ [],
    )
    ∷ (SubagentPhase.stopped, SubagentPhase.killed ∷ [])
    ∷ []

module _ {S : Type 0} ⦃e : Eq S⦄ where
  -- `table[from]`
  abbrev pub row : Table S → S → Option (List S)
  row [] from = none
  row ((s, to) ∷ rows) from = if same s from then some to else row rows from

  abbrev pub allowed : Option (List S) → S → Bool
  allowed none to = false
  allowed (some states) to = any (λ s. same s to) states

  unfoldable pub can_transition : Table S → S → S → Bool
  can_transition table from to = same from to || allowed (row table from) to

  unfoldable pub assert_transition : Table S → S → S → Result SessionErrorCode (Unit {0})
  unfolding can_transition
  assert_transition table from to =
      guard (can_transition table from to) SessionErrorCode.illegal_transition

  pub is_terminal : Table S → S → Bool
  is_terminal table state = not (is_some (row table state))

abbrev pub is_live_subagent_phase : SubagentPhase → Bool
is_live_subagent_phase phase = same phase SubagentPhase.running
