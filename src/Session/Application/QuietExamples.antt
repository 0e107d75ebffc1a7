-- ===== src/Session/Application/QuietExamples.antt =====
-- A session with an open turn and a running sub-agent, as its process goes away.
use specrails_core.Prelude.{
  none, some, [], ◌∷◌, ◌≡◌, refl, arith, String, Option, str_eq, eq_iff, Bool-cases, inl, inr, ap,
  sym, ◌∙◌,
}
use specrails_core.Prelude.Dict.{get, put, remove}
use specrails_core.Session.Types.{SubagentKind, SubagentPhase, SessionPhase, TurnOrigin}
use specrails_core.Session.Snapshot.{
  SessionSnapshot, OpenTurn, SubagentNode, require_open_turn, require_subagent, add_unique,
  empty_snapshot,
}
use specrails_core.Session.Reducer.Forest.{IsForest}
use specrails_core.Session.Reducer.Endings.{WasCut}
use specrails_core.Session.Application.Live.{Live, when, choose, skip, look, set, ◌⨾◌}
use specrails_core.Session.Application.Commit.{commit, commit_with, commit_events, apply_all}
use specrails_core.Session.Redaction.{redact_event, redact_body}
use specrails_core.Session.Reducer.{
  fold_events, fold_step, apply_event, apply_body, complete_turn, complete_turns, complete_one,
  move_subagent,
}
use specrails_core.Session.OutputBuffer.{drain}
use specrails_core.Session.StateMachines.{
  subagent_transitions, turn_transitions, can_transition, assert_transition,
}
use specrails_core.Session.Application.Work.{end_running_work, interrupted_by}
use specrails_core.Session.Application.Quiet.{turn_ends, subagent_ends}
use specrails_core.Session.Application.Examples.{live, deps}

abbrev turn : OpenTurn
turn = record {
  turn_id = "turn-1";
  origin = TurnOrigin.user;
  input_ids = [];
  started_at = "noon";
  text = "";
}

abbrev node : SubagentNode
node = record {
  subagent_id = "agent-1";
  parent_id = none;
  kind = SubagentKind.background;
  agent_type = none;
  description = "Search";
  phase = SubagentPhase.running;
  reason = none;
  restarts = 0;
  started_at = "noon";
  ended_at = none;
  usage = none;
  tool_uses = none;
  duration_ms = none;
  result_summary = none;
  delegated = none;
}

abbrev busy_state : SessionSnapshot
busy_state = record (live.state) {
  phase = SessionPhase.turn;
  open_turn = some turn;
  subagents = ("agent-1", node) ∷ [];
}

abbrev busy : Live
busy = record live { state = busy_state; stored = busy_state }

only_entry :
    (j id : String) (m n : SubagentNode) → get id ((j, m) ∷ []) ≡ some n → (j ≡ id) × (m ≡ n)
unfolding get
only_entry j id m n h = elim (Bool-cases (str_eq j id)) [
  | inl e ↦ ((eq_iff j id).0 e, ground arith)
  | inr e ↦ absurd (ground arith)
]

busy-IsForest : IsForest busy.state.subagents
busy-IsForest = record {
  keyed = λ id n h.
      let (key, same_node) = only_entry "agent-1" id node n h in
      ap (λ (m : SubagentNode). m.subagent_id) (sym same_node) ∙ key;
  rooted = λ id n h parent p.
      let (key, same_node) = only_entry "agent-1" id node n h in
      let clash : Path (Option String) none (some parent) =
        ap (λ (m : SubagentNode). m.parent_id) same_node ∙ p in
      absurd cc;
}

busy_ends : (end_running_work deps (interrupted_by "close") busy).thrown ≡ none
unfolding end_running_work when choose skip look set ◌⨾◌ commit commit_with commit_events apply_all
    fold_events fold_step redact_event redact_body apply_event apply_body complete_turn
    complete_turns complete_one move_subagent require_open_turn require_subagent
    subagent_transitions turn_transitions can_transition assert_transition get put add_unique drain
    empty_snapshot remove
busy_ends = refl

turn_ends_example :
    (end_running_work deps (interrupted_by "close") busy).live.state.open_turn ≡ none
turn_ends_example = turn_ends deps (interrupted_by "close") busy busy_ends

subagent_ends_example :
    WasCut "agent-1" (end_running_work deps (interrupted_by "close") busy).live.state
unfolding get
subagent_ends_example =
    subagent_ends deps (interrupted_by "close") busy "agent-1" node busy-IsForest refl refl refl
      refl busy_ends
