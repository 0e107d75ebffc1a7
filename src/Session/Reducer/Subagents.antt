-- ===== src/Session/Reducer/Subagents.antt =====
-- The sub-agents of a session: snapshot.ts, the `subagent.*` cases of `applyEvent`.
use specrails_core.Prelude.{
  String, true, ◌≡◌, refl, ◌⊎◌, inl, inr, Option, none, some, or_else, ok, Option-cases, arith,
}
use specrails_core.Prelude.Dict.{Dict, get, put}
use specrails_core.Session.Types.{SubagentPhase, phase_eq, turn_eq, input_eq, subagent_eq}
use specrails_core.Session.StateMachines.{subagent_transitions, can_transition, assert_transition}
use specrails_core.Session.Events.{
  SessionEventBody, subagent_started, subagent_phase, subagent_usage, subagent_result,
  SubagentStarted, SubagentUsage,
}
use specrails_core.Session.Snapshot.{SubagentNode, SessionSnapshot, require_subagent}
use specrails_core.Session.Reducer.{
  apply_body, has_parent, restart_subagent, new_subagent, moved_subagent,
}
use specrails_core.Session.Reducer.Frame.{subagents_frame}

-- An accepted event on a sub-agent writes one node: a new one with a known parent, or the next
-- state of the one that is there, with its id and its parent.
pub data Writes (s : SessionSnapshot) (d : Dict SubagentNode) : Type 0 where
  created :
      (node : SubagentNode)
      → get node.subagent_id s.subagents ≡ none
      → node.phase ≡ SubagentPhase.running
      → has_parent s node.parent_id ≡ true
      → d ≡ put node.subagent_id node s.subagents
      → Writes s d
  changed :
      (id : String) (old node : SubagentNode)
      → get id s.subagents ≡ some old
      → node.subagent_id ≡ old.subagent_id
      → node.parent_id ≡ old.parent_id
      → can_transition subagent_transitions old.phase node.phase ≡ true
      → d ≡ put node.subagent_id node s.subagents
      → Writes s d

pub can_stay : (phase : SubagentPhase) → can_transition subagent_transitions phase phase ≡ true
unfolding can_transition subagent_transitions
can_stay phase = ground arith

require-inv :
    (s : SessionSnapshot) (id : String) (node : SubagentNode)
    → require_subagent s id ≡ ok node
    → get id s.subagents ≡ some node
unfolding require_subagent
require-inv s id node h = ground arith

started-Writes :
    (s : SessionSnapshot) (at : String) (e : SubagentStarted) (t : SessionSnapshot)
    → apply_body s at (subagent_started e) ≡ ok t
    → Writes s t.subagents
unfolding apply_body assert_transition
started-Writes s at e t h = elim (Option-cases (get e.subagent_id s.subagents)) [
  | inl new ↦ created (new_subagent at e) new refl (ground arith) (ground arith)
  | inr (old, found) ↦
      changed e.subagent_id old (restart_subagent old) found refl refl (ground arith) (ground arith)
]

moved-Writes :
    (s : SessionSnapshot) (at id : String) (phase : SubagentPhase) (reason : Option String)
    (t : SessionSnapshot)
    → apply_body s at (subagent_phase id phase reason) ≡ ok t
    → Writes s t.subagents
unfolding apply_body require_subagent assert_transition
moved-Writes s at id phase reason t h = elim (Option-cases (get id s.subagents)) [
  | inl unknown ↦ absurd (ground arith)
  | inr (old, found) ↦
      changed id old (moved_subagent at phase reason old) found refl refl (ground arith)
        (ground arith)
]

used-Writes :
    (s : SessionSnapshot) (at : String) (e : SubagentUsage) (t : SessionSnapshot)
    → apply_body s at (subagent_usage e) ≡ ok t
    → Writes s t.subagents
unfolding apply_body require_subagent
used-Writes s at e t h = elim (Option-cases (get e.subagent_id s.subagents)) [
  | inl unknown ↦ absurd (ground arith)
  | inr (old, found) ↦
      changed e.subagent_id old
        (record old {
          usage = some e.usage;
          tool_uses = or_else e.tool_uses old.tool_uses;
          duration_ms = or_else e.duration_ms old.duration_ms;
        })
        found refl refl (can_stay old.phase) (ground arith)
]

given-Writes :
    (s : SessionSnapshot) (at id summary : String) (t : SessionSnapshot)
    → apply_body s at (subagent_result id summary) ≡ ok t
    → Writes s t.subagents
unfolding apply_body require_subagent
given-Writes s at id summary t h = elim (Option-cases (get id s.subagents)) [
  | inl unknown ↦ absurd (ground arith)
  | inr (old, found) ↦
      changed id old (record old { result_summary = some summary }) found refl refl
        (can_stay old.phase) (ground arith)
]

pub body-Writes :
    (s : SessionSnapshot) (at : String) (e : SessionEventBody) (t : SessionSnapshot)
    → apply_body s at e ≡ ok t
    → (t.subagents ≡ s.subagents) ⊎ Writes s t.subagents
body-Writes s at (subagent_started e) t h = inr (started-Writes s at e t h)
body-Writes s at (subagent_phase id phase reason) t h = inr (moved-Writes s at id phase reason t h)
body-Writes s at (subagent_usage e) t h = inr (used-Writes s at e t h)
body-Writes s at (subagent_result id summary) t h = inr (given-Writes s at id summary t h)
body-Writes s at e t h = inl (subagents_frame s at e t refl h)
