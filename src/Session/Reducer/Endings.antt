-- ===== src/Session/Reducer/Endings.antt =====
-- Events that end something: a turn, and a sub-agent that is cut short.
use specrails_core.Prelude.{
  String, Bool, true, false, not, Option, none, some, ◌≡◌, refl, ap, ◌∙◌, ok, arith, Option-cases,
  inl, inr,
}
use specrails_core.Prelude.Dict.{get, put, get-put_self}
use specrails_core.Session.Types.{SubagentPhase, phase_eq, turn_eq, input_eq, subagent_eq}
use specrails_core.Session.StateMachines.{subagent_transitions, can_transition, assert_transition}
use specrails_core.Session.Events.{
  SessionEventBody, TurnCompleted, turn_started, turn_output, turn_completed, subagent_phase,
}
use specrails_core.Session.Snapshot.{
  SessionSnapshot, SubagentNode, require_open_turn, require_subagent,
}
use specrails_core.Session.Reducer.{apply_body, moved_subagent}
use specrails_core.Session.Reducer.Frame.{turns_frame}
use specrails_core.Session.Reducer.Forest.{IsForest, body-Grows}

abbrev pub starts_turn : SessionEventBody → Bool
starts_turn (turn_started e) = true
starts_turn _ = false

pub completed-no_turn :
    (s : SessionSnapshot) (at : String) (e : TurnCompleted) (t : SessionSnapshot)
    → apply_body s at (turn_completed e) ≡ ok t
    → t.open_turn ≡ none
unfolding apply_body
completed-no_turn s at e t h = ground arith

pub no_turn-kept :
    (s : SessionSnapshot) (at : String) (e : SessionEventBody) (t : SessionSnapshot)
    → not (starts_turn e) ≡ true
    → s.open_turn ≡ none
    → apply_body s at e ≡ ok t
    → t.open_turn ≡ none
unfolding apply_body require_open_turn
no_turn-kept s at (turn_started e) t p q h = absurd (ground arith)
no_turn-kept s at (turn_output id channel delta) t p q h = absurd (ground arith)
no_turn-kept s at (turn_completed e) t p q h = completed-no_turn s at e t h
no_turn-kept s at e t p q h = (turns_frame s at e t refl h).0 ∙ q

-- Where a sub-agent that was cut short can be.
abbrev pub is_cut : SubagentPhase → Bool
is_cut SubagentPhase.stopped = true
is_cut SubagentPhase.killed = true
is_cut SubagentPhase.interrupted = true
is_cut _ = false

cut_stays :
    (p q : SubagentPhase)
    → is_cut p ≡ true
    → can_transition subagent_transitions p q ≡ true
    → is_cut q ≡ true
unfolding can_transition subagent_transitions
cut_stays p q c h = ground arith

-- The sub-agent `k` was cut short, in a tree that is well formed.
pub record WasCut (k : String) (s : SessionSnapshot) : Type 0 where
  pub forest : IsForest s.subagents
  pub node : SubagentNode
  pub found : get k s.subagents ≡ some node
  pub is_over : is_cut node.phase ≡ true

pub WasCut-kept :
    (k : String) (s : SessionSnapshot) (at : String) (e : SessionEventBody) (t : SessionSnapshot)
    → WasCut k s
    → apply_body s at e ≡ ok t
    → WasCut k t
WasCut-kept k s at e t w h =
    let (forest, progress) = body-Grows s at e t h w.forest in
    let (node, found, _, moved) = progress k w.node w.found in
    record {
      forest = forest;
      node = node;
      found = found;
      is_over = cut_stays w.node.phase node.phase w.is_over moved;
    }

pub moved-WasCut :
    (k : String) (phase : SubagentPhase) (reason : Option String) (s : SessionSnapshot)
    (at : String) (t : SessionSnapshot)
    → is_cut phase ≡ true
    → IsForest s.subagents
    → apply_body s at (subagent_phase k phase reason) ≡ ok t
    → WasCut k t
unfolding apply_body require_subagent assert_transition
moved-WasCut k phase reason s at t c f h = elim (Option-cases (get k s.subagents)) [
  | inl unknown ↦ absurd (ground arith)
  | inr (node, found) ↦
      let (forest, _) = body-Grows s at (subagent_phase k phase reason) t h f in
      let key : node.subagent_id ≡ k = f.keyed k node found in
      let written : t.subagents
          ≡ put node.subagent_id (moved_subagent at phase reason node) s.subagents =
        ground arith in
      record {
        forest = forest;
        node = moved_subagent at phase reason node;
        found =
            ap (λ d. get k d) written
            ∙ ap (λ i. get k (put i (moved_subagent at phase reason node) s.subagents)) key
            ∙ get-put_self k (moved_subagent at phase reason node) s.subagents;
        is_over = c;
      }
]
