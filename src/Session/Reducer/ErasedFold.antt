-- ===== src/Session/Reducer/ErasedFold.antt =====
-- src/agent-runtime/session/domain/redaction.ts against snapshot.ts: what the fold makes of the free
-- texts of a journal does not reach anything else.
use mathlib.Core.Option.{map as option_map}
use specrails_core.Prelude.{
  ℕ, ◌+◌, str_eq, ◌≡◌, refl, sym, ap, ◌∙◌, String, Bool, true, false, not, ◌&&◌, Option, none, some,
  List, [], ◌∷◌, or_else, ok, err, ok-injective, ◌>>=◌, ◌>>◌, guard, ◌==◌, arith, Bool-cases,
  Option-cases, inl, inr, map,
}
use specrails_core.Prelude.Dict.{get, put, map_values, get-map_values, put-map_values}
use specrails_core.Session.StateMachines.{
  assert_transition, input_transitions, subagent_transitions, is_live_subagent_phase,
}
use specrails_core.Session.Types.{
  SessionErrorCode, SubagentPhase, OutputChannel, phase_eq, turn_eq, input_eq, subagent_eq,
}
use specrails_core.Session.Events.{
  SessionEvent, SessionEventBody, SessionEventEnvelope, UpdateOutcome, moved_to, session_opened,
  session_phase, session_process, session_provider_ref, session_updated, session_closed,
  input_accepted, input_state, turn_started, turn_output, turn_tool, turn_completed,
  subagent_started, subagent_phase, subagent_output, subagent_usage, subagent_result,
  subagents_settled, output_truncated, notice_interruption, provider_diagnostic,
}
use specrails_core.Session.Snapshot.{
  OpenTurn, SubagentNode, SessionSnapshot, TurnRecord, Outcome, require_open_turn, require_subagent,
}
use specrails_core.Session.Reducer.{
  apply_body, apply_event, fold_step, fold_events, is_closed, is_diagnostic, accept_input,
  change_input, complete_turns, complete_turn, output_turn, start_turn, start_subagent,
  move_subagent, use_subagent, give_result, has_parent, open_session, update_session,
  accepted_record, moved_record, move_input, add_output, new_subagent, restart_subagent,
  moved_subagent, note_subagent,
}
use specrails_core.Session.Redaction.{redact_body, redact_event}
use specrails_core.Session.Reducer.Erased.{
  erased_text, erased_json, erase_body, erase_input, erase_node, erase_turn, erase, erased,
  prune_inputs-erased, has_parent-erased, complete_turns-erased,
}

-- The table is asked of what is kept.
erased-guarded :
    (check : Outcome (Unit {0})) (s t : SessionSnapshot)
    → erase s ≡ t
    → (check >> ok t) ≡ erased (check >> ok s)
erased-guarded (ok done) s t h = ap (λ u. ok u) (sym h)
erased-guarded (err code) s t h = refl

-- Writing a node without its texts.
with-erased :
    (s : SessionSnapshot) (node : SubagentNode)
    → erase (record s { subagents = put node.subagent_id node s.subagents }) ≡ record (erase s) {
      subagents = put node.subagent_id (erase_node node) (map_values erase_node s.subagents);
    }
with-erased s node = rw (put-map_values erase_node node.subagent_id node s.subagents) refl

-- What is done with a known sub-agent.
known-erased :
    (s : SessionSnapshot) (id : String) (change change' : SubagentNode → Outcome SessionSnapshot)
    → ((node : SubagentNode) → change' (erase_node node) ≡ erased (change node))
    → (require_subagent (erase s) id >>= change') ≡ erased (require_subagent s id >>= change)
unfolding require_subagent
known-erased s id change change' h = elim (Option-cases (get id s.subagents)) [
  | inl gone ↦ rw (get-map_values erase_node id s.subagents, gone, require_subagent) refl
  | inr (node, found) ↦
      rw (get-map_values erase_node id s.subagents, found, require_subagent) (h node)
]

-- What is done with the open turn.
open-erased :
    (s : SessionSnapshot) (id : String) (change change' : OpenTurn → Outcome SessionSnapshot)
    → ((turn : OpenTurn) → change' (erase_turn turn) ≡ erased (change turn))
    → (require_open_turn (erase s) id >>= change') ≡ erased (require_open_turn s id >>= change)
unfolding require_open_turn
open-erased s id change change' h = elim (Option-cases s.open_turn) [
  | inl closed ↦ rw (closed, require_open_turn) refl
  | inr (turn, found) ↦ elim (Bool-cases (str_eq turn.turn_id id)) [
    | inl known ↦ rw (found, known, require_open_turn) (h turn)
    | inr other ↦ rw (found, other, require_open_turn) refl
  ]
]

or_else-erased :
    (a b : Option String)
    → or_else (option_map erased_text a) (option_map erased_text b)
      ≡ option_map erased_text (or_else a b)
or_else-erased none b = refl
or_else-erased (some a) b = refl

moved_subagent-erased :
    (at : String) (phase : SubagentPhase) (reason : Option String) (node : SubagentNode)
    → moved_subagent at phase (option_map erased_text reason) (erase_node node)
      ≡ erase_node (moved_subagent at phase reason node)
moved_subagent-erased at phase reason node = elim (Bool-cases (is_live_subagent_phase phase)) [
  | inl live ↦ rw (live, or_else-erased reason none) refl
  | inr over ↦ rw (over, or_else-erased reason node.reason) refl
]

moved-erased :
    (s : SessionSnapshot) (at id : String) (phase : SubagentPhase) (reason : Option String)
    (node : SubagentNode)
    → erase (
        note_subagent phase id (record s {
          subagents = put node.subagent_id (moved_subagent at phase reason node) s.subagents;
        }))
      ≡ note_subagent phase id (record (erase s) {
        subagents =
            put node.subagent_id
              (moved_subagent at phase (option_map erased_text reason) (erase_node node))
              (map_values erase_node s.subagents);
      })
moved-erased s at id phase reason node =
    rw
      (
        moved_subagent-erased at phase reason node,
        put-map_values erase_node node.subagent_id (moved_subagent at phase reason node)
            s.subagents,
      )
      (ground arith)

ended-erased :
    (s : SessionSnapshot) (turns : Outcome (List TurnRecord))
    → (turns >>= λ ts. ok (record (erase s) { open_turn = none; turns = ts }))
      ≡ erased (turns >>= λ ts. ok (record s { open_turn = none; turns = ts }))
ended-erased s (ok ts) = refl
ended-erased s (err code) = refl

-- The `switch` writes the texts, and reads none of them.
apply_body-erased :
    (s : SessionSnapshot) (at : String) (e : SessionEventBody)
    → apply_body (erase s) at (erase_body e) ≡ erased (apply_body s at e)
unfolding apply_body redact_body require_open_turn require_subagent accept_input change_input
    complete_turn output_turn start_turn start_subagent move_subagent use_subagent give_result
    open_session update_session
apply_body-erased s at (session_opened e) = refl
apply_body-erased s at (session_phase phase) = ground arith
apply_body-erased s at (session_process e) = refl
apply_body-erased s at (session_provider_ref ref) = refl
apply_body-erased s at (session_updated changes UpdateOutcome.applied) = refl
apply_body-erased s at (session_updated changes UpdateOutcome.deferred) = refl
apply_body-erased s at (session_closed reason) = refl
apply_body-erased s at (subagents_settled settled live) = refl
apply_body-erased s at (output_truncated scope events bytes) = refl
apply_body-erased s at (notice_interruption subagents inputs) = refl
apply_body-erased s at (provider_diagnostic level code message) = refl
apply_body-erased s at (turn_started e) = ground arith
apply_body-erased s at (turn_output id OutputChannel.text delta) =
    open-erased s id (λ turn. ok (add_output s OutputChannel.text delta turn))
      (λ turn. ok (add_output (erase s) OutputChannel.text "" turn)) (λ turn. refl)
apply_body-erased s at (turn_output id OutputChannel.thinking delta) =
    open-erased s id (λ turn. ok s) (λ turn. ok (erase s)) (λ turn. refl)
apply_body-erased s at (turn_tool id tool) =
    open-erased s id (λ turn. ok s) (λ turn. ok (erase s)) (λ turn. refl)
apply_body-erased s at (turn_completed e) =
    rw (complete_turns-erased at "" (option_map erased_text e.error) e s.turns) (
      open-erased s e.turn_id
        (λ turn. complete_turns at e s.turns >>= λ turns.
          ok (record s { open_turn = none; turns = turns }))
        (λ turn. complete_turns at e s.turns >>= λ turns.
          ok (record (erase s) { open_turn = none; turns = turns }))
        (λ turn. ended-erased s (complete_turns at e s.turns)))
apply_body-erased s at (input_accepted e) =
    rw (get-map_values erase_input e.input_id s.inputs)
      (elim (Option-cases (get e.input_id s.inputs)) [
        | inl fresh ↦
            rw (fresh, put-map_values erase_input e.input_id (accepted_record e) s.inputs) refl
        | inr (input, known) ↦ rw known refl
      ])
apply_body-erased s at (input_state e) = elim (Option-cases (get e.input_id s.inputs)) [
  | inl gone ↦
      rw (get-map_values erase_input e.input_id s.inputs, gone, apply_body, change_input) refl
  | inr (input, found) ↦
      rw (get-map_values erase_input e.input_id s.inputs, found, apply_body, change_input)
        (erased-guarded (assert_transition input_transitions input.state (moved_to e.state))
          (move_input s e input) _
          (rw
            (
              put-map_values erase_input e.input_id (moved_record e input) s.inputs,
              prune_inputs-erased (put e.input_id (moved_record e input) s.inputs),
            )
            refl))
]
apply_body-erased s at (subagent_started e) = elim (Option-cases (get e.subagent_id s.subagents)) [
  | inl fresh ↦
      rw
        (
          get-map_values erase_node e.subagent_id s.subagents,
          fresh,
          has_parent-erased s e.parent_id,
          apply_body,
          start_subagent,
        )
        (erased-guarded (guard (has_parent s e.parent_id) SessionErrorCode.illegal_transition) _ _
          (with-erased s (new_subagent at e)))
  | inr (node, found) ↦
      rw (get-map_values erase_node e.subagent_id s.subagents, found, apply_body, start_subagent)
        (erased-guarded (assert_transition subagent_transitions node.phase SubagentPhase.running) _
          _ (with-erased s (restart_subagent node)))
]
apply_body-erased s at (subagent_phase id phase reason) =
    known-erased s id
      (λ node.
        assert_transition subagent_transitions node.phase phase
        >> ok (
            note_subagent phase id (record s {
              subagents = put node.subagent_id (moved_subagent at phase reason node) s.subagents;
            })))
      (λ node.
        assert_transition subagent_transitions node.phase phase
        >> ok (
            note_subagent phase id (record (erase s) {
              subagents =
                  put node.subagent_id
                    (moved_subagent at phase (option_map erased_text reason) node)
                    (map_values erase_node s.subagents);
            })))
      (λ node.
        erased-guarded (assert_transition subagent_transitions node.phase phase) _ _
          (moved-erased s at id phase reason node))
apply_body-erased s at (subagent_output id channel delta tool) =
    known-erased s id (λ _. ok s) (λ _. ok (erase s)) (λ node. refl)
apply_body-erased s at (subagent_usage e) =
    known-erased s e.subagent_id _ _ (λ node. ap (λ u. ok u) (sym (with-erased s _)))
apply_body-erased s at (subagent_result id summary) =
    known-erased s id _ _ (λ node. ap (λ u. ok u) (sym (with-erased s _)))

diagnostic-erased : (e : SessionEventBody) → is_diagnostic (erase_body e) ≡ is_diagnostic e
unfolding redact_body
diagnostic-erased e = ground arith

abbrev pub erase_event : SessionEvent → SessionEvent
erase_event e = redact_event erased_text erased_json e

abbrev pub erase_envelope : SessionEventEnvelope → SessionEventEnvelope
erase_envelope x = record x { event = erase_event x.event }

apply_event-erased :
    (s : SessionSnapshot) (e : SessionEvent)
    → apply_event (erase s) (erase_event e) ≡ erased (apply_event s e)
unfolding apply_event redact_event
apply_event-erased s e = elim (Bool-cases (is_closed s.status && not (is_diagnostic e.body))) [
  | inl refused ↦ rw (diagnostic-erased e.body, refused) refl
  | inr admitted ↦ rw (diagnostic-erased e.body, admitted) (apply_body-erased s e.at e.body)
]

numbered-erased :
    (r : Outcome SessionSnapshot) (n : ℕ)
    → (erased r >>= λ t. ok (record t { last_seq = n }))
      ≡ erased (r >>= λ t. ok (record t { last_seq = n }))
numbered-erased (ok t) n = refl
numbered-erased (err code) n = refl

guard-erased :
    (test : Bool) (code : SessionErrorCode) (r r' : Outcome SessionSnapshot)
    → r' ≡ erased r
    → (guard test code >> r') ≡ erased (guard test code >> r)
guard-erased true code r r' h = h
guard-erased false code r r' h = refl

fold_step-erased :
    (s : SessionSnapshot) (x : SessionEventEnvelope)
    → fold_step (erase s) (erase_envelope x) ≡ erased (fold_step s x)
unfolding fold_step
fold_step-erased s x =
    guard-erased (str_eq x.session_id s.session_id) SessionErrorCode.internal _ _ (
      guard-erased (x.seq == s.last_seq + 1) SessionErrorCode.internal _ _ (
        ap (λ (r : Outcome SessionSnapshot). r >>= λ t. ok (record t { last_seq = x.seq }))
          (apply_event-erased s x.event)
        ∙ numbered-erased (apply_event s x.event) x.seq))

-- Folding without the texts is folding, and then leaving out the texts.
pub fold_events-erased :
    (s : SessionSnapshot) (xs : List SessionEventEnvelope)
    → fold_events (erase s) (map erase_envelope xs) ≡ erased (fold_events s xs)
unfolding fold_events
fold_events-erased s [] = refl
fold_events-erased s (x ∷ xs) =
    ap (λ r. r >>= λ t. fold_events t (map erase_envelope xs)) (fold_step-erased s x)
    ∙ go (fold_step s x) (λ t. fold_events-erased t xs)
  where
    go :
        (r : Outcome SessionSnapshot)
        → ((t : SessionSnapshot)
            → fold_events (erase t) (map erase_envelope xs) ≡ erased (fold_events t xs))
        → (erased r >>= λ t. fold_events t (map erase_envelope xs))
          ≡ erased (r >>= λ t. fold_events t xs)
    go (ok t) ih = ih t
    go (err code) ih = refl

pub alike-fold :
    (s t : SessionSnapshot) (xs : List SessionEventEnvelope)
    → erase s ≡ erase t
    → erased (fold_events s xs) ≡ erased (fold_events t xs)
alike-fold s t xs h =
    sym (fold_events-erased s xs)
    ∙ ap (λ u. fold_events u (map erase_envelope xs)) h
    ∙ fold_events-erased t xs

pub erased-ok :
    (r : Outcome SessionSnapshot) (t : SessionSnapshot)
    → erased r ≡ ok (erase t)
    → (s : SessionSnapshot) × (r ≡ ok s) × (erase s ≡ erase t)
erased-ok (ok s) t h = (s, refl, ok-injective h)
erased-ok (err code) t h = absurd cc
