-- ===== src/Session/Reducer/Numbering.antt =====
-- The number of the last event is written by the fold alone, and read by no case of the `switch`.
use specrails_core.Prelude.{
  ℕ, ◌+◌, String, not, ◌&&◌, ◌≡◌, ok, ◌>>=◌, arith, Bool-cases, inl, inr, ap, ◌∙◌, eq_refl,
}
use specrails_core.Session.Types.{OutputChannel, phase_eq, turn_eq, input_eq, subagent_eq}
use specrails_core.Session.Events.{
  SessionEvent, SessionEventBody, UpdateOutcome, session_opened, session_phase, session_process,
  session_provider_ref, session_updated, session_closed, input_accepted, input_state, turn_started,
  turn_output, turn_tool, turn_completed, subagent_started, subagent_phase, subagent_output,
  subagent_usage, subagent_result, subagents_settled, output_truncated, notice_interruption,
  provider_diagnostic,
}
use specrails_core.Session.Snapshot.{SessionSnapshot, Outcome, require_open_turn, require_subagent}
use specrails_core.Session.Reducer.{apply_body, apply_event, is_closed, is_diagnostic, fold_step}
use specrails_core.Session.Reducer.Fold.{apply_event-apply_body}

apply_body-renumbered :
    (s : SessionSnapshot) (n : ℕ) (at : String) (e : SessionEventBody)
    → apply_body (record s { last_seq = n }) at e
      ≡ (apply_body s at e >>= λ t. ok (record t { last_seq = n }))
unfolding apply_body require_open_turn require_subagent
apply_body-renumbered s n at (session_opened e) = ground arith
apply_body-renumbered s n at (session_phase phase) = ground arith
apply_body-renumbered s n at (session_process e) = ground arith
apply_body-renumbered s n at (session_provider_ref ref) = ground arith
apply_body-renumbered s n at (session_updated changes UpdateOutcome.applied) = ground arith
apply_body-renumbered s n at (session_updated changes UpdateOutcome.deferred) = ground arith
apply_body-renumbered s n at (session_closed reason) = ground arith
apply_body-renumbered s n at (input_accepted e) = ground arith
apply_body-renumbered s n at (input_state e) = ground arith
apply_body-renumbered s n at (turn_started e) = ground arith
apply_body-renumbered s n at (turn_output id OutputChannel.text delta) = ground arith
apply_body-renumbered s n at (turn_output id OutputChannel.thinking delta) = ground arith
apply_body-renumbered s n at (turn_tool id tool) = ground arith
apply_body-renumbered s n at (turn_completed e) = ground arith
apply_body-renumbered s n at (subagent_started e) = ground arith
apply_body-renumbered s n at (subagent_phase id phase reason) = ground arith
apply_body-renumbered s n at (subagent_output id channel delta tool) = ground arith
apply_body-renumbered s n at (subagent_usage e) = ground arith
apply_body-renumbered s n at (subagent_result id summary) = ground arith
apply_body-renumbered s n at (subagents_settled settled live) = ground arith
apply_body-renumbered s n at (output_truncated scope events bytes) = ground arith
apply_body-renumbered s n at (notice_interruption subagents inputs) = ground arith
apply_body-renumbered s n at (provider_diagnostic level code message) = ground arith

pub apply_event-renumbered :
    (s : SessionSnapshot) (n : ℕ) (e : SessionEvent) (t : SessionSnapshot)
    → apply_event s e ≡ ok t
    → apply_event (record s { last_seq = n }) e ≡ ok (record t { last_seq = n })
unfolding apply_event
apply_event-renumbered s n e t h =
    elim (Bool-cases (is_closed s.status && not (is_diagnostic e.body))) [
      | inl refused ↦ absurd (ground arith)
      | inr taken ↦
          let applied = apply_event-apply_body s e h in
          rw taken (
            apply_body-renumbered s n e.at e.body
            ∙ ap (λ (r : Outcome SessionSnapshot). r >>= λ u. ok (record u { last_seq = n }))
                applied)
    ]

-- The next envelope of a session is an accepted event, numbered.
pub fold_step-next :
    (s u : SessionSnapshot) (n : ℕ) (e : SessionEvent)
    → apply_event s e ≡ ok u
    → fold_step
        (record s { last_seq = n })
        (record { session_id = s.session_id; seq = n + 1; event = e })
      ≡ ok (record u { last_seq = n + 1 })
unfolding fold_step
fold_step-next s u n e h =
    rw (eq_refl s.session_id, apply_event-renumbered s n e u h) (ground arith)
