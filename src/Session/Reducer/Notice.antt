-- ===== src/Session/Reducer/Notice.antt =====
-- The notice of interrupted work, and the event that says that it was given.
use specrails_core.Prelude.{
  String, true, some, none, List, [], ◌∷◌, ◌≡◌, refl, arith, str_eq, ok, Bool-cases, inl, inr,
}
use specrails_core.Prelude.Dict.{includes}
use text.Mathlib.TextPositions.{eq_refl}
use specrails_core.Session.Types.{SessionStatus}
use specrails_core.Session.Events.{notice_interruption}
use specrails_core.Session.Snapshot.{SessionSnapshot}
use specrails_core.Session.Reducer.{apply_event, apply_body, unnoticed}
use specrails_core.Session.Interruption.{InterruptionNotice, build_interruption_notice, notice_of}

none_unnoticed :
    (noticed xs : List String)
    → ((id : String) → includes xs id ≡ true → includes noticed id ≡ true)
    → unnoticed noticed xs ≡ []
none_unnoticed noticed [] h = refl
none_unnoticed noticed (x ∷ xs) h = rw (h x (rw (eq_refl x) refl)) (
    none_unnoticed noticed xs (λ id m. h id (elim (Bool-cases (str_eq x id)) [
      | inl same_id ↦ rw same_id refl
      | inr other ↦ rw (other, m) refl
    ])))

notice_of-ids :
    (s : SessionSnapshot) (subagents inputs : List String) (n : InterruptionNotice)
    → notice_of s subagents inputs ≡ some n
    → (n.subagent_ids ≡ subagents) × (n.input_ids ≡ inputs)
notice_of-ids s [] [] n h = absurd (ground arith)
notice_of-ids s [] (i ∷ inputs) n h = (ground arith, ground arith)
notice_of-ids s (a ∷ subagents) inputs n h = (ground arith, ground arith)

-- A notice is given once: in a session that is open, the event that a notice was given is
-- accepted, and after it there is none left to give.
pub notice_once :
    (s : SessionSnapshot) (n : InterruptionNotice) (at : String)
    → s.status ≡ SessionStatus.opened
    → build_interruption_notice s ≡ some n
    → (t : SessionSnapshot) × (apply_event s
          (record { body = notice_interruption n.subagent_ids n.input_ids; at = at })
        ≡ ok t)
      × (build_interruption_notice t ≡ none)
unfolding apply_event apply_body build_interruption_notice
notice_once s n at on h =
    let (subagents, inputs) =
      notice_of-ids s s.pending_interruptions.subagent_ids s.pending_interruptions.input_ids n h in
    let told = record s { pending_interruptions = record { subagent_ids = []; input_ids = [] } } in
    (
      told,
      rw
          (
            on,
            subagents,
            inputs,
            none_unnoticed s.pending_interruptions.subagent_ids s.pending_interruptions.subagent_ids
                (λ id m. m),
            none_unnoticed s.pending_interruptions.input_ids s.pending_interruptions.input_ids
                (λ id m. m),
          )
          refl,
      refl,
    )
