-- ===== src/Session/Reducer/Interruptions.antt =====
-- The work that the agent must be told about: snapshot.ts, `pendingInterruptions`, and
-- src/agent-runtime/session/domain/interruption.ts.
use specrails_core.Prelude.{
  String, Bool, true, false, not, ◌&&◌, ◌||◌, ◌≡◌, refl, subst, ◌⊎◌, inl, inr, Option, List, [],
  ◌∷◌, ◌++◌, str_eq, ok, if◌then◌else◌, >>=-eq-ok, ok-injective, Bool-cases, arith, eq_iff,
}
use specrails_core.Prelude.Dict.{includes}
use specrails_core.Session.Types.{SubagentPhase, phase_eq, turn_eq, input_eq, subagent_eq}
use specrails_core.Session.Events.{
  SessionEventBody, input_state, subagent_phase, notice_interruption, SessionEventEnvelope,
  InputChanged,
}
use specrails_core.Session.Snapshot.{SessionSnapshot, notifiable, add_unique}
use specrails_core.Session.Reducer.{apply_body, fold_step, fold_events, unnoticed}
use specrails_core.Session.Reducer.Frame.{pending_frame}
use specrails_core.Session.Reducer.Fold.{fold_step-inv, apply_event-apply_body}

-- The events that end a sub-agent in a way that the agent must be told about.
abbrev pub Interrupts : String → SessionEventBody → Type 0
Interrupts id (subagent_phase i phase reason) = (i ≡ id) × (notifiable phase ≡ true)
Interrupts id _ = ⊥

-- The notices that name the sub-agent.
abbrev pub Notices : String → SessionEventBody → Type 0
Notices id (notice_interruption subagents inputs) = includes subagents id ≡ true
Notices id _ = ⊥

includes-append :
    (xs : List String) (x id : String)
    → includes (xs ++ (x ∷ [])) id ≡ includes xs id || str_eq x id
includes-append [] x id = ground arith
includes-append (y ∷ xs) x id = ground (arith, includes-append xs x id)

includes-add_unique :
    (xs : List String) (x id : String)
    → includes (add_unique xs x) id ≡ includes xs id || str_eq x id
unfolding add_unique
includes-add_unique xs x id = elim (Bool-cases (includes xs x)) [
  | inl old ↦ rw old (there xs x id old)
  | inr new ↦ rw new (includes-append xs x id)
]
  where
    there :
        (xs : List String) (x id : String)
        → includes xs x ≡ true
        → includes xs id ≡ includes xs id || str_eq x id
    there xs x id h = ground (arith, eq_iff x id)

includes-unnoticed :
    (noticed xs : List String) (id : String)
    → includes (unnoticed noticed xs) id ≡ includes xs id && not (includes noticed id)
includes-unnoticed noticed [] id = refl
includes-unnoticed noticed (x ∷ xs) id = elim (Bool-cases (str_eq x id)) [
  | inl m ↦
      (let same_x : x ≡ id = (eq_iff x id).0 m in
        ground (arith, includes-unnoticed noticed xs id, same_x))
  | inr m ↦ ground (arith, includes-unnoticed noticed xs id)
]

moved_pending :
    (s : SessionSnapshot) (at i : String) (phase : SubagentPhase) (reason : Option String)
    (t : SessionSnapshot)
    → apply_body s at (subagent_phase i phase reason) ≡ ok t
    → t.pending_interruptions.subagent_ids ≡ (
        if notifiable phase
        then add_unique s.pending_interruptions.subagent_ids i
        else s.pending_interruptions.subagent_ids)
unfolding apply_body
moved_pending s at i phase reason t h = ground arith

input_pending :
    (s : SessionSnapshot) (at : String) (e : InputChanged) (t : SessionSnapshot)
    → apply_body s at (input_state e) ≡ ok t
    → t.pending_interruptions.subagent_ids ≡ s.pending_interruptions.subagent_ids
unfolding apply_body
input_pending s at e t h = ground arith

noticed_pending :
    (s : SessionSnapshot) (at : String) (subagents inputs : List String) (t : SessionSnapshot)
    → apply_body s at (notice_interruption subagents inputs) ≡ ok t
    → t.pending_interruptions.subagent_ids
      ≡ unnoticed subagents s.pending_interruptions.subagent_ids
unfolding apply_body
noticed_pending s at subagents inputs t h = ground arith

or_right : (b c : Bool) → c ≡ true → b || c ≡ true
or_right b c h = ground arith

grown :
    (b : Bool) (ids : List String) (i id : String)
    → includes ids id ≡ true
    → includes (if b then add_unique ids i else ids) id ≡ true
grown true ids i id p = rw (includes-add_unique ids i id) (rw p)
grown false ids i id p = p

abbrev Owes : List String → String → Type 0
Owes ids id = includes ids id ≡ true

body_pending :
    (s : SessionSnapshot) (at : String) (e : SessionEventBody) (t : SessionSnapshot) (id : String)
    → apply_body s at e ≡ ok t
    → (Interrupts id e → Owes t.pending_interruptions.subagent_ids id)
      × (Owes s.pending_interruptions.subagent_ids id
          → Notices id e ⊎ Owes t.pending_interruptions.subagent_ids id)
body_pending s at (subagent_phase i phase reason) t id h =
    let ids = s.pending_interruptions.subagent_ids in
    let written = moved_pending s at i phase reason t h in
    (
      λ interrupted.
          rw (written, interrupted.1)
            (rw (includes-add_unique ids i id)
              (or_right (includes ids id) (str_eq i id) ((eq_iff i id).1 interrupted.0))),
      λ p. inr (rw written (grown (notifiable phase) ids i id p)),
    )
body_pending s at (input_state e) t id h =
    ((λ i. elim i [ ]), λ p. inr (rw (input_pending s at e t h) p))
body_pending s at (notice_interruption subagents inputs) t id h =
    let ids = s.pending_interruptions.subagent_ids in
    let written = noticed_pending s at subagents inputs t h in
    (
      (λ i. elim i [ ]),
      λ p. elim (Bool-cases (includes subagents id)) [
        | inl named ↦ inl named
        | inr unnamed ↦
            inr (rw written (rw (includes-unnoticed subagents ids id) (rw (p, unnamed))))
      ],
    )
body_pending s at e t id h =
    let kept = pending_frame s at e t refl h in ((λ i. elim i [ ]), λ p. inr (rw kept p))

-- A notice for the sub-agent stands in the journal.
abbrev pub Noticed : String → List SessionEventEnvelope → Type 0
Noticed id [] = ⊥
Noticed id (x ∷ xs) = Notices id x.event.body ⊎ Noticed id xs

fold_pending :
    (s : SessionSnapshot) (xs : List SessionEventEnvelope) (t : SessionSnapshot) (id : String)
    → Owes s.pending_interruptions.subagent_ids id
    → fold_events s xs ≡ ok t
    → Noticed id xs ⊎ Owes t.pending_interruptions.subagent_ids id
unfolding fold_events
fold_pending s [] t id p h = inr (
    subst (λ (u : SessionSnapshot). Owes u.pending_interruptions.subagent_ids id) (ok-injective h)
      p)
fold_pending s (x ∷ xs) t id p h =
    let (next, stepped, rest) = >>=-eq-ok (fold_step s x) (λ n. fold_events n xs) h in
    let (u, applied, _, _, same_t) = fold_step-inv s x next stepped in
    let still =
      (body_pending s x.event.at x.event.body u id (apply_event-apply_body s x.event applied)).1
        p in
    elim still [
      | inl noticed ↦ inl (inl noticed)
      | inr owed ↦ (elim (fold_pending next xs t id (rw same_t owed) rest) [
        | inl later ↦ inl (inr later)
        | inr end ↦ inr end
      ])
    ]

-- A sub-agent that was stopped, killed or interrupted at some point of a journal is still owed to
-- the agent at its end, unless a notice that names it came after that point.
pub interrupted_is_reported :
    (s : SessionSnapshot) (x : SessionEventEnvelope) (xs : List SessionEventEnvelope)
    (t : SessionSnapshot) (id : String)
    → Interrupts id x.event.body
    → fold_events s (x ∷ xs) ≡ ok t
    → Noticed id xs ⊎ (includes t.pending_interruptions.subagent_ids id ≡ true)
unfolding fold_events
interrupted_is_reported s x xs t id i h =
    let (next, stepped, rest) = >>=-eq-ok (fold_step s x) (λ n. fold_events n xs) h in
    let (u, applied, _, _, same_t) = fold_step-inv s x next stepped in
    let owed =
      (body_pending s x.event.at x.event.body u id (apply_event-apply_body s x.event applied)).0
        i in
    fold_pending next xs t id (rw same_t owed) rest
