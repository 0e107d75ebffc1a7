-- ===== src/Session/Reducer/Inputs.antt =====
-- The inputs of a session: snapshot.ts, the `input.*` cases of `applyEvent`.
use specrails_core.Prelude.{
  ℕ, ◌≤◌, ◌<◌, String, true, false, ◌≡◌, refl, sym, ◌∙◌, subst, ◌⊎◌, inl, inr, none, some, List, [],
  ◌∷◌, length, str_eq, ok, >>=-eq-ok, ok-injective, Bool-cases, Option-cases, arith, eq_iff,
}
use mathlib.Core.Bool.{false≢true}
use specrails_core.Prelude.Dict.{
  Dict, get, put, get-put, get-put_self, get-put_ne, Distinct-put, NamedBy, NamedBy-put,
}
use specrails_core.Session.Types.{InputState, phase_eq, turn_eq, input_eq, subagent_eq}
use specrails_core.Session.StateMachines.{input_transitions, can_transition, assert_transition}
use specrails_core.Session.Events.{
  SessionEventBody, input_accepted, input_state, SessionEventEnvelope, InputAccepted, InputChanged,
  moved_to,
}
use specrails_core.Session.Snapshot.{
  InputRecord, SessionSnapshot, snapshot_terminal_inputs, prune_inputs, empty_snapshot,
  is_terminal_input, terminal_inputs,
}
use specrails_core.Session.Reducer.{
  apply_body, fold_step, fold_events, accepted_record, moved_record,
}
use specrails_core.Session.Reducer.Frame.{inputs_frame}
use specrails_core.Session.Reducer.Fold.{fold_step-inv, fold_events-inv, apply_event-apply_body}
use specrails_core.Session.Prune.{IsIndexed, prune-live, prune_bound, prune-IsIndexed}

-- What holds of the inputs of a session between two events.
pub record IsBounded (d : Dict InputRecord) : Type 0 where
  pub indexed : IsIndexed d
  pub bounded : length (terminal_inputs d) ≤ snapshot_terminal_inputs

accepted_writes :
    (s : SessionSnapshot) (at : String) (e : InputAccepted) (t : SessionSnapshot)
    → apply_body s at (input_accepted e) ≡ ok t
    → (get e.input_id s.inputs ≡ none) × (t.inputs ≡ put e.input_id (accepted_record e) s.inputs)
unfolding apply_body
accepted_writes s at e t h = elim (Option-cases (get e.input_id s.inputs)) [
  | inl new ↦ (new, ground arith)
  | inr old ↦ absurd (ground (arith, old.1))
]

moved_writes :
    (s : SessionSnapshot) (at : String) (e : InputChanged) (t : SessionSnapshot)
    → apply_body s at (input_state e) ≡ ok t
    → (old : InputRecord) × (get e.input_id s.inputs ≡ some old)
      × (can_transition input_transitions old.state (moved_to e.state) ≡ true)
      × (t.inputs ≡ prune_inputs (put e.input_id (moved_record e old) s.inputs))
unfolding apply_body assert_transition
moved_writes s at e t h = elim (Option-cases (get e.input_id s.inputs)) [
  | inl unknown ↦ absurd (ground arith)
  | inr (old, found) ↦ (old, found, ground arith, ground arith)
]

put_live-terminal :
    (k : String) (v : InputRecord) (d : Dict InputRecord)
    → is_terminal_input v.state ≡ false
    → length (terminal_inputs (put k v d)) ≤ length (terminal_inputs d)
unfolding put
put_live-terminal k v [] h = ground arith
put_live-terminal k v ((j, w) ∷ d) h = ground (arith, put_live-terminal k v d h)

named_of_get :
    (d : Dict InputRecord) (k : String) (v : InputRecord)
    → NamedBy (λ (r : InputRecord). r.input_id) d
    → get k d ≡ some v
    → v.input_id ≡ k
unfolding get
named_of_get [] k v n h = cc
named_of_get ((j, w) ∷ d) k v n h = ground (arith, named_of_get d k v n.1, eq_iff j k, n.0)

put-IsIndexed :
    (k : String) (v : InputRecord) (d : Dict InputRecord)
    → v.input_id ≡ k
    → IsIndexed d
    → IsIndexed (put k v d)
put-IsIndexed k v d m ix = record {
  named = NamedBy-put _ k v d m ix.named;
  distinct = Distinct-put k v d ix.distinct;
}

body-IsBounded :
    (s : SessionSnapshot) (at : String) (e : SessionEventBody) (t : SessionSnapshot)
    → IsBounded s.inputs
    → apply_body s at e ≡ ok t
    → IsBounded t.inputs
body-IsBounded s at (input_accepted e) t p h =
    let (_, written) = accepted_writes s at e t h in
    rw written (record {
      indexed = put-IsIndexed e.input_id (accepted_record e) s.inputs refl p.indexed;
      bounded =
          omega (arith, p.bounded, put_live-terminal e.input_id (accepted_record e) s.inputs refl);
    })
body-IsBounded s at (input_state e) t p h =
    let (old, found, _, written) = moved_writes s at e t h in
    let ix =
      put-IsIndexed e.input_id (moved_record e old) s.inputs
        (named_of_get s.inputs e.input_id old p.indexed.named found) p.indexed in
    rw written (record { indexed = prune-IsIndexed _ ix; bounded = prune_bound _ ix.named })
body-IsBounded s at e t p h = rw (inputs_frame s at e t refl h) p

-- The snapshot of a session that starts empty keeps each input once, under its own id, and 500
-- terminal inputs at most, whatever the journal.
pub inputs-IsBounded :
    (id : String) (xs : List SessionEventEnvelope) (t : SessionSnapshot)
    → fold_events (empty_snapshot id) xs ≡ ok t
    → IsBounded t.inputs
unfolding empty_snapshot
inputs-IsBounded id xs t h =
    fold_events-inv (λ (s : SessionSnapshot). IsBounded s.inputs) body-IsBounded (λ s n p. p)
      (empty_snapshot id) xs t (omega arith) h

-- How far an input has come.
abbrev pub rank : InputState → ℕ
rank InputState.accepted = 0
rank InputState.queued = 1
rank InputState.started = 2
rank _ = 3

-- The same state, or one further on.
abbrev pub Onward : InputState → InputState → Type 0
Onward a b = (b ≡ a) ⊎ (rank a < rank b)

can_transition-Onward :
    (a b : InputState) → can_transition input_transitions a b ≡ true → Onward a b
unfolding can_transition input_transitions
can_transition-Onward a b h = ground arith

Onward-trans : (a b c : InputState) → Onward a b → Onward b c → Onward a c
Onward-trans a b c h k = ground arith

-- The event that brings an input to a terminal state.
abbrev pub Ends : String → SessionEventBody → Type 0
Ends id (input_state e) = (e.input_id ≡ id) × (is_terminal_input (moved_to e.state) ≡ true)
Ends id _ = ⊥

-- The input is there, not terminal, and not further back than `state`.
abbrev pub Waits : Dict InputRecord → String → InputState → Type 0
Waits d id state =
    (r : InputRecord) × (get id d ≡ some r)
    × (is_terminal_input r.state ≡ false)
    × Onward state r.state

moved_input :
    (s : SessionSnapshot) (at : String) (e : InputChanged) (t : SessionSnapshot) (id : String)
    (r : InputRecord)
    → IsIndexed s.inputs
    → apply_body s at (input_state e) ≡ ok t
    → get id s.inputs ≡ some r
    → is_terminal_input r.state ≡ false
    → Ends id (input_state e) ⊎ Waits t.inputs id r.state
moved_input s at e t id r ix h g live =
    let (old, found, allowed, written) = moved_writes s at e t h in
    let named = named_of_get s.inputs e.input_id old ix.named found in
    let ix' = put-IsIndexed e.input_id (moved_record e old) s.inputs named ix in
    elim (Bool-cases (str_eq e.input_id id)) [
      | inl m ↦
          (let same_id : e.input_id ≡ id = (eq_iff e.input_id id).0 m in
            let same_old : old ≡ r = cc in
            elim (Bool-cases (is_terminal_input (moved_to e.state))) [
              | inl over ↦ inl (same_id, over)
              | inr on ↦ inr (
                moved_record e old,
                rw written (
                    prune-live _ id (moved_record e old) ix'
                      (rw (← same_id) (get-put_self e.input_id (moved_record e old) s.inputs)) on),
                on,
                can_transition-Onward r.state (moved_to e.state) (rw (← same_old) allowed),
              )
            ])
      | inr m ↦ inr (
        r,
        rw written (
            prune-live _ id r ix'
              (get-put_ne e.input_id id (moved_record e old) s.inputs
                  (λ q. false≢true (sym m ∙ (eq_iff e.input_id id).1 q))
                ∙ g)
              live),
        live,
        inl refl,
      )
    ]

body_input :
    (s : SessionSnapshot) (at : String) (e : SessionEventBody) (t : SessionSnapshot) (id : String)
    (r : InputRecord)
    → IsIndexed s.inputs
    → apply_body s at e ≡ ok t
    → get id s.inputs ≡ some r
    → is_terminal_input r.state ≡ false
    → Ends id e ⊎ Waits t.inputs id r.state
body_input s at (input_accepted e) t id r ix h g live =
    let (new, written) = accepted_writes s at e t h in
    let other : str_eq e.input_id id ≡ false = elim (Bool-cases (str_eq e.input_id id)) [
      | inl m ↦ absurd (ground (arith, eq_iff e.input_id id))
      | inr m ↦ m
    ] in
    inr (
      r,
      rw written (rw (get-put e.input_id id (accepted_record e) s.inputs) (rw other g)),
      live,
      inl refl,
    )
body_input s at (input_state e) t id r ix h g live = moved_input s at e t id r ix h g live
body_input s at e t id r ix h g live = inr (r, rw (inputs_frame s at e t refl h) g, live, inl refl)

-- An event of the journal brings the input to a terminal state.
abbrev pub Ended : String → List SessionEventEnvelope → Type 0
Ended id [] = ⊥
Ended id (x ∷ xs) = Ends id x.event.body ⊎ Ended id xs

-- An input that is not terminal is never lost and never goes back: after any journal it is still
-- there, not terminal, in the same state or one further on, unless an event of the journal has
-- ended it.
pub live_input_kept :
    (s : SessionSnapshot) (xs : List SessionEventEnvelope) (t : SessionSnapshot) (id : String)
    (r : InputRecord)
    → IsBounded s.inputs
    → fold_events s xs ≡ ok t
    → get id s.inputs ≡ some r
    → is_terminal_input r.state ≡ false
    → Ended id xs ⊎ Waits t.inputs id r.state
unfolding fold_events
live_input_kept s [] t id r b h g live = inr (
  r,
  subst (λ (u : SessionSnapshot). get id u.inputs ≡ some r) (ok-injective h) g,
  live,
  inl refl,
)
live_input_kept s (x ∷ xs) t id r b h g live =
    let (next, stepped, rest) = >>=-eq-ok (fold_step s x) (λ n. fold_events n xs) h in
    let (u, applied, _, _, same_t) = fold_step-inv s x next stepped in
    let body = apply_event-apply_body s x.event applied in
    let bounded = body-IsBounded s x.event.at x.event.body u b body in
    elim (body_input s x.event.at x.event.body u id r b.indexed body g live) [
      | inl ends ↦ inl (inl ends)
      | inr (r', there, on, onward) ↦
          (elim (live_input_kept next xs t id r' (rw same_t bounded) rest (rw same_t there) on) [
            | inl later ↦ inl (inr later)
            | inr (r'', there', on', onward') ↦
                inr (r'', there', on', Onward-trans r.state r'.state r''.state onward onward')
          ])
    ]
