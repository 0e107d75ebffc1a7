-- ===== src/Session/Reducer/History.antt =====
-- The turns of a session: snapshot.ts, the `turn.*` cases of `applyEvent`.
use specrails_core.Prelude.{
  ℕ, zero, suc, ◌+◌, ◌-◌, String, ◌≡◌, ◌≢◌, refl, sym, ap, ◌∙◌, subst, subst₂, ◌⊎◌, inl, inr,
  Option, none, some, List, [], ◌∷◌, ◌++◌, length, drop, All, last_n, str_eq, ok, ◌>>=◌, >>=-eq-ok,
  ok-injective, Bool-cases, Option-cases, length-append, drop-append, arith, eq_iff,
}
use specrails_core.Session.Types.{
  SessionStatus, TurnStatus, OutputChannel, phase_eq, turn_eq, input_eq, subagent_eq,
}
use specrails_core.Session.StateMachines.{turn_transitions, assert_transition}
use specrails_core.Session.Events.{
  SessionEventBody, turn_started, turn_output, turn_completed, SessionEventEnvelope, TurnStarted,
  TurnCompleted, TurnEnd, ended_as,
}
use specrails_core.Session.Snapshot.{
  OpenTurn, TurnRecord, SessionSnapshot, snapshot_turn_history, require_open_turn, empty_snapshot,
}
use specrails_core.Session.Reducer.{
  apply_body, apply_event, fold_events, add_output, complete_turns, complete_one, end_record,
  new_turn, opened_turn,
}
use specrails_core.Session.Reducer.Frame.{turns_frame}
use specrails_core.Session.Reducer.Fold.{fold_events-inv}

-- A turn of the event's id ends as the event says, any other stays.
abbrev Completes : String → TurnCompleted → TurnRecord → TurnRecord → Type 0
Completes at e turn turn' =
    ((turn.turn_id ≡ e.turn_id) × (turn' ≡ end_record at e turn))
    ⊎ ((turn.turn_id ≢ e.turn_id) × (turn' ≡ turn))

complete_one-Completes :
    (at : String) (e : TurnCompleted) (turn turn' : TurnRecord)
    → complete_one at e turn ≡ ok turn'
    → Completes at e turn turn'
unfolding complete_one
complete_one-Completes at e turn turn' h = elim (Bool-cases (str_eq turn.turn_id e.turn_id)) [
  | inl m ↦ inl ((eq_iff turn.turn_id e.turn_id).0 m, ground arith)
  | inr m ↦ inr ((λ q. cc (m, (eq_iff turn.turn_id e.turn_id).1 q)), ground arith)
]

complete_turns-cons :
    (at : String) (e : TurnCompleted) (turn : TurnRecord) (ts ts' : List TurnRecord)
    → complete_turns at e (turn ∷ ts) ≡ ok ts'
    → (turn' : TurnRecord) × (rest : List TurnRecord) × Completes at e turn turn'
      × (complete_turns at e ts ≡ ok rest)
      × (ts' ≡ turn' ∷ rest)
unfolding complete_turns complete_one
complete_turns-cons at e turn ts ts' h =
    let (turn', one, next) =
      >>=-eq-ok (complete_one at e turn) (λ r. complete_turns at e ts >>= λ rest. ok (r ∷ rest))
        h in
    let (rest, others, done) =
      >>=-eq-ok (complete_turns at e ts) (λ rest. ok (turn' ∷ rest)) next in
    (turn', rest, complete_one-Completes at e turn turn' one, others, sym (ok-injective done))

length-complete_turns :
    (at : String) (e : TurnCompleted) (ts ts' : List TurnRecord)
    → complete_turns at e ts ≡ ok ts'
    → length ts' ≡ length ts
unfolding complete_turns
length-complete_turns at e [] ts' h = ap length (sym (ok-injective h))
length-complete_turns at e (t ∷ ts) ts' h =
    let (turn', rest, _, others, same_list) = complete_turns-cons at e t ts ts' h in
    rw same_list (ap suc (length-complete_turns at e ts rest others))

pub complete_turn-inv :
    (s : SessionSnapshot) (at : String) (e : TurnCompleted) (t : SessionSnapshot)
    → apply_body s at (turn_completed e) ≡ ok t
    → (turn : OpenTurn) × (turns : List TurnRecord) × (s.open_turn ≡ some turn)
      × (turn.turn_id ≡ e.turn_id)
      × (complete_turns at e s.turns ≡ ok turns)
      × (t ≡ record s { open_turn = none; turns = turns })
unfolding apply_body require_open_turn
complete_turn-inv s at e t h =
    let (turn, found, next) =
      >>=-eq-ok (require_open_turn s e.turn_id)
        (λ _. complete_turns at e s.turns >>= λ turns.
          ok (record s { open_turn = none; turns = turns }))
        h in
    let (turns, completed, done) =
      >>=-eq-ok (complete_turns at e s.turns)
        (λ turns. ok (record s { open_turn = none; turns = turns })) next in
    (
      turn,
      turns,
      ground arith,
      ground (arith, eq_iff turn.turn_id e.turn_id),
      completed,
      sym (ok-injective done),
    )

-- A turn that is over.
abbrev pub IsEnded : TurnRecord → Type 0
IsEnded turn = turn.status ≢ TurnStatus.running

-- With no open turn every turn of the history is over. With one, it is the newest, the only
-- running one, and the history's record of it has its id.
abbrev pub Ledger : Option OpenTurn → List TurnRecord → Type 0
Ledger none turns = All IsEnded turns
Ledger (some turn) turns =
    (older : List TurnRecord) × (newest : TurnRecord) × (turns ≡ older ++ (newest ∷ []))
    × (newest.turn_id ≡ turn.turn_id)
    × (newest.status ≡ TurnStatus.running)
    × All IsEnded older

abbrev pub IsLedger : SessionSnapshot → Type 0
IsLedger s = Ledger s.open_turn s.turns

All-drop : (k : ℕ) (ts : List TurnRecord) → All IsEnded ts → All IsEnded (drop k ts)
All-drop zero ts h = h
All-drop (suc k) [] h = tt
All-drop (suc k) (t ∷ ts) h = All-drop k ts h.1

start-Ledger :
    (at : String) (e : TurnStarted) (ts : List TurnRecord)
    → All IsEnded ts
    → Ledger (some (opened_turn at e)) (last_n snapshot_turn_history (ts ++ (new_turn at e ∷ [])))
start-Ledger at e ts h =
    let k = length (ts ++ (new_turn at e ∷ [])) - snapshot_turn_history in
    (
      drop k ts,
      new_turn at e,
      drop-append k ts (new_turn at e ∷ []) (omega (arith, length-append ts (new_turn at e ∷ []))),
      refl,
      refl,
      All-drop k ts h,
    )

ended_as-ne-running : (e : TurnEnd) → ended_as e ≢ TurnStatus.running
ended_as-ne-running e = ground arith

Completes-IsEnded :
    (at : String) (e : TurnCompleted) (turn turn' : TurnRecord)
    → Completes at e turn turn'
    → IsEnded turn ⊎ (turn.turn_id ≡ e.turn_id)
    → IsEnded turn'
Completes-IsEnded at e turn turn' (inl c) h = rw c.1 (ended_as-ne-running e.status)
Completes-IsEnded at e turn turn' (inr c) (inl h) = rw c.1 h
Completes-IsEnded at e turn turn' (inr c) (inr h) = absurd (c.0 h)

-- What is over, or has the event's id, is over afterwards.
IsEnded-complete_turns :
    (at : String) (e : TurnCompleted) (older : List TurnRecord) (r : TurnRecord)
    (ts' : List TurnRecord)
    → All IsEnded older
    → r.turn_id ≡ e.turn_id
    → complete_turns at e (older ++ (r ∷ [])) ≡ ok ts'
    → All IsEnded ts'
unfolding complete_turns complete_turns-cons
IsEnded-complete_turns at e [] r ts' a m h =
    let (turn', rest, one, others, same_list) = complete_turns-cons at e r [] ts' h in
    rw same_list
      (Completes-IsEnded at e r turn' one (inr m), subst (All IsEnded) (ok-injective others) tt)
IsEnded-complete_turns at e (t ∷ ts) r ts' a m h =
    let (turn', rest, one, others, same_list) = complete_turns-cons at e t (ts ++ (r ∷ [])) ts' h in
    rw same_list (
      Completes-IsEnded at e t turn' one (inl a.0),
      IsEnded-complete_turns at e ts r rest a.1 m others,
    )

start_turn-inv :
    (s : SessionSnapshot) (at : String) (e : TurnStarted) (t : SessionSnapshot)
    → apply_body s at (turn_started e) ≡ ok t
    → (s.open_turn ≡ none)
      × (t ≡ record s {
        open_turn = some (opened_turn at e);
        turns = last_n snapshot_turn_history (s.turns ++ (new_turn at e ∷ []));
        turn_count = s.turn_count + 1;
      })
unfolding apply_body
start_turn-inv s at e t h = elim (Option-cases s.open_turn) [
  | inl free ↦ (free, ground arith)
  | inr busy ↦ absurd (ground (arith, busy.1))
]

complete-Ledger :
    (at : String) (e : TurnCompleted) (turn : OpenTurn) (ts ts' : List TurnRecord)
    → turn.turn_id ≡ e.turn_id
    → complete_turns at e ts ≡ ok ts'
    → Ledger (some turn) ts
    → All IsEnded ts'
complete-Ledger at e turn ts ts' m h (older, newest, same_ts, same_id, _, ended) =
    IsEnded-complete_turns at e older newest ts' ended (same_id ∙ m)
      (subst (λ l. complete_turns at e l ≡ ok ts') same_ts h)

output_turn-inv :
    (s : SessionSnapshot) (at id : String) (channel : OutputChannel) (delta : String)
    (t : SessionSnapshot)
    → apply_body s at (turn_output id channel delta) ≡ ok t
    → (turn : OpenTurn) × (s.open_turn ≡ some turn) × (t ≡ add_output s channel delta turn)
unfolding apply_body require_open_turn
output_turn-inv s at id channel delta t h =
    let (turn, found, done) =
      >>=-eq-ok (require_open_turn s id) (λ turn. ok (add_output s channel delta turn)) h in
    (turn, ground arith, sym (ok-injective done))

output-Ledger :
    (s : SessionSnapshot) (at id : String) (channel : OutputChannel) (delta : String)
    (t : SessionSnapshot)
    → IsLedger s
    → apply_body s at (turn_output id channel delta) ≡ ok t
    → IsLedger t
output-Ledger s at id OutputChannel.text delta t p h =
    let (turn, opened, same_t) = output_turn-inv s at id OutputChannel.text delta t h in
    rw same_t (subst (λ o. Ledger o s.turns) opened p)
output-Ledger s at id OutputChannel.thinking delta t p h =
    let (turn, opened, same_t) = output_turn-inv s at id OutputChannel.thinking delta t h in
    rw same_t p

body-IsLedger :
    (s : SessionSnapshot) (at : String) (e : SessionEventBody) (t : SessionSnapshot)
    → IsLedger s
    → apply_body s at e ≡ ok t
    → IsLedger t
body-IsLedger s at (turn_started e) t p h =
    let (free, same_t) = start_turn-inv s at e t h in
    rw same_t (start-Ledger at e s.turns (subst (λ o. Ledger o s.turns) free p))
body-IsLedger s at (turn_completed e) t p h =
    let (turn, turns, opened, matches, completed, same_t) = complete_turn-inv s at e t h in
    rw same_t (
      complete-Ledger at e turn s.turns turns matches completed
        (subst (λ o. Ledger o s.turns) opened p))
body-IsLedger s at (turn_output id channel delta) t p h = output-Ledger s at id channel delta t p h
body-IsLedger s at e t p h =
    let (same_open, same_turns) = turns_frame s at e t refl h in
    subst₂ Ledger (sym same_open) (sym same_turns) p

-- In a session that starts empty, after any journal, at most the newest turn of the history is
-- running, and it is exactly while a turn is open that it is.
pub open_turn-Ledger :
    (id : String) (xs : List SessionEventEnvelope) (t : SessionSnapshot)
    → fold_events (empty_snapshot id) xs ≡ ok t
    → Ledger t.open_turn t.turns
unfolding empty_snapshot
open_turn-Ledger id xs t h =
    fold_events-inv IsLedger body-IsLedger (λ s n p. p) (empty_snapshot id) xs t tt h

complete_one_running :
    (at : String) (e : TurnCompleted) (r : TurnRecord)
    → r.status ≡ TurnStatus.running
    → r.turn_id ≡ e.turn_id
    → complete_one at e r ≡ ok (end_record at e r)
unfolding complete_one assert_transition turn_transitions
complete_one_running at e r run m = ground (arith, eq_iff r.turn_id e.turn_id)

complete_one_other :
    (at : String) (e : TurnCompleted) (r : TurnRecord)
    → r.turn_id ≢ e.turn_id
    → complete_one at e r ≡ ok r
unfolding complete_one
complete_one_other at e r m = ground (arith, eq_iff r.turn_id e.turn_id)

complete_turns_newest :
    (at : String) (e : TurnCompleted) (older : List TurnRecord) (newest : TurnRecord)
    → All (λ (r : TurnRecord). r.turn_id ≢ e.turn_id) older
    → newest.status ≡ TurnStatus.running
    → newest.turn_id ≡ e.turn_id
    → complete_turns at e (older ++ (newest ∷ [])) ≡ ok (older ++ (end_record at e newest ∷ []))
unfolding complete_turns
complete_turns_newest at e [] newest a run m = rw (complete_one_running at e newest run m)
complete_turns_newest at e (r ∷ older) newest a run m =
    rw (complete_one_other at e r a.0) (rw (complete_turns_newest at e older newest a.1 run m))

-- A running turn can always be completed while no older turn of the history has its id: the event
-- is accepted, closes the turn, and writes the end of the newest record only.
pub turn_completes :
    (s : SessionSnapshot) (at : String) (e : TurnCompleted) (turn : OpenTurn)
    (older : List TurnRecord) (newest : TurnRecord)
    → s.status ≡ SessionStatus.opened
    → s.open_turn ≡ some turn
    → turn.turn_id ≡ e.turn_id
    → s.turns ≡ older ++ (newest ∷ [])
    → newest.status ≡ TurnStatus.running
    → newest.turn_id ≡ turn.turn_id
    → All (λ (r : TurnRecord). r.turn_id ≢ e.turn_id) older
    → apply_event s (record { body = turn_completed e; at = at })
      ≡ ok (record s { open_turn = none; turns = older ++ (end_record at e newest ∷ []) })
unfolding apply_event require_open_turn
turn_completes s at e turn older newest o opened m same_turns run same_id others = ground (
  arith,
  eq_iff turn.turn_id e.turn_id,
  complete_turns_newest at e older newest others run (same_id ∙ m),
)
