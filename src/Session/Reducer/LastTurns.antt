-- ===== src/Session/Reducer/LastTurns.antt =====
-- src/agent-runtime/session/domain/snapshot.ts: which turns the history of a session holds.
use specrails_core.Prelude.{
  ℕ, zero, suc, ◌+◌, ◌-◌, String, ◌≡◌, refl, sym, ap, ◌∙◌, subst, none, List, [], ◌∷◌, ◌++◌, length,
  drop, last_n, map, ok, ◌>>=◌, >>=-eq-ok, ok-injective, length-append, last_n-window, arith,
}
use specrails_core.Session.Types.{TurnStatus, phase_eq, turn_eq, input_eq, subagent_eq}
use specrails_core.Session.StateMachines.{assert_transition}
use specrails_core.Session.Events.{
  SessionEventBody, SessionEventEnvelope, TurnCompleted, turn_started, turn_completed,
  session_updated, UpdateOutcome,
}
use specrails_core.Session.Snapshot.{
  TurnRecord, SessionSnapshot, snapshot_turn_history, empty_snapshot,
}
use specrails_core.Session.Reducer.{
  apply_body, fold_step, fold_events, complete_one, complete_turns, new_turn,
}
use specrails_core.Session.Reducer.Fold.{apply_event-apply_body, fold_step-inv}
use specrails_core.Session.Reducer.History.{complete_turn-inv}

-- The turns that a journal starts, each as it was started, in order.
abbrev pub started_by : String → SessionEventBody → List TurnRecord
started_by at (turn_started e) = new_turn at e ∷ []
started_by at _ = []

pub started : List SessionEventEnvelope → List TurnRecord
started [] = []
started (x ∷ xs) = started_by x.event.at x.event.body ++ started xs

-- A turn of the history as it was started.
abbrev pub as_started : TurnRecord → TurnRecord
as_started turn = record turn { status = TurnStatus.running; ended_at = none; usage = none }

-- The history holds the last of the turns, and the counter counts them.
record Holds (turns : List TurnRecord) (s : SessionSnapshot) : Type 0 where
  held : map as_started s.turns ≡ last_n snapshot_turn_history turns
  counted : s.turn_count ≡ length turns

complete_one-same :
    (at : String) (e : TurnCompleted) (turn turn' : TurnRecord)
    → complete_one at e turn ≡ ok turn'
    → as_started turn' ≡ as_started turn
unfolding complete_one assert_transition
complete_one-same at e turn turn' h = ground arith

complete_turns-same :
    (at : String) (e : TurnCompleted) (turns turns' : List TurnRecord)
    → complete_turns at e turns ≡ ok turns'
    → map as_started turns' ≡ map as_started turns
unfolding complete_turns
complete_turns-same at e [] turns' h = ap (λ l. map as_started l) (sym (ok-injective h))
complete_turns-same at e (turn ∷ turns) turns' h =
    let (turn', one, rest) =
      >>=-eq-ok (complete_one at e turn)
        (λ turn'. complete_turns at e turns >>= λ turns'. ok (turn' ∷ turns')) h in
    let (others, all_others, done) =
      >>=-eq-ok (complete_turns at e turns) (λ turns'. ok (turn' ∷ turns')) rest in
    ap (λ l. map as_started l) (sym (ok-injective done))
    ∙ ap (λ x. x ∷ map as_started others) (complete_one-same at e turn turn' one)
    ∙ ap (λ l. as_started turn ∷ l) (complete_turns-same at e turns others all_others)

map-drop :
    (n : ℕ) (turns : List TurnRecord)
    → map as_started (drop n turns) ≡ drop n (map as_started turns)
map-drop zero turns = refl
map-drop (suc n) [] = refl
map-drop (suc n) (turn ∷ turns) = map-drop n turns

map-snoc :
    (turns : List TurnRecord) (turn : TurnRecord)
    → map as_started (turns ++ (turn ∷ [])) ≡ map as_started turns ++ (as_started turn ∷ [])
map-snoc [] turn = refl
map-snoc (t ∷ turns) turn = ap (λ l. as_started t ∷ l) (map-snoc turns turn)

length-map : (turns : List TurnRecord) → length (map as_started turns) ≡ length turns
length-map [] = refl
length-map (turn ∷ turns) = ap suc (length-map turns)

map-last_n :
    (n : ℕ) (turns : List TurnRecord)
    → map as_started (last_n n turns) ≡ last_n n (map as_started turns)
map-last_n n turns =
    map-drop (length turns - n) turns
    ∙ ap (λ k. drop (k - n) (map as_started turns)) (sym (length-map turns))

start-Holds :
    (all : List TurnRecord) (s : SessionSnapshot) (turn : TurnRecord)
    → Holds all s
    → map as_started (last_n snapshot_turn_history (s.turns ++ (turn ∷ [])))
      ≡ last_n snapshot_turn_history (all ++ (as_started turn ∷ []))
start-Holds all s turn h =
    map-last_n snapshot_turn_history (s.turns ++ (turn ∷ []))
    ∙ ap (λ l. last_n snapshot_turn_history l) (map-snoc s.turns turn)
    ∙ ap (λ l. last_n snapshot_turn_history (l ++ (as_started turn ∷ []))) h.held
    ∙ last_n-window snapshot_turn_history all (as_started turn ∷ [])

append-nil : (turns : List TurnRecord) → turns ++ [] ≡ turns
append-nil [] = refl
append-nil (turn ∷ turns) = ap (λ l. turn ∷ l) (append-nil turns)

append_assoc : (xs ys zs : List TurnRecord) → (xs ++ ys) ++ zs ≡ xs ++ (ys ++ zs)
append_assoc [] ys zs = refl
append_assoc (x ∷ xs) ys zs = ap (λ l. x ∷ l) (append_assoc xs ys zs)

same-Holds :
    (all : List TurnRecord) (s t : SessionSnapshot)
    → map as_started t.turns ≡ map as_started s.turns
    → t.turn_count ≡ s.turn_count
    → Holds all s
    → Holds (all ++ []) t
same-Holds all s t turns count h =
    rw (append-nil all) (record { held = turns ∙ h.held; counted = count ∙ h.counted })

body-Holds :
    (all : List TurnRecord) (s : SessionSnapshot) (at : String) (e : SessionEventBody)
    (t : SessionSnapshot)
    → Holds all s
    → apply_body s at e ≡ ok t
    → Holds (all ++ started_by at e) t
unfolding apply_body
body-Holds all s at (turn_started e) t h applied =
    let turns : t.turns ≡ last_n snapshot_turn_history (s.turns ++ (new_turn at e ∷ [])) =
      ground arith in
    let count : t.turn_count ≡ s.turn_count + 1 = ground arith in
    record {
      held = ap (λ l. map as_started l) turns ∙ start-Holds all s (new_turn at e) h;
      counted = omega (arith, count, h.counted, length-append all (new_turn at e ∷ []));
    }
body-Holds all s at (turn_completed e) t h applied =
    let (_, turns, _, _, completed, same_t) = complete_turn-inv s at e t applied in
    same-Holds all s t
      (ap (λ (u : SessionSnapshot). map as_started u.turns) same_t
        ∙ complete_turns-same at e s.turns turns completed)
      (ap (λ (u : SessionSnapshot). u.turn_count) same_t) h
body-Holds all s at (session_updated changes UpdateOutcome.applied) t h applied =
    same-Holds all s t (ground arith) (ground arith) h
body-Holds all s at (session_updated changes UpdateOutcome.deferred) t h applied =
    same-Holds all s t (ground arith) (ground arith) h
body-Holds all s at _ t h applied = same-Holds all s t (ground arith) (ground arith) h

history-Holds :
    (all : List TurnRecord) (s : SessionSnapshot) (xs : List SessionEventEnvelope)
    (t : SessionSnapshot)
    → Holds all s
    → fold_events s xs ≡ ok t
    → Holds (all ++ started xs) t
unfolding fold_events started
history-Holds all s [] t h folds =
    subst (λ u. Holds (all ++ []) u) (ok-injective folds) (same-Holds all s s refl refl h)
history-Holds all s (x ∷ xs) t h folds =
    let (next, stepped, rest) = >>=-eq-ok (fold_step s x) (λ n. fold_events n xs) folds in
    let (u, applied, _, _, same_next) = fold_step-inv s x next stepped in
    let now =
      body-Holds all s x.event.at x.event.body u h (apply_event-apply_body s x.event applied) in
    let begun = started_by x.event.at x.event.body in
    let later =
      history-Holds (all ++ begun) next xs t
        (rw same_next (record { held = now.held; counted = now.counted })) rest in
    subst (λ l. Holds l t) (append_assoc all begun (started xs)) later

-- The history of a session that starts empty holds the last 100 of the turns that the journal
-- starts, or all while there are fewer, in order and each as it was started but for its status, end
-- and usage; and the counter counts all of them.
pub turn_history :
    (id : String) (xs : List SessionEventEnvelope) (t : SessionSnapshot)
    → fold_events (empty_snapshot id) xs ≡ ok t
    → (map as_started t.turns ≡ last_n snapshot_turn_history (started xs))
      × (t.turn_count ≡ length (started xs))
unfolding empty_snapshot
turn_history id xs t h =
    let holds =
      history-Holds [] (empty_snapshot id) xs t (record { held = refl; counted = refl }) h in
    (holds.held, holds.counted)
