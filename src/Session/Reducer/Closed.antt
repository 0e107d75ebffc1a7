-- ===== src/Session/Reducer/Closed.antt =====
-- A closed session: snapshot.ts, the guard of `applyEvent`.
use specrails_core.Prelude.{true, ◌≡◌, List, [], ◌∷◌, All, ok, >>=-eq-ok, ok-injective, arith}
use specrails_core.Session.Types.{SessionStatus, phase_eq, turn_eq, input_eq, subagent_eq}
use specrails_core.Session.Events.{SessionEvent, SessionEventEnvelope}
use specrails_core.Session.Snapshot.{SessionSnapshot}
use specrails_core.Session.Reducer.{apply_event, fold_step, fold_events, is_diagnostic}
use specrails_core.Session.Reducer.Fold.{fold_step-inv}

abbrev pub AllDiagnostic : List SessionEventEnvelope → Type 0
AllDiagnostic xs = All (λ x. is_diagnostic x.event.body ≡ true) xs

closed_step :
    (s : SessionSnapshot) (e : SessionEvent) (t : SessionSnapshot)
    → s.status ≡ SessionStatus.closed
    → apply_event s e ≡ ok t
    → (is_diagnostic e.body ≡ true) × (t ≡ s)
unfolding apply_event
closed_step s e t c h = ground arith

-- Once a session is closed its journal goes on with diagnostics only, and apart from the sequence
-- number nothing of the snapshot changes.
pub closed_absorbs :
    (s : SessionSnapshot) (xs : List SessionEventEnvelope) (t : SessionSnapshot)
    → s.status ≡ SessionStatus.closed
    → fold_events s xs ≡ ok t
    → AllDiagnostic xs × (t ≡ record s { last_seq = t.last_seq })
unfolding fold_events
closed_absorbs s [] t c h = (tt, ground (arith, ok-injective h))
closed_absorbs s (x ∷ xs) t c h =
    let (next, stepped, rest) = >>=-eq-ok (fold_step s x) (λ n. fold_events n xs) h in
    let (u, applied, _, _, same_t) = fold_step-inv s x next stepped in
    let (diagnostic, same_u) = closed_step s x.event u c applied in
    let (others, same_end) = closed_absorbs next xs t (rw (same_t, same_u) c) rest in
    ((diagnostic, others), ground arith)
