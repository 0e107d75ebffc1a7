-- ===== src/Session/Reducer/Fold.antt =====
-- The fold of a journal: snapshot.ts, `foldEvents`.
use specrails_core.Prelude.{
  ℕ, ◌+◌, String, ◌≡◌, refl, sym, ◌∙◌, List, [], ◌∷◌, ◌++◌, length, ok, err, ◌>>=◌, ok-injective,
  subst, subst₂, >>=-eq-ok, arith, eq_iff,
}
use specrails_core.Session.Snapshot.{SessionSnapshot, Outcome}
use specrails_core.Session.Reducer.{apply_body, apply_event, fold_step, fold_events}
use specrails_core.Session.Events.{
  SessionEventBody, session_updated, turn_completed, SessionEvent, SessionEventEnvelope,
  UpdateOutcome,
}

-- An accepted event of a session is an accepted case of the `switch`.
pub apply_event-apply_body :
    (s : SessionSnapshot) (e : SessionEvent) {t : SessionSnapshot}
    → apply_event s e ≡ ok t
    → apply_body s e.at e.body ≡ ok t
unfolding apply_event
apply_event-apply_body s e h = ground arith

pub fold_step-inv :
    (s : SessionSnapshot) (x : SessionEventEnvelope) (t : SessionSnapshot)
    → fold_step s x ≡ ok t
    → (u : SessionSnapshot) × (apply_event s x.event ≡ ok u)
      × (x.session_id ≡ s.session_id)
      × (x.seq ≡ s.last_seq + 1)
      × (t ≡ record u { last_seq = x.seq })
unfolding fold_step
fold_step-inv s x t h = ground (arith, eq_iff x.session_id s.session_id)

-- Folding a journal in two parts is folding it whole.
pub fold_events-append :
    (s : SessionSnapshot) (xs ys : List SessionEventEnvelope)
    → fold_events s (xs ++ ys) ≡ (fold_events s xs >>= λ t. fold_events t ys)
unfolding fold_events
fold_events-append s [] ys = refl
fold_events-append s (x ∷ xs) ys = go (fold_step s x) (λ next. fold_events-append next xs ys)
  where
    go :
        (r : Outcome SessionSnapshot)
        → ((next : SessionSnapshot)
            → fold_events next (xs ++ ys) ≡ (fold_events next xs >>= λ t. fold_events t ys))
        → (r >>= λ next. fold_events next (xs ++ ys))
          ≡ ((r >>= λ next. fold_events next xs) >>= λ t. fold_events t ys)
    go (ok next) ih = ih next
    go (err e) ih = refl

-- An invariant of the cases of the `switch` is one of the fold.
module _ {ℓ} (P : SessionSnapshot → Type ℓ)
    (body : (s : SessionSnapshot) (at : String) (e : SessionEventBody) (t : SessionSnapshot)
      → P s
      → apply_body s at e ≡ ok t
      → P t)
    (seq : (s : SessionSnapshot) (n : ℕ) → P s → P (record s { last_seq = n })) where
  step :
      (s : SessionSnapshot) (x : SessionEventEnvelope) (t : SessionSnapshot)
      → P s
      → fold_step s x ≡ ok t
      → P t
  step s x t p h =
      let (u, applied, _, _, same_t) = fold_step-inv s x t h in
      subst P (sym same_t) (
        seq u x.seq (body s x.event.at x.event.body u p (apply_event-apply_body s x.event applied)))

  pub fold_events-inv :
      (s : SessionSnapshot) (xs : List SessionEventEnvelope) (t : SessionSnapshot)
      → P s
      → fold_events s xs ≡ ok t
      → P t
  unfolding fold_events
  fold_events-inv s [] t p h = subst P (ok-injective h) p
  fold_events-inv s (x ∷ xs) t p h =
      let (next, stepped, rest) = >>=-eq-ok (fold_step s x) (λ n. fold_events n xs) h in
      fold_events-inv next xs t (step s x next p stepped) rest

-- The journal's coordinates: nothing is skipped, and the session stays the same.

-- No case of the `switch` writes the sequence number or the session's id.
pub apply_body-coordinates :
    (s : SessionSnapshot) (at : String) (e : SessionEventBody) (t : SessionSnapshot)
    → apply_body s at e ≡ ok t
    → (t.last_seq ≡ s.last_seq) × (t.session_id ≡ s.session_id)
unfolding apply_body
apply_body-coordinates s at (session_updated changes UpdateOutcome.applied) t h = ground arith
apply_body-coordinates s at (session_updated changes UpdateOutcome.deferred) t h = ground arith
apply_body-coordinates s at (turn_completed e) t h = ground arith
apply_body-coordinates s at _ t h = ground arith

-- The envelopes are those of the session, numbered from `n` on with no gap.
abbrev pub Numbered : String → ℕ → List SessionEventEnvelope → Type 0
Numbered id n [] = Unit
Numbered id n (x ∷ xs) = (x.session_id ≡ id) × (x.seq ≡ n) × Numbered id (n + 1) xs

fold_step-coordinates :
    (s : SessionSnapshot) (x : SessionEventEnvelope) (t : SessionSnapshot)
    → fold_step s x ≡ ok t
    → (x.session_id ≡ s.session_id)
      × (x.seq ≡ s.last_seq + 1)
      × (t.last_seq ≡ s.last_seq + 1)
      × (t.session_id ≡ s.session_id)
fold_step-coordinates s x t h =
    let (u, applied, id, seq, same_t) = fold_step-inv s x t h in
    let kept =
      apply_body-coordinates s x.event.at x.event.body u
        (apply_event-apply_body s x.event applied) in
    (id, seq, rw same_t seq, rw same_t kept.1)

-- A journal that folds is gap-free from the snapshot on, all of its envelopes are for the
-- snapshot's session, and the result stands at the last of them.
pub fold_events-coordinates :
    (s : SessionSnapshot) (xs : List SessionEventEnvelope) (t : SessionSnapshot)
    → fold_events s xs ≡ ok t
    → Numbered s.session_id (s.last_seq + 1) xs
      × (t.last_seq ≡ s.last_seq + length xs)
      × (t.session_id ≡ s.session_id)
unfolding fold_events
fold_events-coordinates s [] t h =
    let e : s ≡ t = ok-injective h in (tt, rw (← e) (omega arith), rw (← e) refl)
fold_events-coordinates s (x ∷ xs) t h =
    let (next, stepped, rest) = >>=-eq-ok (fold_step s x) (λ n. fold_events n xs) h in
    let (id, seq, seq', id') = fold_step-coordinates s x next stepped in
    let (numbered, last, same_id) = fold_events-coordinates next xs t rest in
    ((id, seq, subst₂ (λ i n. Numbered i (n + 1) xs) id' seq' numbered), omega arith, same_id ∙ id')

-- What every accepted event relates, the fold relates.
module _ {ℓ} (R : SessionSnapshot → SessionSnapshot → Type ℓ) (self : (s : SessionSnapshot) → R s s)
    (trans : (s t u : SessionSnapshot) → R s t → R t u → R s u)
    (body : (s : SessionSnapshot) (at : String) (e : SessionEventBody) (t : SessionSnapshot)
      → apply_body s at e ≡ ok t
      → R s t)
    (seq : (s : SessionSnapshot) (n : ℕ) → R s (record s { last_seq = n })) where
  relate :
      (s : SessionSnapshot) (x : SessionEventEnvelope) (t : SessionSnapshot)
      → fold_step s x ≡ ok t
      → R s t
  relate s x t h =
      let (u, applied, _, _, same_t) = fold_step-inv s x t h in
      subst (R s) (sym same_t) (
        trans s u _ (body s x.event.at x.event.body u (apply_event-apply_body s x.event applied))
          (seq u x.seq))

  pub fold_events-rel :
      (s : SessionSnapshot) (xs : List SessionEventEnvelope) (t : SessionSnapshot)
      → fold_events s xs ≡ ok t
      → R s t
  unfolding fold_events
  fold_events-rel s [] t h = subst (R s) (ok-injective h) (self s)
  fold_events-rel s (x ∷ xs) t h =
      let (next, stepped, rest) = >>=-eq-ok (fold_step s x) (λ n. fold_events n xs) h in
      trans s next t (relate s x next stepped) (fold_events-rel next xs t rest)
