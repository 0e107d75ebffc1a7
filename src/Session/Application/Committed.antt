-- ===== src/Session/Application/Committed.antt =====
-- src/agent-runtime/session/application/active-session.ts: a commit that does not throw folds its
-- bodies, after what was buffered.
use specrails_core.Prelude.{
  ◌≡◌, refl, subst, String, Bool, true, Option, none, some, List, [], ◌∷◌, ◌++◌, All, ok, err,
  >>=-eq-ok, ok-injective, Bool-cases, Option-cases, inl, inr,
}
use specrails_core.Session.Types.{SessionErrorCode, phase_eq, turn_eq, input_eq, subagent_eq}
use specrails_core.Session.Events.{SessionEvent, SessionEventBody}
use specrails_core.Session.Snapshot.{SessionSnapshot, Outcome}
use specrails_core.Session.Reducer.{fold_events, apply_body, apply_event}
use specrails_core.Session.Reducer.Fold.{apply_event-apply_body}
use specrails_core.Session.Usage.{UsageBaseline}
use specrails_core.Session.OutputBuffer.{TextDelta, flush}
use specrails_core.Session.Application.Live.{Action, Deps, Live, skip, when, choose, ◌⨾◌}
use specrails_core.Session.Application.Commit.{
  append_folded, journal_append, envelopes, apply_all, bodies_of, commit, commit_events,
  commit_with, flush_first, flushed, is_delta, stamped,
}
use specrails_core.Session.Application.Work.{has_any}

pub data Among (b : SessionEventBody) : List SessionEventBody → Type 0 where
  here : {xs : List SessionEventBody} → Among b (b ∷ xs)
  there : {x : SessionEventBody} {xs : List SessionEventBody} → Among b xs → Among b (x ∷ xs)

pub Among-left :
    {b : SessionEventBody} {xs : List SessionEventBody} (ys : List SessionEventBody)
    → Among b xs
    → Among b (xs ++ ys)
Among-left ys here = here
Among-left ys (there p) = there (Among-left ys p)

pub Among-right :
    {b : SessionEventBody} (xs : List SessionEventBody) {ys : List SessionEventBody}
    → Among b ys
    → Among b (xs ++ ys)
Among-right [] p = p
Among-right (x ∷ xs) p = there (Among-right xs p)

-- Bodies that all pass a test.
abbrev pub AllPass : (SessionEventBody → Bool) → List SessionEventBody → Type 0
AllPass test xs = All (λ b. test b ≡ true) xs

pub AllPass-append :
    (test : SessionEventBody → Bool) (xs ys : List SessionEventBody)
    → AllPass test xs
    → AllPass test ys
    → AllPass test (xs ++ ys)
AllPass-append test [] ys p q = q
AllPass-append test (x ∷ xs) ys (p, ps) q = (p, AllPass-append test xs ys ps q)

module _ {ℓ} (Q : SessionSnapshot → Type ℓ) (test : SessionEventBody → Bool)
    (keep_body : (s : SessionSnapshot) (at : String) (e : SessionEventBody) (t : SessionSnapshot)
      → test e ≡ true
      → Q s
      → apply_body s at e ≡ ok t
      → Q t) where
  -- What every body keeps, all of them keep.
  pub all-keep :
      (s t : SessionSnapshot) (at : String) (bodies : List SessionEventBody)
      → AllPass test bodies
      → Q s
      → apply_all s (stamped at bodies) ≡ ok t
      → Q t
  unfolding apply_all
  all-keep s t at [] p q h = subst Q (ok-injective h) q
  all-keep s t at (b ∷ bodies) (p, ps) q h =
      let e : SessionEvent = record { body = b; at = at } in
      let (u, applied, rest) =
        >>=-eq-ok (apply_event s e) (λ next. apply_all next (stamped at bodies)) h in
      all-keep u t at bodies ps (keep_body s at b u p q (apply_event-apply_body s e applied)) rest

  -- What one of them brings about, and all of them keep, holds in the end.
  module _ {κ} (Inv : SessionSnapshot → Type κ)
      (keep_inv : (s : SessionSnapshot) (at : String) (e : SessionEventBody) (t : SessionSnapshot)
        → Inv s
        → apply_body s at e ≡ ok t
        → Inv t)
      (b : SessionEventBody)
      (hit : (s : SessionSnapshot) (at : String) (t : SessionSnapshot)
        → Inv s
        → apply_body s at b ≡ ok t
        → Q t) where
    pub all-reach :
        (s t : SessionSnapshot) (at : String) (bodies : List SessionEventBody)
        → AllPass test bodies
        → Among b bodies
        → Inv s
        → apply_all s (stamped at bodies) ≡ ok t
        → Q t
    unfolding apply_all
    all-reach s t at [] p q i h = elim q [ ]
    all-reach s t at (x ∷ bodies) (p, ps) here i h =
        let e : SessionEvent = record { body = b; at = at } in
        let (u, applied, rest) =
          >>=-eq-ok (apply_event s e) (λ next. apply_all next (stamped at bodies)) h in
        all-keep u t at bodies ps (hit s at u i (apply_event-apply_body s e applied)) rest
    all-reach s t at (x ∷ bodies) (p, ps) (there q) i h =
        let e : SessionEvent = record { body = x; at = at } in
        let (u, applied, rest) =
          >>=-eq-ok (apply_event s e) (λ next. apply_all next (stamped at bodies)) h in
        all-reach u t at bodies ps q (keep_inv s at x u i (apply_event-apply_body s e applied)) rest

-- What a commit that did not throw did: the bodies were folded, after deltas.
pub record Committed (deps : Deps) (s : SessionSnapshot) (bodies : List SessionEventBody)
    (t : SessionSnapshot) : Type 0 where
  pub before : List SessionEventBody
  pub deltas : AllPass is_delta before
  pub next : SessionSnapshot
  pub folds : apply_all s (stamped deps.iso (before ++ bodies)) ≡ ok next
  pub left : t ≡ record next { last_seq = t.last_seq }

pub bodies_of-AllPass : (deltas : List TextDelta) → AllPass is_delta (bodies_of deltas)
bodies_of-AllPass [] = tt
bodies_of-AllPass (TextDelta.turn id channel text ∷ deltas) = (refl, bodies_of-AllPass deltas)
bodies_of-AllPass (TextDelta.subagent id text ∷ deltas) = (refl, bodies_of-AllPass deltas)

journal-appends :
    (deps : Deps) (live : Live) (baseline : Option (String × UsageBaseline))
    (events : List SessionEvent) (next : SessionSnapshot) (r : Outcome SessionSnapshot)
    → (journal_append deps live baseline events next r).thrown ≡ none
    → (journal_append deps live baseline events next r).live.state ≡ record next {
      last_seq = (journal_append deps live baseline events next r).live.state.last_seq;
    }
journal-appends deps live baseline events next (ok stored) h = refl
journal-appends deps live baseline events next (err code) h = absurd cc

append-folds :
    (deps : Deps) (live : Live) (baseline : Option (String × UsageBaseline))
    (events : List SessionEvent) (r : Outcome SessionSnapshot)
    → (append_folded deps live baseline events r).thrown ≡ none
    → (next : SessionSnapshot) × (r ≡ ok next)
      × ((append_folded deps live baseline events r).live.state ≡ record next {
        last_seq = (append_folded deps live baseline events r).live.state.last_seq;
      })
append-folds deps live baseline events (ok next) h = (
  next,
  refl,
  journal-appends deps live baseline events next
      (fold_events live.stored (envelopes live.state.session_id live.stored.last_seq events)) h,
)
append-folds deps live baseline events (err code) h = absurd cc

events-fold :
    (deps : Deps) (live : Live) (baseline : Option (String × UsageBaseline))
    (events : List SessionEvent)
    → (commit_events deps baseline events live).thrown ≡ none
    → (next : SessionSnapshot) × (apply_all live.state events ≡ ok next)
      × ((commit_events deps baseline events live).live.state ≡ record next {
        last_seq = (commit_events deps baseline events live).live.state.last_seq;
      })
unfolding commit_events skip apply_all
events-fold deps live baseline [] h = (live.state, refl, refl)
events-fold deps live baseline (e ∷ events) h =
    append-folds deps live baseline (e ∷ events) (apply_all live.state (e ∷ events)) h

pub commit-Committed :
    (deps : Deps) (bodies : List SessionEventBody) (live : Live)
    → (commit deps bodies live).thrown ≡ none
    → Committed deps live.state bodies (commit deps bodies live).live.state
unfolding commit commit_with
commit-Committed deps bodies live h = elim (Bool-cases (flush_first bodies live)) [
  | inl first ↦
      let (next, folds, left) =
        events-fold deps (flushed live) none
          (stamped deps.iso (bodies_of (flush live.output).1 ++ bodies)) (rw first at h) in
      rw first (record {
        before = bodies_of (flush live.output).1;
        deltas = bodies_of-AllPass (flush live.output).1;
        next = next;
        folds = folds;
        left = left;
      })
  | inr plain ↦
      let (next, folds, left) =
        events-fold deps live none (stamped deps.iso bodies) (rw plain at h) in
      rw plain (record { before = []; deltas = tt; next = next; folds = folds; left = left })
]

none-Committed : (deps : Deps) (s : SessionSnapshot) → Committed deps s [] s
unfolding apply_all
none-Committed deps s = record { before = []; deltas = tt; next = s; folds = refl; left = refl }

-- Two actions, the second after the first.
pub then-quiet :
    (first next : Action) (live : Live)
    → ((first ⨾ next) live).thrown ≡ none
    → ((first live).thrown ≡ none) × ((first ⨾ next) live ≡ next (first live).live)
unfolding ◌⨾◌
then-quiet first next live h = elim (Option-cases (first live).thrown) [
  | inl quiet ↦ (quiet, rw quiet refl)
  | inr (code, loud) ↦
      let clash : Path (Option SessionErrorCode) (some code) none = rw loud at h in absurd cc
]

pub when-commit :
    (deps : Deps) (bodies : List SessionEventBody) (live : Live)
    → (when (λ now. has_any bodies) (commit deps bodies) live).thrown ≡ none
    → Committed deps live.state bodies
        (when (λ now. has_any bodies) (commit deps bodies) live).live.state
unfolding when choose skip
when-commit deps [] live h = none-Committed deps live.state
when-commit deps (b ∷ bodies) live h = commit-Committed deps (b ∷ bodies) live h
