-- ===== src/Session/Application/Replay.antt =====
-- The live state is what a replay of the journal gives but for redacted texts, after every action.
use specrails_core.Prelude.{
  ℕ, ◌+◌, ◌≡◌, refl, sym, ap, ◌∙◌, String, Bool, true, false, Option, none, some, List, [], ◌∷◌,
  ◌++◌, length, map, ok, err, ◌>>=◌, arith, Bool-cases, inl, inr, >>=-eq-ok, ok-injective,
}
use specrails_core.Session.Types.{SessionErrorCode}
use specrails_core.Session.Events.{SessionEvent, SessionEventBody}
use specrails_core.Session.Snapshot.{SessionSnapshot, Outcome}
use specrails_core.Session.Reducer.{apply_event, fold_step, fold_events}
use specrails_core.Session.Reducer.Fold.{
  fold_events-append, apply_body-coordinates, apply_event-apply_body,
}
use specrails_core.Session.Redaction.{redact_envelope}
use specrails_core.Session.Reducer.Erased.{erase, erased}
use specrails_core.Session.Reducer.ErasedFold.{erased-ok, alike-fold}
use specrails_core.Session.Reducer.Redacted.{erase-redact_snapshot, redacted_journal-fold}
use specrails_core.Session.Reducer.Numbering.{fold_step-next}
use specrails_core.Session.Usage.{UsageBaseline}
use specrails_core.Session.OutputBuffer.{flush}
use specrails_core.Session.Timers.{TimerKind}
use specrails_core.Session.Application.Live.{
  Live, Action, Deps, Request, set, skip, throw, continue_with, ◌⨾◌, look, choose_on, choose, when,
  with_option, ask, cancel_timers, arm_timer, ensure_timer, detached,
}
use specrails_core.Session.Application.Commit.{
  apply_all, envelopes, stamped, bodies_of, append_folded, commit_events, commit_with, commit,
  commit_flushed, commit_buffered, flush_first, flushed,
}

-- Events that fold, folded as the envelopes that the journal numbers.
fold_events-envelopes :
    (s t : SessionSnapshot) (n : ℕ) (id : String) (events : List SessionEvent)
    → s.session_id ≡ id
    → apply_all s events ≡ ok t
    → fold_events (record s { last_seq = n }) (envelopes id n events)
      ≡ ok (record t { last_seq = n + length events })
unfolding fold_events apply_all
fold_events-envelopes s t n id [] same h =
    let same_state : s ≡ t = ok-injective h in
    ap (λ (x : SessionSnapshot). ok (record x { last_seq = n })) same_state
    ∙ ap (λ k. ok (record t { last_seq = k })) (omega arith)
fold_events-envelopes s t n id (e ∷ events) same h =
    let (u, applied, rest) = >>=-eq-ok (apply_event s e) (λ next. apply_all next events) h in
    let kept = apply_body-coordinates s e.at e.body u (apply_event-apply_body s e applied) in
    let stepped = fold_step-next s u n e applied in
    let later = fold_events-envelopes u t (n + 1) id events (kept.1 ∙ same) rest in
    let first =
      ap
        (λ i.
          fold_step (record s { last_seq = n }) (record { session_id = i; seq = n + 1; event = e }))
        (sym same)
      ∙ stepped in
    ap (λ r. r >>= λ next. fold_events next (envelopes id (n + 1) events)) first
    ∙ later
    ∙ ap (λ k. ok (record t { last_seq = k })) (omega arith)

-- The journal folds, on the snapshot that the session started from, to its state but for the free
-- texts that were redacted; so does the snapshot that the journal stores.
pub record IsReplayed (start : SessionSnapshot) (live : Live) : Type 0 where
  pub copy : SessionSnapshot
  pub replayed : fold_events start live.journal ≡ ok copy
  pub alike : erase copy ≡ erase live.state
  pub kept : erase live.stored ≡ erase live.state

-- An action after which a replayed session is replayed.
pub record Replays (action : Action) : Type 0 where
  pub keeps :
      (start : SessionSnapshot) (live : Live)
      → IsReplayed start live
      → IsReplayed start (action live).live

pub skip-Replays : Replays skip
unfolding skip
skip-Replays = record { keeps = λ start live h. h }

pub throw-Replays : (code : SessionErrorCode) → Replays (throw code)
unfolding throw
throw-Replays code = record { keeps = λ start live h. h }

-- A change of fields other than the state and the journal.
pub set-Replays :
    (change : Live → Live)
    → ((live : Live) → (change live).state ≡ live.state)
    → ((live : Live) → (change live).journal ≡ live.journal)
    → ((live : Live) → (change live).stored ≡ live.stored)
    → Replays (set change)
unfolding set
set-Replays change same_state same_journal same_stored = record {
  keeps = λ start live h. record {
    copy = h.copy;
    replayed = ap (λ j. fold_events start j) (same_journal live) ∙ h.replayed;
    alike = h.alike ∙ ap (λ s. erase s) (sym (same_state live));
    kept =
        ap (λ s. erase s) (same_stored live) ∙ h.kept ∙ ap (λ s. erase s) (sym (same_state live));
  };
}

continue-Replays :
    (start : SessionSnapshot) (thrown : Option SessionErrorCode) (live : Live) (next : Action)
    → IsReplayed start live
    → Replays next
    → IsReplayed start (continue_with thrown live next).live
continue-Replays start none live next h r = r.keeps start live h
continue-Replays start (some code) live next h r = h

pub then-Replays : {first next : Action} → Replays first → Replays next → Replays (first ⨾ next)
unfolding ◌⨾◌
then-Replays {first} {next} a b = record {
  keeps = λ start live h.
      continue-Replays start (first live).thrown (first live).live next (a.keeps start live h) b;
}

pub look-Replays :
    {action : Live → Action} → ((live : Live) → Replays (action live)) → Replays (look action)
unfolding look
look-Replays r = record { keeps = λ start live h. (r live).keeps start live h }

choose_on-Replays :
    {a b : Action} (test : Bool) → Replays a → Replays b → Replays (choose_on test a b)
choose_on-Replays true r s = record { keeps = λ start live h. r.keeps start live h }
choose_on-Replays false r s = record { keeps = λ start live h. s.keeps start live h }

pub choose-Replays :
    (test : Live → Bool) {a b : Action} → Replays a → Replays b → Replays (choose test a b)
unfolding choose
choose-Replays test r s = record {
  keeps = λ start live h. (choose_on-Replays (test live) r s).keeps start live h;
}

pub option-Replays {ℓ} :
    {A : Type ℓ} {missing : Action} {found : A → Action} (value : Option A)
    → Replays missing
    → ((a : A) → Replays (found a))
    → Replays (with_option value missing found)
unfolding with_option
option-Replays none r s = record { keeps = λ start live h. r.keeps start live h }
option-Replays (some a) r s = record { keeps = λ start live h. (s a).keeps start live h }

-- Appending what folds.
append_folded-IsReplayed :
    (deps : Deps) (start : SessionSnapshot) (live : Live)
    (baseline : Option (String × UsageBaseline)) (events : List SessionEvent)
    (r : Outcome SessionSnapshot)
    → IsReplayed start live
    → apply_all live.state events ≡ r
    → IsReplayed start (append_folded deps live baseline events r).live
append_folded-IsReplayed deps start live baseline events (err code) h folds = h
append_folded-IsReplayed deps start live baseline events (ok next) h folds =
    let s = live.state in
    let n = live.stored.last_seq in
    let added = envelopes s.session_id n events in
    let redacted = map (redact_envelope deps.redact deps.redact_deep) added in
    let same_seq : n ≡ s.last_seq = ap (λ (u : SessionSnapshot). u.last_seq) h.kept in
    let after : SessionSnapshot = record next { last_seq = n + length events } in
    let folded : fold_events s added ≡ ok after =
      ap (λ k. fold_events (record s { last_seq = k }) added) (sym same_seq)
      ∙ fold_events-envelopes s next n s.session_id events refl folds in
    let (stored, stores, stored_alike) =
      erased-ok (fold_events live.stored added) after
        (alike-fold live.stored s added h.kept ∙ ap (λ r. erased r) folded) in
    let (copy, copies, copy_alike) = erased-ok (fold_events h.copy redacted) after (
      redacted_journal-fold deps.redact deps.redact_deep h.copy s added h.alike
      ∙ ap (λ r. erased r) folded) in
    rw stores (record {
      copy = copy;
      replayed =
          fold_events-append start live.journal redacted
          ∙ ap (λ r. r >>= λ t. fold_events t redacted) h.replayed
          ∙ copies;
      alike = copy_alike;
      kept = erase-redact_snapshot deps.redact deps.redact_deep stored ∙ stored_alike;
    })

commit_events-Replays :
    (deps : Deps) (baseline : Option (String × UsageBaseline)) (events : List SessionEvent)
    → Replays (commit_events deps baseline events)
unfolding commit_events skip
commit_events-Replays deps baseline [] = record { keeps = λ start live h. h }
commit_events-Replays deps baseline (e ∷ events) = record {
  keeps = λ start live h.
      append_folded-IsReplayed deps start live baseline (e ∷ events)
        (apply_all live.state (e ∷ events)) h refl;
}

pub commit_with-Replays :
    (deps : Deps) (baseline : Option (String × UsageBaseline)) (bodies : List SessionEventBody)
    → Replays (commit_with deps baseline bodies)
unfolding commit_with
commit_with-Replays deps baseline bodies = record {
  keeps = λ start live h. elim (Bool-cases (flush_first bodies live)) [
    | inl first ↦ rw first (
        (commit_events-Replays deps baseline
            (stamped deps.iso (bodies_of (flush live.output).1 ++ bodies))).keeps
          start (flushed live)
          (record { copy = h.copy; replayed = h.replayed; alike = h.alike; kept = h.kept }))
    | inr plain ↦
        rw plain
          ((commit_events-Replays deps baseline (stamped deps.iso bodies)).keeps start live h)
  ];
}

pub commit-Replays : (deps : Deps) (bodies : List SessionEventBody) → Replays (commit deps bodies)
unfolding commit
commit-Replays deps bodies = commit_with-Replays deps none bodies

pub detached-Replays : {action : Action} → Replays action → Replays (detached action)
unfolding detached
detached-Replays r = record { keeps = λ start live h. (r.keeps start live h) }

pub when-Replays :
    (test : Live → Bool) {action : Action} → Replays action → Replays (when test action)
unfolding when
when-Replays test r = choose-Replays test r skip-Replays

pub cancel-Replays : (kinds : List TimerKind) → Replays (cancel_timers kinds)
unfolding cancel_timers
cancel-Replays kinds = set-Replays _ (λ live. refl) (λ live. refl) (λ live. refl)

pub arm-Replays : (kind : TimerKind) → Replays (arm_timer kind)
unfolding arm_timer
arm-Replays kind = set-Replays _ (λ live. refl) (λ live. refl) (λ live. refl)

pub ensure-Replays : (kind : TimerKind) → Replays (ensure_timer kind)
unfolding ensure_timer
ensure-Replays kind = set-Replays _ (λ live. refl) (λ live. refl) (λ live. refl)

pub ask-Replays : (r : Request) → Replays (ask r)
unfolding ask
ask-Replays r = set-Replays _ (λ live. refl) (λ live. refl) (λ live. refl)

pub flushed-Replays : (deps : Deps) → Replays (commit_flushed deps)
unfolding commit_flushed
flushed-Replays deps = look-Replays (λ live.
    then-Replays (set-Replays _ (λ l. refl) (λ l. refl) (λ l. refl)) (commit-Replays deps _))

pub buffered-Replays :
    (deps : Deps) (ready : List SessionEventBody) → Replays (commit_buffered deps ready)
unfolding commit_buffered
buffered-Replays deps ready =
    then-Replays (choose-Replays _ (commit-Replays deps ready) skip-Replays)
      (choose-Replays _ (ensure-Replays "flush") (cancel-Replays _))
