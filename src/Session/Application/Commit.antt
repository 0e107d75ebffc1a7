-- ===== src/Session/Application/Commit.antt =====
-- src/agent-runtime/session/application/active-session.ts: `commit`, which folds before it appends.
-- src/agent-runtime/session/journal/sqlite-journal.ts: `append`, which folds what it is given on its
-- own snapshot, and keeps redacted copies.
use specrails_core.Prelude.{
  ℕ, ◌+◌, String, Bool, true, false, not, ◌&&◌, Option, none, some, List, [], ◌∷◌, ◌++◌, any,
  length, map, ok, err, ◌>>=◌, if◌then◌else◌,
}
use specrails_core.Prelude.Dict.{Dict, put}
use specrails_core.Session.Events.{
  SessionEvent, SessionEventBody, SessionEventEnvelope, SubagentChannel, turn_output,
  subagent_output,
}
use specrails_core.Session.Snapshot.{SessionSnapshot, Outcome}
use specrails_core.Session.Reducer.{apply_event, fold_events}
use specrails_core.Session.Redaction.{redact_envelope, redact_snapshot}
use specrails_core.Session.Usage.{UsageBaseline}
use specrails_core.Session.Timers.{cancel}
use specrails_core.Session.OutputBuffer.{TextDelta, body_of, has_pending, flush}
use specrails_core.Session.Application.Live.{
  Live, Ran, Action, Deps, skip, set, choose, look, ◌⨾◌, ensure_timer, cancel_timers,
}

abbrev pub is_delta : SessionEventBody → Bool
is_delta (turn_output id channel delta) = true
is_delta (subagent_output id SubagentChannel.text delta tool) = true
is_delta _ = false

abbrev pub bodies_of : List TextDelta → List SessionEventBody
bodies_of [] = []
bodies_of (delta ∷ deltas) = body_of delta ∷ bodies_of deltas

-- `all.map((body) => ({ ...body, at }))`
abbrev pub stamped : String → List SessionEventBody → List SessionEvent
stamped at [] = []
stamped at (body ∷ bodies) = record { body = body; at = at } ∷ stamped at bodies

unfoldable pub apply_all : SessionSnapshot → List SessionEvent → Outcome SessionSnapshot
apply_all s [] = ok s
apply_all s (event ∷ events) = apply_event s event >>= λ next. apply_all next events

-- `journal.append`: the events, numbered.
abbrev pub envelopes : String → ℕ → List SessionEvent → List SessionEventEnvelope
envelopes id seq [] = []
envelopes id seq (event ∷ events) =
    record { session_id = id; seq = seq + 1; event = event } ∷ envelopes id (seq + 1) events

-- `options.baseline`
abbrev pub store_baseline :
    Option (String × UsageBaseline) → Dict UsageBaseline → Dict UsageBaseline
store_baseline none baselines = baselines
store_baseline (some (ref, value)) baselines = put ref value baselines

-- What was buffered, where the bodies hold more than deltas.
abbrev pub flush_first : List SessionEventBody → Live → Bool
flush_first bodies live = any (λ body. not (is_delta body)) bodies && has_pending live.output

abbrev pub flushed : Live → Live
flushed live = record live {
  output = (flush live.output).0;
  timers = cancel live.timers ("flush" ∷ []);
}

-- `journal.append`, with what its fold gives, and the state that the session goes on with.
abbrev pub journal_append :
    Deps
    → Live
    → Option (String × UsageBaseline)
    → List SessionEvent
    → SessionSnapshot
    → Outcome SessionSnapshot
    → Ran
journal_append deps live baseline events next (err code) = record {
  live = live;
  thrown = some code;
}
journal_append deps live baseline events next (ok stored) = record {
  live = record live {
    state = record next { last_seq = live.stored.last_seq + length events };
    journal =
        live.journal
        ++ map (redact_envelope deps.redact deps.redact_deep)
            (envelopes live.state.session_id live.stored.last_seq events);
    stored = redact_snapshot deps.redact deps.redact_deep stored;
    baselines = store_baseline baseline live.baselines;
  };
  thrown = none;
}

abbrev pub append_folded :
    Deps
    → Live
    → Option (String × UsageBaseline)
    → List SessionEvent
    → Outcome SessionSnapshot
    → Ran
append_folded deps live baseline events (err code) = record { live = live; thrown = some code }
append_folded deps live baseline events (ok next) =
    journal_append deps live baseline events next
      (fold_events live.stored (envelopes live.state.session_id live.stored.last_seq events))

unfoldable pub commit_events : Deps → Option (String × UsageBaseline) → List SessionEvent → Action
commit_events deps baseline [] live = skip live
commit_events deps baseline (event ∷ events) live =
    append_folded deps live baseline (event ∷ events) (apply_all live.state (event ∷ events))

-- `commit`
unfoldable pub commit_with : Deps → Option (String × UsageBaseline) → List SessionEventBody → Action
commit_with deps baseline bodies live =
    if flush_first bodies live
    then commit_events deps baseline (stamped deps.iso (bodies_of (flush live.output).1 ++ bodies))
        (flushed live)
    else commit_events deps baseline (stamped deps.iso bodies) live

unfoldable pub commit : Deps → List SessionEventBody → Action
commit deps bodies = commit_with deps none bodies

-- `this.commit(this.output.flush())`
unfoldable pub commit_flushed : Deps → Action
commit_flushed deps = look (λ live.
    set (λ now. record now { output = (flush now.output).0 })
    ⨾ commit deps (bodies_of (flush live.output).1))

unfoldable pub commit_buffered : Deps → List SessionEventBody → Action
commit_buffered deps ready =
    choose (λ live. any (λ body. true) ready) (commit deps ready) skip
    ⨾ choose (λ live. has_pending live.output) (ensure_timer "flush") (cancel_timers ("flush" ∷ []))
