-- ===== src/Session/Application/Quiet.antt =====
-- src/agent-runtime/session/application/active-session.ts: `endRunningWork` leaves no turn open, and
-- no sub-agent of the process running.
use specrails_core.Prelude.{
  ℕ, String, true, false, none, some, List, [], ◌∷◌, ◌++◌, ◌≡◌, refl, ap, ◌∙◌, ok, arith,
  Bool-cases, Option-cases, inl, inr,
}
use specrails_core.Prelude.Dict.{Dict, get}
use specrails_core.Session.Events.{SessionEventBody, subagent_phase, turn_completed}
use specrails_core.Session.Snapshot.{SessionSnapshot, SubagentNode}
use specrails_core.Session.Reducer.{apply_body}
use specrails_core.Session.Reducer.Frame.{writes_subagents, subagents_frame}
use specrails_core.Session.Reducer.Forest.{IsForest, body-Grows}
use specrails_core.Session.Reducer.Endings.{
  WasCut, WasCut-kept, completed-no_turn, is_cut, moved-WasCut, no_turn-kept,
}
use specrails_core.Session.OutputBuffer.{flush, has_pending}
use specrails_core.Session.Application.Live.{
  Action, Deps, Live, Teardown, look, set, skip, when, choose, cancel_timers, ◌⨾◌,
}
use specrails_core.Session.Application.Commit.{bodies_of, commit, commit_flushed, is_delta}
use specrails_core.Session.Application.Work.{
  end_running_work, ended_work, closed_turn, has_any, is_own, is_running,
}
use specrails_core.Session.Application.Committed.{
  Among-left, Among-right, AllPass, AllPass-append, all-keep, all-reach, Committed,
  commit-Committed, then-quiet, when-commit, bodies_of-AllPass,
}
use specrails_core.Session.Application.Ended.{
  deltas-start_none, work-start_none, starts_none, turn-Among, phase-Among,
}

delta_frame : (e : SessionEventBody) → is_delta e ≡ true → writes_subagents e ≡ false
delta_frame e h = ground arith

delta-keeps :
    (d : Dict SubagentNode) (s : SessionSnapshot) (at : String) (e : SessionEventBody)
    (t : SessionSnapshot)
    → is_delta e ≡ true
    → s.subagents ≡ d
    → apply_body s at e ≡ ok t
    → t.subagents ≡ d
delta-keeps d s at e t p q h = subagents_frame s at e t (delta_frame e p) h ∙ q

deltas-Committed :
    (deps : Deps) (s : SessionSnapshot) (bodies : List SessionEventBody) (t : SessionSnapshot)
    → AllPass is_delta bodies
    → Committed deps s bodies t
    → t.subagents ≡ s.subagents
deltas-Committed deps s bodies t p c =
    ap (λ (u : SessionSnapshot). u.subagents) c.left
    ∙ all-keep (λ u. u.subagents ≡ s.subagents) is_delta (delta-keeps s.subagents) s c.next deps.iso
        (c.before ++ bodies) (AllPass-append is_delta c.before bodies c.deltas p) refl c.folds

-- What is buffered is committed first.
abbrev flush_output : Deps → Action
flush_output deps =
    when (λ live. has_pending live.output) (cancel_timers ("flush" ∷ []) ⨾ commit_flushed deps)

-- What is ended is committed then.
abbrev end_rest : Deps → Teardown → Action
end_rest deps teardown = look (λ live.
    set (λ now. record now {
      output = (ended_work teardown live).0;
      held_inputs = [];
      interrupt_queue = [];
      pending_interrupt = none;
      roster = none;
    })
    ⨾ when (λ now. has_any (ended_work teardown live).1) (commit deps (ended_work teardown live).1))

flush_output-subagents :
    (deps : Deps) (live : Live)
    → (flush_output deps live).thrown ≡ none
    → (flush_output deps live).live.state.subagents ≡ live.state.subagents
unfolding when choose skip look set cancel_timers ◌⨾◌ commit_flushed
flush_output-subagents deps live h = elim (Bool-cases (has_pending live.output)) [
  | inl pending ↦ rw pending (
      deltas-Committed deps live.state (bodies_of (flush live.output).1) _
        (bodies_of-AllPass (flush live.output).1)
        (commit-Committed deps (bodies_of (flush live.output).1) _ (rw pending at h)))
  | inr empty ↦ rw empty refl
]

end_rest-Committed :
    (deps : Deps) (teardown : Teardown) (live : Live)
    → (end_rest deps teardown live).thrown ≡ none
    → Committed deps live.state
        (ended_work teardown live).1
        (end_rest deps teardown live).live.state
unfolding look set ◌⨾◌
end_rest-Committed deps teardown live h = when-commit deps (ended_work teardown live).1 _ h

-- The commit of what is ended, after what was buffered.
record Ended (deps : Deps) (teardown : Teardown) (live after : Live) : Type 0 where
  between : Live
  subagents : between.state.subagents ≡ live.state.subagents
  committed : Committed deps between.state (ended_work teardown between).1 after.state

end-Ended :
    (deps : Deps) (teardown : Teardown) (live : Live)
    → (end_running_work deps teardown live).thrown ≡ none
    → Ended deps teardown live (end_running_work deps teardown live).live
unfolding end_running_work
end-Ended deps teardown live h =
    let (quiet, run) = then-quiet (flush_output deps) (end_rest deps teardown) live h in
    let between = (flush_output deps live).live in
    rw run (record {
      between = between;
      subagents = flush_output-subagents deps live quiet;
      committed = end_rest-Committed deps teardown between (rw run at h);
    })

-- `endRunningWork` that does not throw leaves no turn open.
pub turn_ends :
    (deps : Deps) (teardown : Teardown) (live : Live)
    → (end_running_work deps teardown live).thrown ≡ none
    → (end_running_work deps teardown live).live.state.open_turn ≡ none
turn_ends deps teardown live h =
    let ended = end-Ended deps teardown live h in
    let c = ended.committed in
    let bodies = (ended_work teardown ended.between).1 in
    let passes =
      AllPass-append starts_none c.before bodies (deltas-start_none c.before c.deltas)
        (work-start_none teardown ended.between) in
    ap (λ (u : SessionSnapshot). u.open_turn) c.left
    ∙ elim (Option-cases ended.between.state.open_turn) [
      | inl closed ↦
          all-keep (λ u. u.open_turn ≡ none) starts_none no_turn-kept ended.between.state c.next
            deps.iso (c.before ++ bodies) passes closed c.folds
      | inr (turn, is_open) ↦
          let (e, among) = turn-Among teardown ended.between turn is_open in
          all-reach (λ u. u.open_turn ≡ none) starts_none no_turn-kept (λ u. true ≡ true)
            (λ _ _ _ _ i _. i) (turn_completed e)
            (λ u at t i applied. completed-no_turn u at e t applied) ended.between.state c.next
            deps.iso (c.before ++ bodies) passes (Among-right c.before among) refl c.folds
    ]

last_seq-WasCut :
    (k : String) (s t : SessionSnapshot) (n : ℕ)
    → t ≡ record s { last_seq = n }
    → WasCut k s
    → WasCut k t
last_seq-WasCut k s t n h w =
    rw h (record { forest = w.forest; node = w.node; found = w.found; is_over = w.is_over })

all-true : (bodies : List SessionEventBody) → AllPass (λ b. true) bodies
all-true [] = tt
all-true (b ∷ bodies) = (refl, all-true bodies)

-- A sub-agent of the process that runs in a well-formed tree is cut short by an `endRunningWork`
-- that does not throw and whose phase is stopped, killed or interrupted: it is then in one of these
-- phases, and the tree is still well formed.
pub subagent_ends :
    (deps : Deps) (teardown : Teardown) (live : Live) (k : String) (node : SubagentNode)
    → IsForest live.state.subagents
    → is_cut teardown.subagent_phase ≡ true
    → get k live.state.subagents ≡ some node
    → is_own node ≡ true
    → is_running node ≡ true
    → (end_running_work deps teardown live).thrown ≡ none
    → WasCut k (end_running_work deps teardown live).live.state
subagent_ends deps teardown live k node forest cut found own running h =
    let ended = end-Ended deps teardown live h in
    let c = ended.committed in
    let s = ended.between.state in
    let turn = closed_turn teardown ended.between.output s.open_turn in
    let known : get k s.subagents ≡ some node = ap (λ d. get k d) ended.subagents ∙ found in
    let tree : IsForest s.subagents = rw ended.subagents forest in
    let among =
      phase-Among teardown turn.0 k node s.subagents known (forest.keyed k node found) own
        running in
    last_seq-WasCut k c.next (end_running_work deps teardown live).live.state _ c.left (
      all-reach (WasCut k) (λ b. true) (λ u at e t _ w applied. WasCut-kept k u at e t w applied)
        (λ u. IsForest u.subagents) (λ u at e t i applied. (body-Grows u at e t applied i).0)
        (subagent_phase k teardown.subagent_phase (some teardown.reason))
        (λ u at t i applied.
          moved-WasCut k teardown.subagent_phase (some teardown.reason) u at t cut i applied)
        s c.next deps.iso (c.before ++ (ended_work teardown ended.between).1)
        (all-true (c.before ++ (ended_work teardown ended.between).1))
        (Among-right c.before (Among-right turn.1 (Among-left _ among))) tree c.folds)
