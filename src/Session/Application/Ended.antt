-- ===== src/Session/Application/Ended.antt =====
-- src/agent-runtime/session/application/active-session.ts: the bodies that `endRunningWork` commits.
use specrails_core.Prelude.{
  ◌≡◌, refl, String, Bool, true, not, ◌&&◌, Option, none, some, List, [], ◌∷◌, ◌++◌, is_some, ◌||◌,
  ◌==◌, str_eq, arith, Bool-cases, Option-cases, inl, inr, same,
}
use specrails_core.Prelude.Dict.{Dict, get, values}
use specrails_core.Session.Types.{phase_eq, turn_eq, input_eq, subagent_eq}
use specrails_core.Session.Events.{
  SessionEventBody, TurnCompleted, turn_started, turn_completed, subagent_phase,
}
use specrails_core.Session.Snapshot.{SessionSnapshot, SubagentNode, InputRecord, OpenTurn}
use specrails_core.Session.Reducer.Endings.{starts_turn}
use specrails_core.Session.OutputBuffer.{OutputBuffer, drain, subagent_key, turn_key}
use specrails_core.Session.Application.Live.{Live, Teardown}
use specrails_core.Session.Application.Commit.{is_delta}
use specrails_core.Session.Application.Work.{
  cut_short, closed_turn, ended_input, ended_inputs, ended_phase, ended_settled, ended_subagents,
  ended_work, has_any, delegated_live, next_phase, is_own, is_running, is_running_or_idle,
}
use specrails_core.Session.Application.Committed.{
  here, Among, Among-left, Among-right, AllPass, AllPass-append,
}

-- None of the bodies starts a turn.
abbrev pub starts_none : SessionEventBody → Bool
starts_none b = not (starts_turn b)

pub deltas-start_none :
    (bodies : List SessionEventBody) → AllPass is_delta bodies → AllPass starts_none bodies
deltas-start_none [] p = tt
deltas-start_none (b ∷ bodies) (p, ps) = (delta_starts_none b p, deltas-start_none bodies ps)
  where
    delta_starts_none : (b : SessionEventBody) → is_delta b ≡ true → starts_none b ≡ true
    delta_starts_none (turn_started e) p = absurd (ground arith)
    delta_starts_none b p = refl

drained-start_none :
    (output : OutputBuffer) (key : String) → AllPass starts_none (drain output key).1
unfolding drain
drained-start_none output key = elim (Option-cases (get key output.budgets)) [
  | inl nothing ↦ rw nothing tt
  | inr (budget, found) ↦ elim (Bool-cases (budget.dropped_events == 0)) [
    | inl quiet ↦ rw (found, quiet) tt
    | inr loud ↦ rw (found, loud) (refl, tt)
  ]
]

cut-start_none :
    (teardown : Teardown) (node : SubagentNode) → AllPass starts_none (cut_short teardown node)
cut-start_none teardown node = elim (Bool-cases (is_running node)) [
  | inl runs ↦ rw runs (refl, tt)
  | inr rests ↦ rw rests tt
]

subagents-start_none :
    (teardown : Teardown) (output : OutputBuffer) (nodes : List SubagentNode)
    → AllPass starts_none (ended_subagents teardown output nodes).1
unfolding drain
subagents-start_none teardown output [] = tt
subagents-start_none teardown output (node ∷ nodes) =
    elim (Bool-cases (is_own node && is_running_or_idle node)) [
      | inl ends ↦
          let drained = drain output (subagent_key node.subagent_id) in
          rw ends (
            AllPass-append starts_none (cut_short teardown node)
              (drained.1 ++ (ended_subagents teardown drained.0 nodes).1)
              (cut-start_none teardown node)
              (AllPass-append starts_none drained.1 (ended_subagents teardown drained.0 nodes).1
                (drained-start_none output (subagent_key node.subagent_id))
                (subagents-start_none teardown drained.0 nodes)))
      | inr stays ↦ rw stays (subagents-start_none teardown output nodes)
    ]

input-start_none :
    (teardown : Teardown) (input : InputRecord) → AllPass starts_none (ended_input teardown input)
input-start_none teardown input = ground arith

inputs-start_none :
    (teardown : Teardown) (inputs : List InputRecord)
    → AllPass starts_none (ended_inputs teardown inputs)
inputs-start_none teardown [] = tt
inputs-start_none teardown (input ∷ inputs) =
    AllPass-append starts_none (ended_input teardown input) (ended_inputs teardown inputs)
      (input-start_none teardown input) (inputs-start_none teardown inputs)

closed-start_none :
    (teardown : Teardown) (output : OutputBuffer) (turn : Option OpenTurn)
    → AllPass starts_none (closed_turn teardown output turn).1
unfolding drain
closed-start_none teardown output none = tt
closed-start_none teardown output (some turn) =
    AllPass-append starts_none (drain output (turn_key turn.turn_id)).1 _
      (drained-start_none output (turn_key turn.turn_id)) (refl, tt)

phase-start_none : (s : SessionSnapshot) → AllPass starts_none (ended_phase s)
phase-start_none s = elim (Bool-cases (not (same s.phase (next_phase s)) || is_some s.open_turn)) [
  | inl moves ↦ rw moves (refl, tt)
  | inr stays ↦ rw stays tt
]

settled-start_none : (s : SessionSnapshot) → AllPass starts_none (ended_settled s)
settled-start_none s =
    elim (Bool-cases (not (has_any (delegated_live s)) && not s.settled.settled)) [
      | inl settles ↦ rw settles (refl, tt)
      | inr stays ↦ rw stays tt
    ]

pub work-start_none :
    (teardown : Teardown) (live : Live) → AllPass starts_none (ended_work teardown live).1
work-start_none teardown live =
    let s = live.state in
    let turn = closed_turn teardown live.output s.open_turn in
    let nodes = ended_subagents teardown turn.0 (values s.subagents) in
    let inputs = ended_inputs teardown (values s.inputs) in
    AllPass-append starts_none turn.1 (nodes.1 ++ (inputs ++ (ended_phase s ++ ended_settled s)))
      (closed-start_none teardown live.output s.open_turn)
      (AllPass-append starts_none nodes.1 (inputs ++ (ended_phase s ++ ended_settled s))
        (subagents-start_none teardown turn.0 (values s.subagents))
        (AllPass-append starts_none inputs (ended_phase s ++ ended_settled s)
          (inputs-start_none teardown (values s.inputs))
          (AllPass-append starts_none (ended_phase s) (ended_settled s) (phase-start_none s)
            (settled-start_none s))))

pub turn-Among :
    (teardown : Teardown) (live : Live) (turn : OpenTurn)
    → live.state.open_turn ≡ some turn
    → (e : TurnCompleted) × Among (turn_completed e) (ended_work teardown live).1
unfolding drain
turn-Among teardown live turn h =
    rw h (_, Among-left _ (Among-right (drain live.output (turn_key turn.turn_id)).1 here))

pub phase-Among :
    (teardown : Teardown) (output : OutputBuffer) (k : String) (node : SubagentNode)
    (d : Dict SubagentNode)
    → get k d ≡ some node
    → node.subagent_id ≡ k
    → is_own node ≡ true
    → is_running node ≡ true
    → Among
        (subagent_phase k teardown.subagent_phase (some teardown.reason))
        (ended_subagents teardown output (values d)).1
unfolding get drain
phase-Among teardown output k node [] h key own running = absurd (ground arith)
phase-Among teardown output k node ((j, n) ∷ d) h key own running = elim (Bool-cases (str_eq j k)) [
  | inl e ↦
      let same_node : n ≡ node = ground arith in
      let ends : is_own node && is_running_or_idle node ≡ true = ground arith in
      rw same_node (rw (ends, running, key) here)
  | inr e ↦ elim (Bool-cases (is_own n && is_running_or_idle n)) [
    | inl ends ↦
        let drained = drain output (subagent_key n.subagent_id) in
        rw ends (
          Among-right (cut_short teardown n) (
            Among-right drained.1
              (phase-Among teardown drained.0 k node d (ground arith) key own running)))
    | inr stays ↦ rw stays (phase-Among teardown output k node d (ground arith) key own running)
  ]
]
