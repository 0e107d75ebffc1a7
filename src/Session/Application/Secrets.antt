-- ===== src/Session/Application/Secrets.antt =====
-- src/agent-runtime/session/journal/sqlite-journal.ts, `append` under `commit`: secrets stay out of the
-- journal. What the redaction of a text and of a JSON value promises is a hypothesis.
use mathlib.Core.Option.{map as option_map}
use specrails_core.Prelude.{◌≡◌, String, Bool, true, ◌&&◌, Option, none, some, all, map}
use specrails_core.Prelude.Dict.{Dict, values}
use specrails_core.Prelude.Json.{Json}
use specrails_core.Session.Events.{
  ToolActivity, SessionEventBody, SessionEventEnvelope, session_closed, session_process,
  input_accepted, input_state, turn_output, turn_tool, turn_completed, subagent_started,
  subagent_phase, subagent_output, subagent_result, provider_diagnostic,
}
use specrails_core.Session.Snapshot.{SessionSnapshot, SubagentNode, OpenTurn}
use specrails_core.Session.Application.Live.{Live}

abbrev opt {ℓ} : {A : Type ℓ} → (A → Bool) → Option A → Bool
opt test none = true
opt test (some a) = test a

-- The free texts and the tool data of events and snapshots, as docs/agent-sessions/journal.md lists
-- them, and the reason of a closing, pass a test.
module _ (clean : String → Bool) (clean_deep : Json → Bool) where
  abbrev pub is_clean_tool : ToolActivity → Bool
  is_clean_tool tool = opt clean_deep tool.input && opt clean tool.output

  abbrev pub is_clean_body : SessionEventBody → Bool
  is_clean_body (input_accepted e) = clean e.text
  is_clean_body (turn_output id channel delta) = clean delta
  is_clean_body (turn_completed e) = clean e.text && opt clean e.error
  is_clean_body (turn_tool id tool) = is_clean_tool tool
  is_clean_body (subagent_started e) = clean e.description && opt clean e.prompt
  is_clean_body (subagent_output id channel delta tool) = opt clean delta && opt is_clean_tool tool
  is_clean_body (subagent_result id summary) = clean summary
  is_clean_body (subagent_phase id phase reason) = opt clean reason
  is_clean_body (input_state e) = opt clean e.reason
  is_clean_body (session_process e) = opt clean e.reason
  is_clean_body (session_closed reason) = clean reason
  is_clean_body (provider_diagnostic level code message) = clean message
  is_clean_body _ = true

  abbrev pub is_clean_envelope : SessionEventEnvelope → Bool
  is_clean_envelope envelope = is_clean_body envelope.event.body

  abbrev pub is_clean_node : SubagentNode → Bool
  is_clean_node node =
      clean node.description && opt clean node.reason && opt clean node.result_summary

  abbrev pub is_clean_snapshot : SessionSnapshot → Bool
  is_clean_snapshot s =
      opt (λ (turn : OpenTurn). clean turn.text) s.open_turn
      && all is_clean_node (values s.subagents)
      && opt clean s.closed_reason

  -- The journal and the snapshot that is stored with it hold no text that fails the test.
  pub record IsClean (live : Live) : Type 0 where
    pub of_journal : all is_clean_envelope live.journal ≡ true
    pub of_stored : is_clean_snapshot live.stored ≡ true
