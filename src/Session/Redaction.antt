-- ===== src/Session/Redaction.antt =====
-- src/agent-runtime/session/domain/redaction.ts: what is redacted of an event and of a snapshot.
-- The redaction of a text (shared/secret-redaction.ts) and of a JSON value are parameters.
use mathlib.Core.Option.{map}
use specrails_core.Prelude.{String, [], ◌∷◌}
use specrails_core.Prelude.Dict.{Dict}
use specrails_core.Prelude.Json.{Json}
use specrails_core.Session.Events.{
  ToolActivity, SessionEventBody, SessionEvent, SessionEventEnvelope, session_closed,
  session_process, input_accepted, input_state, turn_output, turn_tool, turn_completed,
  subagent_started, subagent_phase, subagent_output, subagent_result, provider_diagnostic,
}
use specrails_core.Session.Snapshot.{OpenTurn, SubagentNode, SessionSnapshot}

module _ (redact : String → String) (redact_deep : Json → Json) where
  abbrev pub redact_tool : ToolActivity → ToolActivity
  redact_tool tool = record tool {
    input = map redact_deep tool.input;
    output = map redact tool.output;
  }

  unfoldable pub redact_body : SessionEventBody → SessionEventBody
  redact_body (input_accepted e) = input_accepted (record e { text = redact e.text })
  redact_body (turn_output id channel delta) = turn_output id channel (redact delta)
  redact_body (turn_tool id tool) = turn_tool id (redact_tool tool)
  redact_body (turn_completed e) =
      turn_completed (record e { text = redact e.text; error = map redact e.error })
  redact_body (subagent_started e) =
      subagent_started
        (record e { description = redact e.description; prompt = map redact e.prompt })
  redact_body (subagent_output id channel delta tool) =
      subagent_output id channel (map redact delta) (map redact_tool tool)
  redact_body (subagent_result id summary) = subagent_result id (redact summary)
  redact_body (subagent_phase id phase reason) = subagent_phase id phase (map redact reason)
  redact_body (input_state e) = input_state (record e { reason = map redact e.reason })
  redact_body (session_process e) = session_process (record e { reason = map redact e.reason })
  redact_body (session_closed reason) = session_closed (redact reason)
  redact_body (provider_diagnostic level code message) =
      provider_diagnostic level code (redact message)
  redact_body e = e

  unfoldable pub redact_event : SessionEvent → SessionEvent
  unfolding redact_body
  redact_event e = record e { body = redact_body e.body }

  abbrev pub redact_envelope : SessionEventEnvelope → SessionEventEnvelope
  redact_envelope envelope = record envelope { event = redact_event envelope.event }

  abbrev pub redact_node : SubagentNode → SubagentNode
  redact_node node = record node {
    description = redact node.description;
    reason = map redact node.reason;
    result_summary = map redact node.result_summary;
  }

  abbrev pub redact_nodes : Dict SubagentNode → Dict SubagentNode
  redact_nodes [] = []
  redact_nodes ((id, node) ∷ nodes) = (id, redact_node node) ∷ redact_nodes nodes

  abbrev pub redact_turn : OpenTurn → OpenTurn
  redact_turn turn = record turn { text = redact turn.text }

  abbrev pub redact_snapshot : SessionSnapshot → SessionSnapshot
  redact_snapshot s = record s {
    open_turn = map redact_turn s.open_turn;
    subagents = redact_nodes s.subagents;
    closed_reason = map redact s.closed_reason;
  }
