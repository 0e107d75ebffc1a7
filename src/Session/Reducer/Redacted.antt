-- ===== src/Session/Reducer/Redacted.antt =====
-- src/agent-runtime/session/domain/redaction.ts: a journal without its secrets is folded as the one
-- with them.
use mathlib.Core.Option.{map as option_map}
use specrails_core.Prelude.{◌≡◌, refl, sym, ap, ◌∙◌, String, Option, none, some, List, [], ◌∷◌, map}
use specrails_core.Prelude.Dict.{Dict, map_values}
use specrails_core.Prelude.Json.{Json}
use specrails_core.Session.Events.{
  ToolActivity, SessionEventBody, SessionEventEnvelope, session_closed, session_process,
  input_accepted, input_state, turn_output, turn_tool, turn_completed, subagent_started,
  subagent_phase, subagent_output, subagent_result, provider_diagnostic,
}
use specrails_core.Session.Snapshot.{SessionSnapshot, SubagentNode, OpenTurn}
use specrails_core.Session.Reducer.{fold_events}
use specrails_core.Session.Redaction.{
  redact_body, redact_event, redact_tool, redact_envelope, redact_nodes, redact_turn,
  redact_snapshot,
}
use specrails_core.Session.Reducer.Erased.{
  erase, erased, erase_body, erase_node, erase_turn, erased_text, erased_json,
}
use specrails_core.Session.Reducer.ErasedFold.{erase_envelope, fold_events-erased}

text-twice :
    (f : String → String) (o : Option String)
    → option_map erased_text (option_map f o) ≡ option_map erased_text o
text-twice f none = refl
text-twice f (some a) = refl

json-twice :
    (f : Json → Json) (o : Option Json)
    → option_map erased_json (option_map f o) ≡ option_map erased_json o
json-twice f none = refl
json-twice f (some a) = refl

module _ (redact : String → String) (redact_deep : Json → Json) where
  tool-twice :
      (tool : ToolActivity)
      → redact_tool erased_text erased_json (redact_tool redact redact_deep tool)
        ≡ redact_tool erased_text erased_json tool
  tool-twice tool = rw (json-twice redact_deep tool.input, text-twice redact tool.output) refl

  tools-twice :
      (o : Option ToolActivity)
      → option_map
          (redact_tool erased_text erased_json)
          (option_map (redact_tool redact redact_deep) o)
        ≡ option_map (redact_tool erased_text erased_json) o
  tools-twice none = refl
  tools-twice (some tool) = ap some (tool-twice tool)

  body-twice : (e : SessionEventBody) → erase_body (redact_body redact redact_deep e) ≡ erase_body e
  unfolding redact_body
  body-twice (turn_tool id tool) = ap (λ t. turn_tool id t) (tool-twice tool)
  body-twice (turn_completed e) = rw (text-twice redact e.error) refl
  body-twice (subagent_started e) = rw (text-twice redact e.prompt) refl
  body-twice (subagent_output id channel delta tool) =
      rw (text-twice redact delta, tools-twice tool) refl
  body-twice (subagent_phase id phase reason) = rw (text-twice redact reason) refl
  body-twice (input_state e) = rw (text-twice redact e.reason) refl
  body-twice (session_process e) = rw (text-twice redact e.reason) refl
  body-twice (input_accepted e) = refl
  body-twice (turn_output id channel delta) = refl
  body-twice (subagent_result id summary) = refl
  body-twice (session_closed reason) = refl
  body-twice (provider_diagnostic level code message) = refl
  body-twice e = refl

  envelopes-twice :
      (xs : List SessionEventEnvelope)
      → map erase_envelope (map (redact_envelope redact redact_deep) xs) ≡ map erase_envelope xs
  unfolding redact_event
  envelopes-twice [] = refl
  envelopes-twice (x ∷ xs) = rw (body-twice x.event.body, envelopes-twice xs) refl

  nodes-twice :
      (d : Dict SubagentNode)
      → map_values erase_node (redact_nodes redact redact_deep d) ≡ map_values erase_node d
  nodes-twice [] = refl
  nodes-twice ((id, node) ∷ d) =
      rw (text-twice redact node.reason, text-twice redact node.result_summary, nodes-twice d) refl

  turn-twice :
      (o : Option OpenTurn)
      → option_map erase_turn (option_map (redact_turn redact redact_deep) o)
        ≡ option_map erase_turn o
  turn-twice none = refl
  turn-twice (some turn) = refl

  -- Redaction changes nothing but texts.
  pub erase-redact_snapshot :
      (s : SessionSnapshot) → erase (redact_snapshot redact redact_deep s) ≡ erase s
  erase-redact_snapshot s =
      rw (nodes-twice s.subagents, turn-twice s.open_turn, text-twice redact s.closed_reason) refl

  -- Folding the redacted copy of a journal, on a snapshot that differs in free texts only, ends as
  -- folding the journal does: both are refused with the same code, or both are accepted, and then
  -- the snapshots differ in free texts only, and in the lengths and fingerprints of inputs' texts.
  pub redacted_journal-fold :
      (s t : SessionSnapshot) (xs : List SessionEventEnvelope)
      → erase s ≡ erase t
      → erased (fold_events s (map (redact_envelope redact redact_deep) xs))
        ≡ erased (fold_events t xs)
  redacted_journal-fold s t xs h =
      sym (fold_events-erased s (map (redact_envelope redact redact_deep) xs))
      ∙ ap (λ ys. fold_events (erase s) ys) (envelopes-twice xs)
      ∙ ap (λ u. fold_events u (map erase_envelope xs)) h
      ∙ fold_events-erased t xs
