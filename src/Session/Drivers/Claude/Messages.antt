-- ===== src/Session/Drivers/Claude/Messages.antt =====
-- src/agent-runtime/session/drivers/claude/translator.ts: receipts and messages. A block that is
-- null is read as one without a type, where the source throws.
use specrails_core.Prelude.{
  String, Bool, true, false, not, ◌&&◌, ◌||◌, Option, none, some, List, [], ◌∷◌, ◌++◌, keep, str_eq,
  if◌then◌else◌,
}
use specrails_core.Prelude.Dict.{includes, get, put}
use specrails_core.Prelude.Json.{Json, JsonFields, at_key, member, str, is_true, is_text, elements}
use specrails_core.Prelude.Texts.{slice}
use specrails_core.Session.Types.{OutputChannel, subagent_eq}
use specrails_core.Session.Events.{ToolActivity, ToolPhase}
use specrails_core.Session.Snapshot.{add_unique}
use specrails_core.Session.Drivers.Events.{
  ReceiptState, SubagentText, DriverEvent, input_receipt, turn_output, turn_tool, subagent_output,
}
use specrails_core.Session.Drivers.Claude.State.{
  ClaudeTranslator, Translated, or_text, nonempty, text_of, unknown,
}

abbrev pub is_started : Option String → Bool
is_started none = false
is_started (some state) = str_eq state "started"

abbrev pub drop_id : String → List String → List String
drop_id id ids = keep (λ x. not (str_eq x id)) ids

-- What a receipt changes before its event is chosen.
abbrev pub noted : ClaudeTranslator → String → String → ClaudeTranslator
noted t id state =
    if str_eq state "started"
    then record t {
      started = add_unique t.started id;
      started_inputs = if t.turn_open then t.started_inputs else t.started_inputs ++ (id ∷ []);
    }
    else if str_eq state "completed"
    then record t { started = drop_id id t.started }
    else t

abbrev pub receipt_events : List String → String → String → List DriverEvent
receipt_events started id state =
    if str_eq state "cancelled" && includes started id
    then []
    else if str_eq state "queued"
    then input_receipt id ReceiptState.queued none ∷ []
    else if str_eq state "started"
    then input_receipt id ReceiptState.started none ∷ []
    else if str_eq state "completed"
    then input_receipt id ReceiptState.completed none ∷ []
    else if str_eq state "failed" || str_eq state "rejected" || str_eq state "cancelled"
    then input_receipt id ReceiptState.rejected (some state) ∷ []
    else []

unfoldable pub receipt : ClaudeTranslator → String → Option String → Translated
receipt t id none = (t, [])
receipt t id (some state) =
    let next = noted t id state in (next, receipt_events next.started id state)

unfoldable pub lifecycle : ClaudeTranslator → JsonFields → Translated
unfolding receipt
lifecycle t frame = elim (nonempty (str (at_key "command_uuid" frame))) [
  | none ↦ (t, [])
  | some id ↦ (if includes t.written id then receipt t id (str (at_key "state" frame)) else (t, []))
]

-- `none` is an agent that is not known, `some none` the main one.
abbrev pub owner_of : ClaudeTranslator → JsonFields → Option (Option String)
owner_of t frame = elim (nonempty (str (at_key "parent_tool_use_id" frame))) [
  | none ↦ some none
  | some parent ↦ elim (get parent t.task_by_tool_use) [ none ↦ none | some id ↦ some (some id) ]
]

abbrev pub text_event : Option String → String → DriverEvent
text_event none delta = turn_output OutputChannel.text delta
text_event (some id) delta = subagent_output id (SubagentText.text delta)

abbrev pub thinking_events : Option String → String → List DriverEvent
thinking_events none delta = turn_output OutputChannel.thinking delta ∷ []
thinking_events (some id) delta = []

abbrev pub tool_event : Option String → ToolActivity → DriverEvent
tool_event none tool = turn_tool tool
tool_event (some id) tool = subagent_output id (SubagentText.tool tool)

abbrev pub tool_used : ClaudeTranslator → Option String → Json → String → Translated
tool_used t owner block id =
    let name = or_text (str (member "name" (some block))) "tool" in
    (
      record t { tool_owner = put id owner t.tool_owner; tool_name = put id name t.tool_name },
      tool_event owner (record {
        tool_use_id = id;
        name = name;
        phase = ToolPhase.started;
        input = member "input" (some block);
        output = none;
        is_error = none;
      })
          ∷ [],
    )

-- One block of an assistant's message.
unfoldable pub assistant_block : ClaudeTranslator → Option String → Json → Translated
assistant_block t owner block =
    let type = member "type" (some block) in
    if is_text "text" type
    then elim (nonempty (str (member "text" (some block)))) [
      | none ↦ (t, [])
      | some delta ↦ (t, text_event owner delta ∷ [])
    ]
    else if is_text "thinking" type
    then elim (nonempty (str (member "thinking" (some block)))) [
      | none ↦ (t, [])
      | some delta ↦ (t, thinking_events owner delta)
    ]
    else if is_text "tool_use" type
    then elim (nonempty (str (member "id" (some block)))) [
      | none ↦ (t, [])
      | some id ↦ tool_used t owner block id
    ]
    else (t, [])

unfoldable pub assistant_blocks : ClaudeTranslator → Option String → List Json → Translated
unfolding assistant_block
assistant_blocks t owner [] = (t, [])
assistant_blocks t owner (block ∷ blocks) =
    let first = assistant_block t owner block in
    let rest = assistant_blocks first.0 owner blocks in (rest.0, first.1 ++ rest.1)

abbrev pub content_of : JsonFields → Option (List Json)
content_of frame = elements (member "content" (at_key "message" frame))

unfoldable pub assistant : ClaudeTranslator → JsonFields → Translated
unfolding assistant_blocks unknown
assistant t frame = elim (owner_of t frame) [
  | none ↦ unknown t "assistant:unattributed-parent"
  | some owner ↦ elim (content_of frame) [
    | none ↦ (t, [])
    | some blocks ↦ assistant_blocks t owner blocks
  ]
]

abbrev pub or_main : Option (Option String) → Option String
or_main none = none
or_main (some owner) = owner

-- The agent that issued the call, or the one whose message brings the result.
abbrev pub issuer_of : ClaudeTranslator → Option (Option String) → String → Option String
issuer_of t owner id = elim (get id t.tool_owner) [ none ↦ or_main owner | some issuer ↦ issuer ]

abbrev pub tool_result : ClaudeTranslator → Option (Option String) → Json → String → DriverEvent
tool_result t owner block id = tool_event (issuer_of t owner id) (record {
  tool_use_id = id;
  name = or_text (get id t.tool_name) "tool";
  phase = ToolPhase.completed;
  input = none;
  output = some (slice 16384 (text_of (member "content" (some block))));
  is_error = if is_true (member "is_error" (some block)) then some true else none;
})

unfoldable pub user_block : ClaudeTranslator → Option (Option String) → Json → List DriverEvent
user_block t owner block =
    if is_text "tool_result" (member "type" (some block))
    then elim (nonempty (str (member "tool_use_id" (some block)))) [
      | none ↦ []
      | some id ↦ tool_result t owner block id ∷ []
    ]
    else []

unfoldable pub user_blocks :
    ClaudeTranslator → Option (Option String) → List Json → List DriverEvent
unfolding user_block
user_blocks t owner [] = []
user_blocks t owner (block ∷ blocks) = user_block t owner block ++ user_blocks t owner blocks

abbrev pub is_replay : ClaudeTranslator → Option String → Bool
is_replay t none = false
is_replay t (some uuid) = includes t.written uuid

unfoldable pub user : ClaudeTranslator → JsonFields → Translated
unfolding user_blocks
user t frame =
    if is_replay t (nonempty (str (at_key "uuid" frame)))
    then (t, [])
    else elim (content_of frame) [
      | none ↦ (t, [])
      | some blocks ↦ (t, user_blocks t (owner_of t frame) blocks)
    ]
