-- ===== src/Session/Drivers/Claude/Tasks.antt =====
-- src/agent-runtime/session/drivers/claude/translator.ts: the `system` frames, which carry turns
-- and sub-agents.
use Prim.Native.String.{◌++◌ as append}
use specrails_core.Prelude.{
  ℕ, String, true, ◌||◌, Option, none, some, List, [], ◌∷◌, ◌++◌, is_some, str_eq, same,
  if◌then◌else◌,
}
use specrails_core.Prelude.Dict.{includes, get, put}
use specrails_core.Prelude.Json.{
  Json, JsonFields, at_key, member, str, num, is_true, is_text, is_truthy, elements,
}
use specrails_core.Session.Types.{SubagentKind, SubagentPhase, subagent_eq}
use specrails_core.Session.Usage.{RawNumber, ReportedUsage}
use specrails_core.Session.Drivers.Events.{
  TurnTrigger, DriverEvent, provider_ref, turn_started, subagent_started, subagent_phase,
  subagent_usage, subagent_result, roster,
}
use specrails_core.Session.Drivers.Claude.State.{
  ClaudeTranslator, Translated, task_phase_of, ignored_system, same_ref, or_text, nonempty, unknown,
  raw,
}

-- `{ totalTokens }`
abbrev pub total_only : Option ℕ → ReportedUsage
total_only total = record {
  input_tokens = RawNumber.missing;
  output_tokens = RawNumber.missing;
  cache_read_tokens = RawNumber.missing;
  cache_write_tokens = RawNumber.missing;
  total_tokens = raw total;
  cost_usd = RawNumber.missing;
  model = none;
}

abbrev pub task_usage : String → Option Json → DriverEvent
task_usage id usage = subagent_usage (record {
  subagent_id = id;
  usage = total_only (num (member "total_tokens" usage));
  tool_uses = num (member "tool_uses" usage);
  duration_ms = num (member "duration_ms" usage);
})

-- The phase of a known task, when it is a new one.
unfoldable pub change_phase : ClaudeTranslator → String → String → Translated
change_phase t id status = elim (task_phase_of status) [
  | none ↦ (t, [])
  | some phase ↦ elim (get id t.task_phase) [
    | none ↦ (t, [])
    | some old ↦
        (if same old phase then (t, []) else (
          record t { task_phase = put id phase t.task_phase },
          subagent_phase id phase none ∷ [],
        ))
  ]
]

-- The provider's session, when it is a new one.
unfoldable pub take_ref : ClaudeTranslator → Option String → Translated
take_ref t none = (t, [])
take_ref t (some ref) =
    if str_eq ref "" || same_ref ref t.session_ref
    then (t, [])
    else (record t { session_ref = some ref }, provider_ref ref ∷ [])

abbrev pub trigger_of : List String → TurnTrigger
trigger_of [] = TurnTrigger.continuation
trigger_of (id ∷ ids) = TurnTrigger.input

-- The first `init` of a turn opens it with the inputs that were reported started.
unfoldable pub open_turn : ClaudeTranslator → Translated
open_turn t = if t.turn_open then (t, []) else (
  record t { turn_open = true; started_inputs = [] },
  turn_started (trigger_of t.started_inputs) t.started_inputs ∷ [],
)

unfoldable pub init : ClaudeTranslator → JsonFields → Translated
unfolding take_ref open_turn
init t frame =
    let named = take_ref t (str (at_key "session_id" frame)) in
    let opened = open_turn named.0 in (opened.0, named.1 ++ opened.1)

abbrev pub owner_of_tool : ClaudeTranslator → Option String → Option String
owner_of_tool t none = none
owner_of_tool t (some id) = elim (get id t.tool_owner) [ none ↦ none | some owner ↦ owner ]

abbrev pub link_task : ClaudeTranslator → Option String → String → ClaudeTranslator
link_task t none id = t
link_task t (some tool) id = record t { task_by_tool_use = put tool id t.task_by_tool_use }

unfoldable pub start_task : ClaudeTranslator → JsonFields → String → Translated
start_task t frame id =
    let tool = nonempty (str (at_key "tool_use_id" frame)) in
    let restarted = is_some (get id t.task_phase) in
    let is_shell = is_text "local_bash" (at_key "task_type" frame) in
    (
      record (link_task t tool id) { task_phase = put id SubagentPhase.running t.task_phase },
      subagent_started (record {
        subagent_id = id;
        parent_id = owner_of_tool t tool;
        agent_kind =
            if is_true (at_key "is_backgrounded" frame)
            then SubagentKind.background
            else SubagentKind.foreground;
        agent_type =
            some
              (if is_shell then "shell" else or_text (str (at_key "subagent_type" frame)) "agent");
        description =
            or_text (str (at_key "description" frame))
              (if is_shell then "Background command" else "Sub-agent");
        prompt = if restarted then none else nonempty (str (at_key "prompt" frame));
      })
          ∷ [],
    )

unfoldable pub task_started : ClaudeTranslator → JsonFields → Translated
unfolding start_task
task_started t frame = elim (nonempty (str (at_key "task_id" frame))) [
  | none ↦ (t, [])
  | some id ↦ start_task t frame id
]

-- The id of a task that is known.
abbrev pub known_task : ClaudeTranslator → Option String → Option String
known_task t none = none
known_task t (some id) = if is_some (get id t.task_phase) then some id else none

unfoldable pub task_progress : ClaudeTranslator → JsonFields → Translated
task_progress t frame = elim (known_task t (nonempty (str (at_key "task_id" frame)))) [
  | none ↦ (t, [])
  | some id ↦ (t, task_usage id (at_key "usage" frame) ∷ [])
]

unfoldable pub task_updated : ClaudeTranslator → JsonFields → Translated
unfolding change_phase
task_updated t frame = elim (nonempty (str (at_key "task_id" frame))) [
  | none ↦ (t, [])
  | some id ↦ elim (nonempty (str (member "status" (at_key "patch" frame)))) [
    | none ↦ (t, [])
    | some status ↦ change_phase t id status
  ]
]

abbrev pub notified_usage : String → Option Json → List DriverEvent
notified_usage id usage = if is_truthy usage then task_usage id usage ∷ [] else []

abbrev pub notified_result : String → Option String → Option String → List DriverEvent
notified_result id (some status) (some summary) =
    if str_eq status "completed" then subagent_result id summary ∷ [] else []
notified_result id _ _ = []

abbrev pub notified_phase : ClaudeTranslator → String → Option String → Translated
notified_phase t id none = (t, [])
notified_phase t id (some status) = change_phase t id status

-- What a notification of a known task says: its usage, its result, its phase.
unfoldable pub notified : ClaudeTranslator → JsonFields → String → Translated
notified t frame id =
    let status = nonempty (str (at_key "status" frame)) in
    let moved = notified_phase t id status in
    (
      moved.0,
      notified_usage id (at_key "usage" frame)
          ++ (notified_result id status (nonempty (str (at_key "summary" frame))) ++ moved.1),
    )

unfoldable pub task_notification : ClaudeTranslator → JsonFields → Translated
unfolding notified
task_notification t frame = elim (known_task t (nonempty (str (at_key "task_id" frame)))) [
  | none ↦ (t, [])
  | some id ↦ notified t frame id
]

abbrev pub with_id : Option String → List String → List String
with_id none ids = ids
with_id (some id) ids = id ∷ ids

-- The tasks that are not ambient and have an id.
abbrev pub live_ids : List Json → List String
live_ids [] = []
live_ids (task ∷ tasks) =
    let rest = live_ids tasks in
    if is_true (member "ambient" (some task))
    then rest
    else with_id (nonempty (str (member "task_id" (some task)))) rest

unfoldable pub tasks_changed : ClaudeTranslator → JsonFields → Translated
tasks_changed t frame = elim (elements (at_key "tasks" frame)) [
  | none ↦ (t, [])
  | some tasks ↦ (t, roster (live_ids tasks) ∷ [])
]

unfoldable pub system : ClaudeTranslator → JsonFields → Translated
unfolding init task_started task_progress task_updated task_notification tasks_changed unknown
system t frame =
    let subtype = or_text (str (at_key "subtype" frame)) "" in
    if str_eq subtype "init"
    then init t frame
    else if str_eq subtype "task_started"
    then task_started t frame
    else if str_eq subtype "task_progress"
    then task_progress t frame
    else if str_eq subtype "task_updated"
    then task_updated t frame
    else if str_eq subtype "task_notification"
    then task_notification t frame
    else if str_eq subtype "background_tasks_changed"
    then tasks_changed t frame
    else if includes ignored_system subtype
    then (t, [])
    else unknown t (append "system:" subtype)
