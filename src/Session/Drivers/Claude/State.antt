-- ===== src/Session/Drivers/Claude/State.antt =====
-- src/agent-runtime/session/drivers/claude/translator.ts: the translator's state and the helpers
-- of its methods. The new state and the events are a pair.
use Prim.Native.String.{◌++◌ as append}
use specrails_core.Prelude.{
  ℕ, String, Bool, true, false, not, ◌&&◌, Option, none, some, List, [], ◌∷◌, ◌++◌, str_eq,
  if◌then◌else◌,
}
use specrails_core.Prelude.Dict.{Dict, includes}
use specrails_core.Prelude.Json.{Json, member, is_text, elements, to_text}
use specrails_core.Session.Types.{SubagentPhase, subagent_eq}
use specrails_core.Session.Events.{DiagnosticLevel}
use specrails_core.Session.Usage.{RawNumber}
use specrails_core.Session.Snapshot.{add_unique}
use specrails_core.Session.Drivers.Events.{DriverEvent, diagnostic}

pub record ClaudeTranslator : Type 0 where
  pub session_ref : Option String
  pub turn_open : Bool
  pub interrupt_requested : Bool
  pub written : List String
  pub started : List String
  pub started_inputs : List String
  pub tool_owner : Dict (Option String)
  pub tool_name : Dict String
  pub task_by_tool_use : Dict String
  pub task_phase : Dict SubagentPhase
  pub reported_unknown : List String

abbrev pub new_translator : ClaudeTranslator
new_translator = record {
  session_ref = none;
  turn_open = false;
  interrupt_requested = false;
  written = [];
  started = [];
  started_inputs = [];
  tool_owner = [];
  tool_name = [];
  task_by_tool_use = [];
  task_phase = [];
  reported_unknown = [];
}

abbrev pub Translated : Type 0
Translated = ClaudeTranslator × List DriverEvent

abbrev pub note_input : ClaudeTranslator → String → ClaudeTranslator
note_input t id = record t { written = add_unique t.written id }

abbrev pub note_interrupt : ClaudeTranslator → ClaudeTranslator
note_interrupt t = if t.turn_open then record t { interrupt_requested = true } else t

abbrev pub interruptible : ClaudeTranslator → Bool
interruptible t = t.turn_open && not t.interrupt_requested

abbrev pub task_phase_of : String → Option SubagentPhase
task_phase_of status =
    if str_eq status "completed"
    then some SubagentPhase.idle
    else if str_eq status "failed"
    then some SubagentPhase.failed
    else if str_eq status "stopped"
    then some SubagentPhase.stopped
    else if str_eq status "killed"
    then some SubagentPhase.killed
    else none

abbrev pub ignored_system : List String
ignored_system =
    "thinking_tokens" ∷ "task_summary" ∷ "post_turn_summary" ∷ "status" ∷ "hook_response"
    ∷ "hook_started" ∷ "compact_boundary" ∷ []

abbrev pub ignored_types : List String
ignored_types = "rate_limit_event" ∷ "stream_event" ∷ "keep_alive" ∷ "control_response" ∷ []

abbrev pub same_ref : String → Option String → Bool
same_ref ref none = false
same_ref ref (some old) = str_eq ref old

abbrev pub or_text : Option String → String → String
or_text none d = d
or_text (some s) d = s

-- `a || b` on texts that may be absent.
abbrev pub or_nonempty : Option String → String → String
or_nonempty none d = d
or_nonempty (some s) d = if str_eq s "" then d else s

-- A text that is there and not empty.
abbrev pub nonempty : Option String → Option String
nonempty none = none
nonempty (some s) = if str_eq s "" then none else some s

abbrev pub part_text : Json → String
part_text part =
    if is_text "text" (member "type" (some part))
    then elim (member "text" (some part)) [
      | none ↦ ""
      | some Json.null ↦ ""
      | some value ↦ to_text value
    ]
    else ""

abbrev pub parts_text : List Json → String
parts_text [] = ""
parts_text (part ∷ parts) = append (part_text part) (parts_text parts)

unfoldable pub text_of : Option Json → String
text_of (some (Json.text s)) = s
text_of content = elim (elements content) [ none ↦ "" | some parts ↦ parts_text parts ]

-- A code that was not reported before is, once.
unfoldable pub unknown : ClaudeTranslator → String → Translated
unknown t code = if includes t.reported_unknown code then (t, []) else (
  record t { reported_unknown = t.reported_unknown ++ (code ∷ []) },
  diagnostic DiagnosticLevel.info "provider.unknown"
        (append (append "Unrecognised Claude frame (" code) ")")
      ∷ [],
)

abbrev pub raw : Option ℕ → RawNumber
raw none = RawNumber.missing
raw (some n) = RawNumber.amount n
