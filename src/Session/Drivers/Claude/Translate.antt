-- ===== src/Session/Drivers/Claude/Translate.antt =====
-- src/agent-runtime/session/drivers/claude/translator.ts: the end of a turn, and `translate`.
use Prim.Native.String.{◌++◌ as append}
use specrails_core.Prelude.{
  String, Bool, false, not, ◌&&◌, ◌||◌, Option, none, some, List, [], ◌∷◌, ◌++◌, str_eq,
  if◌then◌else◌,
}
use specrails_core.Prelude.Dict.{includes}
use specrails_core.Prelude.Json.{
  Json, JsonFields, at_key, member, str, num, is_true, is_text, first_key,
}
use specrails_core.Session.Types.{subagent_eq}
use specrails_core.Session.Usage.{RawNumber, ReportedUsage}
use specrails_core.Session.Drivers.Events.{DriverTurnStatus, DriverEvent, turn_completed}
use specrails_core.Session.Drivers.Claude.State.{
  ClaudeTranslator, Translated, ignored_types, or_text, or_nonempty, unknown, raw,
}
use specrails_core.Session.Drivers.Claude.Tasks.{system}
use specrails_core.Session.Drivers.Claude.Messages.{lifecycle, assistant, user}

abbrev pub not_success : Option String → Bool
not_success none = false
not_success (some subtype) = not (str_eq subtype "success")

abbrev pub model_of : Option Json → Option String
model_of none = none
model_of (some value) = first_key value

abbrev pub turn_usage : JsonFields → ReportedUsage
turn_usage frame =
    let usage = at_key "usage" frame in
    record {
      input_tokens = raw (num (member "input_tokens" usage));
      output_tokens = raw (num (member "output_tokens" usage));
      cache_read_tokens = raw (num (member "cache_read_input_tokens" usage));
      cache_write_tokens = raw (num (member "cache_creation_input_tokens" usage));
      total_tokens = RawNumber.missing;
      cost_usd = raw (num (at_key "total_cost_usd" frame));
      model = model_of (at_key "modelUsage" frame);
    }

abbrev pub ended_turn : Bool → JsonFields → DriverEvent
ended_turn interrupted frame =
    let text = or_text (str (at_key "result" frame)) "" in
    let subtype = str (at_key "subtype" frame) in
    let failed = is_true (at_key "is_error" frame) || not_success subtype in
    turn_completed (record {
      status =
          if interrupted
          then DriverTurnStatus.stopped
          else if failed
          then DriverTurnStatus.failed
          else DriverTurnStatus.completed;
      text = text;
      error =
          if failed && not interrupted
          then some (or_nonempty (some text) (or_nonempty subtype "Provider reported an error"))
          else none;
      usage = turn_usage frame;
    })

-- The end of a turn; without one, an orphan notification says nothing.
unfoldable pub end_turn : ClaudeTranslator → JsonFields → Translated
unfolding unknown
end_turn t frame =
    if t.turn_open
    then (
      record t { turn_open = false; interrupt_requested = false },
      ended_turn t.interrupt_requested frame ∷ [],
    )
    else if is_text "task-notification" (member "kind" (at_key "origin" frame))
    then (t, [])
    else unknown t "result:without-turn"

abbrev pub translate_type : ClaudeTranslator → JsonFields → String → Translated
translate_type t frame type =
    if str_eq type "system"
    then system t frame
    else if str_eq type "command_lifecycle"
    then lifecycle t frame
    else if str_eq type "assistant"
    then assistant t frame
    else if str_eq type "user"
    then user t frame
    else if str_eq type "result"
    then end_turn t frame
    else if includes ignored_types type
    then (t, [])
    else unknown t (append "type:" type)

unfoldable pub translate : ClaudeTranslator → JsonFields → Translated
unfolding system lifecycle assistant user end_turn unknown
translate t frame = elim (str (at_key "type" frame)) [
  | none ↦ unknown t "type:<missing>"
  | some type ↦ translate_type t frame type
]

-- The frames of a process, one after the other.
unfoldable pub translate_all : ClaudeTranslator → List JsonFields → Translated
unfolding translate
translate_all t [] = (t, [])
translate_all t (frame ∷ frames) =
    let first = translate t frame in
    let rest = translate_all first.0 frames in (rest.0, first.1 ++ rest.1)
