-- ===== src/Session/Interruption.antt =====
-- src/agent-runtime/session/domain/interruption.ts: the notice before the next input, of what did
-- not finish.
use Prim.Native.String.{◌++◌ as append}
use specrails_core.Prelude.{
  String, Option, none, some, List, [], ◌∷◌, ◌++◌, length, ◌==◌, str_eq, same, if◌then◌else◌,
}
use specrails_core.Prelude.Dict.{Dict, get}
use specrails_core.Prelude.Json.{show_number}
use specrails_core.Session.Types.{SubagentKind, SubagentPhase, subagent_eq}
use specrails_core.Session.Snapshot.{SessionSnapshot, SubagentNode}

pub record InterruptionNotice : Type 0 where
  pub text : String
  pub subagent_ids : List String
  pub input_ids : List String

-- `REASONS`
abbrev pub reasons : Dict String
reasons =
    ("user_stop", "stopped by the user")
    ∷ ("user_interrupt", "interrupted by a newer user message")
    ∷ ("host_request", "stopped by the host")
    ∷ ("restart", "interrupted by an application restart")
    ∷ ("shutdown", "interrupted when the application closed")
    ∷ ("host_lost", "interrupted when the session host was lost")
    ∷ ("crashed", "interrupted when the provider process exited unexpectedly")
    ∷ ("stalled", "interrupted after no progress")
    ∷ ("limit", "stopped after reaching its time limit")
    ∷ ("project_removed", "interrupted because its project was removed")
    ∷ []

abbrev pub default_reason : SubagentPhase → String
default_reason phase = if same phase SubagentPhase.interrupted then "interrupted" else "stopped"

-- An empty reason is shown as it is.
abbrev pub describe_reason : SubagentPhase → Option String → String
describe_reason phase none = default_reason phase
describe_reason phase (some reason) =
    if str_eq reason ""
    then ""
    else elim (get reason reasons) [ none ↦ default_reason phase | some text ↦ text ]

abbrev pub kind_name : SubagentKind → String
kind_name SubagentKind.foreground = "foreground"
kind_name SubagentKind.background = "background"

abbrev pub type_name : SubagentNode → String
type_name node = elim node.agent_type [ none ↦ kind_name node.kind | some type ↦ type ]

abbrev pub concat_text : List String → String
concat_text [] = ""
concat_text (s ∷ ss) = append s (concat_text ss)

abbrev pub node_line : SubagentNode → String
node_line node = concat_text (
    "- \""
    ∷ node.description
    ∷ "\" ("
    ∷ type_name node
    ∷ ") — "
    ∷ describe_reason node.phase node.reason
    ∷ "."
    ∷ [])

abbrev pub node_lines : Option SubagentNode → List String
node_lines none = []
node_lines (some node) = node_line node ∷ []

pub subagent_lines : SessionSnapshot → List String → List String
subagent_lines s [] = []
subagent_lines s (id ∷ ids) = node_lines (get id s.subagents) ++ subagent_lines s ids

abbrev pub subagent_part : SessionSnapshot → List String → List String
subagent_part s [] = []
subagent_part s (id ∷ ids) =
    ("These sub-agents did not finish:" ∷ subagent_lines s (id ∷ ids))
    ++ ("Do not relaunch or resume them unless the user explicitly asks. If their results matter for the next step, say so and ask."
        ∷ [])

abbrev pub input_part : List String → List String
input_part [] = []
input_part (id ∷ ids) =
    append
      (if length (id ∷ ids) == 1
        then "One earlier user message"
        else append (show_number (length (id ∷ ids))) " earlier user messages")
      " may not have reached you before the interruption; the user can resend if needed."
    ∷ []

abbrev pub join_lines : List String → String
join_lines [] = ""
join_lines (line ∷ []) = line
join_lines (line ∷ lines) = append line (append "\n" (join_lines lines))

abbrev pub notice : SessionSnapshot → List String → List String → InterruptionNotice
notice s subagents inputs = record {
  text =
      join_lines ("[Specrails session notice]" ∷ (subagent_part s subagents ++ input_part inputs));
  subagent_ids = subagents;
  input_ids = inputs;
}

abbrev pub notice_of : SessionSnapshot → List String → List String → Option InterruptionNotice
notice_of s [] [] = none
notice_of s subagents inputs = some (notice s subagents inputs)

unfoldable pub build_interruption_notice : SessionSnapshot → Option InterruptionNotice
unfolding subagent_lines
build_interruption_notice s =
    notice_of s s.pending_interruptions.subagent_ids s.pending_interruptions.input_ids
