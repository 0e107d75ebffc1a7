-- ===== src/Session/Reducer/Erased.antt =====
-- Snapshots and events without their free texts, and what pruning and looking up make of them.
use mathlib.Core.Option.{map as option_map}
use specrails_core.Prelude.{
  ℕ, zero, suc, ◌-◌, ◌≡◌, refl, String, Bool, not, Option, none, some, List, [], ◌∷◌, take, length,
  keep, leb, ok, err, Bool-cases, Option-cases, inl, inr, map,
}
use specrails_core.Prelude.Dict.{Dict, get, includes, map_values, get-map_values}
use specrails_core.Prelude.Texts.{text_length}
use specrails_core.Prelude.Json.{Json}
use specrails_core.Session.Fingerprint.{fingerprint}
use specrails_core.Session.Types.{phase_eq, turn_eq, input_eq, subagent_eq}
use specrails_core.Session.Events.{SessionEventBody, TurnCompleted}
use specrails_core.Session.Snapshot.{
  InputRecord, OpenTurn, SubagentNode, SessionSnapshot, TurnRecord, Outcome, prune_inputs,
  terminal_inputs, input_ids_of, is_terminal_input, snapshot_terminal_inputs,
}
use specrails_core.Session.Reducer.{complete_one, complete_turns, has_parent}
use specrails_core.Session.Redaction.{redact_body}

-- Every free text is gone.
abbrev pub erased_text : String → String
erased_text text = ""

abbrev pub erased_json : Json → Json
erased_json json = Json.null

abbrev pub erase_body : SessionEventBody → SessionEventBody
erase_body e = redact_body erased_text erased_json e

abbrev pub erase_input : InputRecord → InputRecord
erase_input input = record input { text_length = text_length ""; fingerprint = fingerprint "" }

abbrev pub erase_node : SubagentNode → SubagentNode
erase_node node = record node {
  description = "";
  reason = option_map erased_text node.reason;
  result_summary = option_map erased_text node.result_summary;
}

abbrev pub erase_turn : OpenTurn → OpenTurn
erase_turn turn = record turn { text = "" }

-- A snapshot without its free texts, and without what is computed from the texts of the inputs.
abbrev pub erase : SessionSnapshot → SessionSnapshot
erase s = record s {
  open_turn = option_map erase_turn s.open_turn;
  inputs = map_values erase_input s.inputs;
  subagents = map_values erase_node s.subagents;
  closed_reason = option_map erased_text s.closed_reason;
}

abbrev pub erased : Outcome SessionSnapshot → Outcome SessionSnapshot
erased (ok s) = ok (erase s)
erased (err code) = err code

-- What pruning keeps it keeps without the texts.
pub terminal_inputs-erased :
    (d : Dict InputRecord)
    → terminal_inputs (map_values erase_input d) ≡ map erase_input (terminal_inputs d)
terminal_inputs-erased [] = refl
terminal_inputs-erased ((k, v) ∷ d) = elim (Bool-cases (is_terminal_input v.state)) [
  | inl over ↦ rw (over, terminal_inputs-erased d) refl
  | inr live ↦ rw (live, terminal_inputs-erased d) refl
]

pub length-erased : (inputs : List InputRecord) → length (map erase_input inputs) ≡ length inputs
length-erased [] = refl
length-erased (i ∷ inputs) = rw (length-erased inputs) refl

pub ids-erased :
    (n : ℕ) (inputs : List InputRecord)
    → input_ids_of (take n (map erase_input inputs)) ≡ input_ids_of (take n inputs)
ids-erased zero inputs = refl
ids-erased (suc n) [] = refl
ids-erased (suc n) (i ∷ inputs) = rw (ids-erased n inputs) refl

pub keep-erased :
    (p : String → Bool) (d : Dict InputRecord)
    → keep (λ entry. p entry.0) (map_values erase_input d)
      ≡ map_values erase_input (keep (λ entry. p entry.0) d)
keep-erased p [] = refl
keep-erased p ((k, v) ∷ d) = elim (Bool-cases (p k)) [
  | inl yes_p ↦ rw (yes_p, keep-erased p d) refl
  | inr no_p ↦ rw (no_p, keep-erased p d) refl
]

pub prune_inputs-erased :
    (d : Dict InputRecord)
    → prune_inputs (map_values erase_input d) ≡ map_values erase_input (prune_inputs d)
unfolding prune_inputs
prune_inputs-erased d =
    let terminal = terminal_inputs d in
    let dropped = input_ids_of (take (length terminal - snapshot_terminal_inputs) terminal) in
    rw
      (
        terminal_inputs-erased d,
        length-erased terminal,
        ids-erased (length terminal - snapshot_terminal_inputs) terminal,
        keep-erased (λ k. not (includes dropped k)) d,
      )
      (elim (Bool-cases (leb (length terminal) snapshot_terminal_inputs)) [
        | inl few ↦ rw few refl
        | inr many ↦ rw many refl
      ])

pub has_parent-erased :
    (s : SessionSnapshot) (parent : Option String)
    → has_parent (erase s) parent ≡ has_parent s parent
unfolding has_parent
has_parent-erased s none = refl
has_parent-erased s (some id) =
    rw (get-map_values erase_node id s.subagents) (elim (Option-cases (get id s.subagents)) [
      | inl gone ↦ rw gone refl
      | inr (node, found) ↦ rw found refl
    ])

pub complete_one-erased :
    (at text : String) (error : Option String) (e : TurnCompleted) (turn : TurnRecord)
    → complete_one at (record e { text = text; error = error }) turn ≡ complete_one at e turn
unfolding complete_one
complete_one-erased at text error e turn = refl

pub complete_turns-erased :
    (at text : String) (error : Option String) (e : TurnCompleted) (turns : List TurnRecord)
    → complete_turns at (record e { text = text; error = error }) turns ≡ complete_turns at e turns
unfolding complete_turns
complete_turns-erased at text error e [] = refl
complete_turns-erased at text error e (turn ∷ turns) =
    rw (complete_one-erased at text error e turn, complete_turns-erased at text error e turns) refl
