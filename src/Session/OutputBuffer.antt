-- ===== src/Session/OutputBuffer.antt =====
-- src/agent-runtime/session/application/output-buffer.ts: streamed text is merged until it is
-- flushed, and capped for each turn and each sub-agent.
pub mod Accounts
use Prim.Native.String.{◌++◌ as append}
use specrails_core.Prelude.{
  ℕ, ◌+◌, ◌-◌, ◌*◌, String, Bool, true, false, not, Option, none, some, List, [], ◌∷◌, ltb, leb,
  ◌==◌, if◌then◌else◌,
}
use specrails_core.Prelude.Dict.{Dict, get, put, remove, values}
use specrails_core.Prelude.Texts.{text_length}
use specrails_core.Session.Types.{OutputChannel}
use specrails_core.Session.Events.{
  OutputScope, SubagentChannel, SessionEventBody, turn_output, subagent_output, output_truncated,
}

pub record OutputLimits : Type 0 where
  pub flush_chars : ℕ
  pub turn_cap : ℕ
  pub subagent_cap : ℕ

abbrev pub default_output_limits : OutputLimits
default_output_limits = record {
  flush_chars = 4096;
  turn_cap = 4 * 1024 * 1024;
  subagent_cap = 1024 * 1024;
}

-- A delta of a turn, on a channel, or of a sub-agent.
pub data TextDelta : Type 0 where
  turn : String → OutputChannel → String → TextDelta
  subagent : String → String → TextDelta

pub record Budget : Type 0 where
  pub stored : ℕ
  pub dropped_events : ℕ
  pub dropped_bytes : ℕ
  pub scope : OutputScope

pub record OutputBuffer : Type 0 where
  pub pending : Dict TextDelta
  pub budgets : Dict Budget

abbrev pub empty_buffer : OutputBuffer
empty_buffer = record { pending = []; budgets = [] }

abbrev pub text_of : TextDelta → String
text_of (turn id channel text) = text
text_of (subagent id text) = text

abbrev pub with_text : TextDelta → String → TextDelta
with_text (turn id channel text) new = turn id channel new
with_text (subagent id text) new = subagent id new

abbrev pub scope_of : TextDelta → OutputScope
scope_of (turn id channel text) = OutputScope.turn id
scope_of (subagent id text) = OutputScope.subagent id

abbrev pub turn_key : String → String
turn_key id = append "turn:" id

abbrev pub subagent_key : String → String
subagent_key id = append "subagent:" id

abbrev pub budget_key : TextDelta → String
budget_key (turn id channel text) = turn_key id
budget_key (subagent id text) = subagent_key id

abbrev pub channel_name : TextDelta → String
channel_name (turn id OutputChannel.text text) = "text"
channel_name (turn id OutputChannel.thinking text) = "thinking"
channel_name (subagent id text) = "text"

abbrev pub pending_key : TextDelta → String
pending_key body = append (append (budget_key body) ":") (channel_name body)

abbrev pub cap_of : OutputLimits → OutputScope → ℕ
cap_of limits (OutputScope.turn id) = limits.turn_cap
cap_of limits (OutputScope.subagent id) = limits.subagent_cap

abbrev pub new_budget : OutputScope → Budget
new_budget scope = record { stored = 0; dropped_events = 0; dropped_bytes = 0; scope = scope }

-- The budget that a delta is charged to: the one that is there, or a new one.
abbrev pub current_budget : Option Budget → OutputScope → Budget
current_budget none scope = new_budget scope
current_budget (some budget) scope = budget

-- The text that waits under a key, with the delta's behind it.
abbrev pub merged : Option TextDelta → TextDelta → TextDelta
merged none body = body
merged (some existing) body = with_text existing (append (text_of existing) (text_of body))

abbrev pub body_of : TextDelta → SessionEventBody
body_of (turn id channel text) = turn_output id channel text
body_of (subagent id text) = subagent_output id SubagentChannel.text (some text) none

abbrev pub dropped_budget : Budget → ℕ → Budget
dropped_budget budget size = record budget {
  dropped_events = budget.dropped_events + 1;
  dropped_bytes = budget.dropped_bytes + size;
}

-- `add`: the buffer, and the deltas that must be committed now.
unfoldable pub add : OutputLimits → OutputBuffer → TextDelta → OutputBuffer × List TextDelta
add limits buffer body =
    let size = text_length (text_of body) in
    let budget = current_budget (get (budget_key body) buffer.budgets) (scope_of body) in
    let current = merged (get (pending_key body) buffer.pending) body in
    let stored =
      put (budget_key body) (record budget { stored = budget.stored + size }) buffer.budgets in
    if ltb (cap_of limits (scope_of body)) (budget.stored + size)
    then (
      record buffer { budgets = put (budget_key body) (dropped_budget budget size) buffer.budgets },
      [],
    )
    else if leb limits.flush_chars (text_length (text_of current))
    then (
      record { pending = remove (pending_key body) buffer.pending; budgets = stored },
      current ∷ [],
    )
    else (record { pending = put (pending_key body) current buffer.pending; budgets = stored }, [])

abbrev pub has_pending : OutputBuffer → Bool
has_pending buffer = elim buffer.pending [ [] ↦ false | _ ∷ _ ↦ true ]

-- `flush`: all that waits, in the order in which it was first buffered.
abbrev pub flush : OutputBuffer → OutputBuffer × List TextDelta
flush buffer = (record buffer { pending = [] }, values buffer.pending)

abbrev report : Option Budget → List SessionEventBody
report none = []
report (some budget) =
    if budget.dropped_events == 0
    then []
    else output_truncated budget.scope budget.dropped_events budget.dropped_bytes ∷ []

-- `drain`: forget the budget, and report what it refused.
unfoldable pub drain : OutputBuffer → String → OutputBuffer × List SessionEventBody
drain buffer key =
    (record buffer { budgets = remove key buffer.budgets }, report (get key buffer.budgets))

abbrev pub drain_turn : OutputBuffer → String → OutputBuffer × List SessionEventBody
unfolding drain
drain_turn buffer id = drain buffer (turn_key id)

abbrev pub drain_subagent : OutputBuffer → String → OutputBuffer × List SessionEventBody
unfolding drain
drain_subagent buffer id = drain buffer (subagent_key id)
