-- ===== src/Session/Application/Live.antt =====
-- src/agent-runtime/session/application/active-session.ts: the fields of ActiveSession, and
-- actions on them. An action that throws leaves what it changed before. Promises that the session
-- does not wait for are requests, in the order in which they are made.
use specrails_core.Prelude.{
  ℕ, suc, String, Bool, true, false, Option, none, some, List, [], ◌∷◌, ◌++◌,
}
use specrails_core.Prelude.Json.{Json}
use specrails_core.Prelude.Dict.{Dict}
use specrails_core.Session.Types.{
  SessionErrorCode, Attachment, DriverDescriptor, InputDelivery, SessionPolicy, SubagentPhase,
}
use specrails_core.Session.Events.{SessionChanges, SessionEventEnvelope, TurnEnd}
use specrails_core.Session.Snapshot.{SessionSnapshot}
use specrails_core.Session.Usage.{RateCard, UsageBaseline}
use specrails_core.Session.OutputBuffer.{OutputBuffer, OutputLimits}
use specrails_core.Session.Timers.{SessionTimers, TimerKind, cancel, arm, ensure}

pub data InputOrigin : Type 0 where
  user system : InputOrigin

pub record DriverInput : Type 0 where
  pub input_id : String
  pub text : String
  pub delivery : InputDelivery
  pub origin : InputOrigin
  pub attachments : Option (List Attachment)

pub record SessionConfig : Type 0 where
  pub cwd : String
  pub model : String
  pub effort : Option String
  pub system_prompt : Option String
  pub policy : SessionPolicy

-- How work that was running ends when the process goes away.
pub record Teardown : Type 0 where
  pub turn_status : TurnEnd
  pub subagent_phase : SubagentPhase
  pub reason : String
  pub error : Option String
  pub keep_input_ids : List String
  pub complete_started : Bool

pub record PendingInterrupt : Type 0 where
  pub turn_id : String
  pub inputs : List DriverInput

pub record DelegatedResult : Type 0 where
  pub description : String
  pub status : String
  pub result : String

-- What was streamed of the turn's text around its tool calls.
pub data TextSegment : Type 0 where
  nothing whole broken : TextSegment

-- A call whose promise the session does not wait for.
pub data Request : Type 0 where
  deliver : DriverInput → Request
  retire : String → Teardown → Request
  block_subagent : String → Request
  apply_changes : SessionChanges → Request

-- What an operation reads of the clock and of the identifiers, the host's settings, and the
-- redaction of a text and of a JSON value.
pub record Deps : Type 0 where
  pub now : ℕ
  pub iso : String
  pub turn_id : String
  pub input_id : String
  pub rate_card : String → String → Option RateCard
  pub output_limits : OutputLimits
  pub redact : String → String
  pub redact_deep : Json → Json

-- The fields of the session, and what the journal holds of it: the envelopes, the snapshot that
-- is stored with them, and the baselines.
pub record Live : Type 0 where
  pub state : SessionSnapshot
  pub journal : List SessionEventEnvelope
  pub stored : SessionSnapshot
  pub baselines : Dict UsageBaseline
  pub config : SessionConfig
  pub descriptor : DriverDescriptor
  pub has_driver : Bool
  pub is_opening : Bool
  pub generation : ℕ
  pub live_generation : Option ℕ
  pub closing : Bool
  pub baseline : UsageBaseline
  pub timers : SessionTimers
  pub next_handle : ℕ
  pub output : OutputBuffer
  pub held_inputs : List DriverInput
  pub interrupt_queue : List DriverInput
  pub pending_interrupt : Option PendingInterrupt
  pub system_input_ids : List String
  pub pending_deferred : Option SessionChanges
  pub roster : Option (List String)
  pub handoffs : ℕ
  pub tools_in_flight : List String
  pub text_segment : TextSegment
  pub finished_since_last_turn : List String
  pub delegated_results : Dict DelegatedResult
  pub last_user_turn_at : Option ℕ
  pub requests : List Request

-- The session after an action, and what the action threw.
pub record Ran : Type 0 where
  pub live : Live
  pub thrown : Option SessionErrorCode

abbrev pub Action : Type 0
Action = Live → Ran

unfoldable pub set : (Live → Live) → Action
set change live = record { live = change live; thrown = none }

unfoldable pub skip : Action
skip live = record { live = live; thrown = none }

unfoldable pub throw : SessionErrorCode → Action
throw code live = record { live = live; thrown = some code }

abbrev pub continue_with : Option SessionErrorCode → Live → Action → Ran
continue_with none live next = next live
continue_with (some code) live next = record { live = live; thrown = some code }

infixr 3 ◌⨾◌
unfoldable pub ◌⨾◌ : Action → Action → Action
first ⨾ next = λ live. let ran = first live in continue_with ran.thrown ran.live next

-- An action that reads the session first.
unfoldable pub look : (Live → Action) → Action
look action live = action live live

abbrev pub choose_on : Bool → Action → Action → Action
choose_on true yes_action no_action live = yes_action live
choose_on false yes_action no_action live = no_action live

unfoldable pub choose : (Live → Bool) → Action → Action → Action
choose test yes_action no_action live = choose_on (test live) yes_action no_action live

unfoldable pub when : (Live → Bool) → Action → Action
when test action = choose test action skip

unfoldable pub with_option {ℓ} : {A : Type ℓ} → Option A → Action → (A → Action) → Action
with_option none missing found live = missing live
with_option (some value) missing found live = found value live

unfoldable pub ask : Request → Action
ask r = set (λ live. record live { requests = live.requests ++ (r ∷ []) })

unfoldable pub cancel_timers : List TimerKind → Action
cancel_timers kinds = set (λ live. record live { timers = cancel live.timers kinds })

unfoldable pub arm_timer : TimerKind → Action
arm_timer kind = set (λ live. record live {
  timers = arm live.timers kind live.next_handle;
  next_handle = suc live.next_handle;
})

unfoldable pub ensure_timer : TimerKind → Action
ensure_timer kind = set (λ live. record live {
  timers = ensure live.timers kind live.next_handle;
  next_handle = suc live.next_handle;
})

-- A promise that the session does not wait for: what it throws is not seen.
unfoldable pub detached : Action → Action
detached action live = record { live = (action live).live; thrown = none }
