-- ===== src/Engine/Inbox.antt =====
-- src/agent-runtime/engine/steering/inbox.ts: the messages of the operator to a run. What an
-- operation reads of the clock, and the identifiers that it would draw, are arguments.
use Prim.Native.String.{◌++◌ as append}
use specrails_core.Prelude.Dict.{get, put}
use specrails_core.Prelude.Texts.{byte_length, text_length, codes, is_blank, json_string}
use specrails_core.Prelude.{
  ℕ, ◌+◌, ◌*◌, String, Bool, true, false, not, ◌&&◌, ◌||◌, Option, some, none, List, [], ◌∷◌,
  str_eq, leb, ltb, ◌==◌, length, keep, all, is_some, ok, err, ◌>>=◌, ◌>>◌, guard,
}
use specrails_core.Engine.Contracts.{EngineErrorCode, EngineRunStatus}
use specrails_core.Engine.Database.{
  RunRow, ControlKind, ControlPayload, ControlRow, RunDatabase, Transacted, EventPayload,
  transaction, get_run, append_run_event,
}

abbrev pub max_steering_characters : ℕ
max_steering_characters = 20000

abbrev pub max_steering_bytes : ℕ
max_steering_bytes = 80000

abbrev pub max_pending_steering : ℕ
max_pending_steering = 128

abbrev pub max_pending_steering_bytes : ℕ
max_pending_steering_bytes = 512 * 1024

-- `PAUSE_REASON.test(reason)`
abbrev pub is_small_letter : ℕ → Bool
is_small_letter c = leb 97 c && leb c 122

abbrev pub starts_small : List ℕ → Bool
starts_small [] = false
starts_small (c ∷ cs) =
    is_small_letter c
    && all (λ d. is_small_letter d || (leb 48 d && leb d 57) || d == 45) cs
    && leb (length cs) 63

abbrev pub is_pause_reason : String → Bool
is_pause_reason reason = starts_small (codes reason)

-- `canonicalJson(payload)`: the keys in their order.
abbrev pub encode : ControlPayload → String
encode ControlPayload.cancel_payload = "{}"
encode (ControlPayload.steer_payload text sender) =
    append "{\"sender\":"
      (append (json_string sender) (append ",\"text\":" (append (json_string text) "}")))
encode (ControlPayload.pause_payload reason) =
    append "{\"reason\":" (append (json_string reason) "}")

abbrev pub kind_of : ControlPayload → ControlKind
kind_of ControlPayload.cancel_payload = ControlKind.cancel
kind_of (ControlPayload.steer_payload text sender) = ControlKind.steer
kind_of (ControlPayload.pause_payload reason) = ControlKind.pause

abbrev pub same_kind : ControlKind → ControlKind → Bool
same_kind ControlKind.cancel ControlKind.cancel = true
same_kind ControlKind.steer ControlKind.steer = true
same_kind ControlKind.pause ControlKind.pause = true
same_kind _ _ = false

-- A row of the table with its key, `request_id`.
abbrev pub Control : Type 0
Control = String × ControlRow

-- `WHERE run_id=? AND kind=? AND consumed_at IS NULL`
abbrev pub is_pending : String → ControlKind → Control → Bool
is_pending run_id kind (request_id, row) =
    str_eq row.run_id run_id && same_kind row.kind kind && not (is_some row.consumed_at)

abbrev pub pending_bytes : List Control → ℕ
pending_bytes [] = 0
pending_bytes ((request_id, row) ∷ rows) = byte_length (encode row.payload) + pending_bytes rows

abbrev pub is_full : List Control → ControlPayload → Bool
is_full pending payload =
    leb max_pending_steering (length pending)
    || ltb max_pending_steering_bytes (pending_bytes pending + byte_length (encode payload))

abbrev pub is_terminal : RunRow → Bool
is_terminal run = run.is_complete || elim run.status [
  | EngineRunStatus.succeeded ↦ true
  | EngineRunStatus.cancelled ↦ true
  | _ ↦ false
]

abbrev pub event_of : ControlPayload → String → EventPayload
event_of ControlPayload.cancel_payload request_id = EventPayload.cancellation_requested request_id
event_of (ControlPayload.steer_payload text sender) request_id =
    EventPayload.steering_received request_id
event_of (ControlPayload.pause_payload reason) request_id =
    EventPayload.pause_requested request_id reason

-- The control of a request that was made before.
abbrev pub repeated : String → ControlPayload → RunDatabase → ControlRow → Transacted ControlRow
repeated run_id payload db existing =
    guard
      (str_eq existing.run_id run_id
        && same_kind existing.kind (kind_of payload)
        && str_eq (encode existing.payload) (encode payload))
      EngineErrorCode.control_conflict
    >> ok (existing, db)

abbrev pub new_control : String → ControlPayload → ℕ → RunRow → ControlRow
new_control run_id payload at run = record {
  run_id = run_id;
  kind = kind_of payload;
  payload = payload;
  created_at = at;
  received_sequence = run.next_event_sequence;
  consumed_by_attempt_id = none;
  consumed_at = none;
}

abbrev pub is_steering : ControlPayload → Bool
is_steering payload = same_kind (kind_of payload) ControlKind.steer

-- The row that is returned is the one that was put.
abbrev pub insert_control :
    String → ControlPayload → String → ℕ → RunDatabase → RunRow → Transacted ControlRow
insert_control run_id payload request_id at db run =
    guard (not (is_terminal run)) EngineErrorCode.run_terminal
    >> (guard
          (not (
            is_steering payload
            && is_full (keep (is_pending run_id ControlKind.steer) db.control_inbox) payload))
          EngineErrorCode.inbox_full
        >> (append_run_event
              (record db {
                control_inbox = put request_id (new_control run_id payload at run) db.control_inbox;
              })
              run_id (event_of payload request_id) at
            >>= λ next. ok (new_control run_id payload at run, next)))

abbrev pub append_found :
    String
    → ControlPayload
    → String
    → ℕ
    → RunDatabase
    → RunRow
    → Option ControlRow
    → Transacted ControlRow
append_found run_id payload request_id at db run none =
    insert_control run_id payload request_id at db run
append_found run_id payload request_id at db run (some existing) =
    repeated run_id payload db existing

abbrev pub append_for :
    String → ControlPayload → String → ℕ → RunDatabase → Option RunRow → Transacted ControlRow
append_for run_id payload request_id at db none = err EngineErrorCode.run_not_found
append_for run_id payload request_id at db (some run) =
    append_found run_id payload request_id at db run (get request_id db.control_inbox)

abbrev pub is_request_id : String → Bool
is_request_id request_id = not (str_eq request_id "") && leb (text_length request_id) 256

-- `appendControl`
unfoldable pub append_control :
    String → ControlPayload → String → ℕ → RunDatabase → Transacted ControlRow
append_control run_id payload request_id at db =
    guard (is_request_id request_id) EngineErrorCode.invalid_arguments
    >> transaction true
        (λ (d : RunDatabase). append_for run_id payload request_id at d (get_run d run_id)) db

abbrev pub sender_of : Option String → String
sender_of none = "operator"
sender_of (some sender) = sender

unfoldable pub append_steering :
    String → String → Option String → String → ℕ → RunDatabase → Transacted ControlRow
unfolding append_control
append_steering run_id text sender request_id at db =
    guard
      (not (is_blank text)
        && leb (text_length text) max_steering_characters
        && leb (byte_length text) max_steering_bytes)
      EngineErrorCode.invalid_arguments
    >> (guard (not (str_eq (sender_of sender) "") && leb (text_length (sender_of sender)) 128)
          EngineErrorCode.invalid_arguments
        >> append_control run_id (ControlPayload.steer_payload text (sender_of sender)) request_id
            at db)

unfoldable pub cancel_run : String → String → ℕ → RunDatabase → Transacted ControlRow
unfolding append_control
cancel_run run_id request_id at db =
    append_control run_id ControlPayload.cancel_payload request_id at db

unfoldable pub pause_run : String → String → String → ℕ → RunDatabase → Transacted ControlRow
unfolding append_control
pause_run run_id reason request_id at db =
    guard (is_pause_reason reason) EngineErrorCode.invalid_arguments
    >> append_control run_id (ControlPayload.pause_payload reason) request_id at db
