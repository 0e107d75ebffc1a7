-- ===== src/Engine/Consumption.antt =====
-- src/agent-runtime/engine/steering/inbox.ts: reading the inbox, and consuming what stands in it.
use specrails_core.Prelude.Dict.{Dict, get}
use specrails_core.Prelude.Texts.{text_length, slice}
use specrails_core.Prelude.{
  ℕ, ◌-◌, ◌==◌, String, Bool, true, false, not, ◌&&◌, Option, some, none, List, [], ◌∷◌, ◌++◌,
  str_eq, leb, length, keep, any, take, is_some, ok, ◌>>◌, guard, if◌then◌else◌,
}
use specrails_core.Engine.Contracts.{EngineErrorCode, ExecutionLease}
use specrails_core.Engine.Database.{
  ControlKind, ControlPayload, ControlRow, AttemptRow, RunDatabase, Transacted, transaction,
}
use specrails_core.Engine.Lease.{assert}
use specrails_core.Engine.Inbox.{Control, is_pending, same_kind}

pub record SteeringMessage : Type 0 where
  pub id : String
  pub text : String
  pub sender : String
  pub created_at : ℕ
  pub consumed_by_attempt_id : Option String
  pub consumed_at : Option ℕ

-- `ORDER BY received_sequence`: a row is put before the first later one. No two rows have the
-- same sequence, so the second key of the order decides nothing.
abbrev pub insert_by_sequence : Control → List Control → List Control
insert_by_sequence entry [] = entry ∷ []
insert_by_sequence entry (next ∷ rows) =
    let rest = insert_by_sequence entry rows in
    if leb entry.1.received_sequence next.1.received_sequence
    then entry ∷ next ∷ rows
    else next ∷ rest

abbrev pub by_sequence : List Control → List Control
by_sequence [] = []
by_sequence (entry ∷ rows) = insert_by_sequence entry (by_sequence rows)

-- `rows.map(project)` on rows of steering; no other row is projected.
abbrev pub project : List Control → List SteeringMessage
project [] = []
project ((request_id, row) ∷ rows) = elim row.payload [
  | ControlPayload.steer_payload text sender ↦
      record {
        id = request_id;
        text = text;
        sender = sender;
        created_at = row.created_at;
        consumed_by_attempt_id = row.consumed_by_attempt_id;
        consumed_at = row.consumed_at;
      }
      ∷ project rows
  | _ ↦ project rows
]

abbrev pub waiting_controls : String → ControlKind → RunDatabase → List Control
waiting_controls run_id kind db = by_sequence (keep (is_pending run_id kind) db.control_inbox)

abbrev pub pending : String → RunDatabase → List SteeringMessage
pending run_id db = project (waiting_controls run_id ControlKind.steer db)

abbrev pub is_consumed_by : String → String → Control → Bool
is_consumed_by run_id attempt_id (request_id, row) =
    str_eq row.run_id run_id
    && same_kind row.kind ControlKind.steer
    && elim row.consumed_by_attempt_id [ some id ↦ str_eq id attempt_id | none ↦ false ]

abbrev pub assigned : String → String → RunDatabase → List SteeringMessage
assigned run_id attempt_id db =
    project (by_sequence (keep (is_consumed_by run_id attempt_id) db.control_inbox))

-- `UPDATE` of the rows that wait.
abbrev pub consume_rows :
    (Control → Bool) → (ControlRow → ControlRow) → Dict ControlRow → Dict ControlRow
consume_rows which update [] = []
consume_rows which update (entry ∷ rows) =
    let rest = consume_rows which update rows in
    (entry.0, if which entry then update entry.1 else entry.1) ∷ rest

abbrev pub is_admitted : String → ℕ → Option AttemptRow → Bool
is_admitted run_id lease_epoch none = false
is_admitted run_id lease_epoch (some attempt) =
    str_eq attempt.run_id run_id && attempt.is_running && attempt.lease_epoch == lease_epoch

abbrev pub claim_row : String → ℕ → ControlRow → ControlRow
claim_row attempt_id now row = record row {
  consumed_by_attempt_id = some attempt_id;
  consumed_at = some now;
}

abbrev pub claimed : String → String → ℕ → RunDatabase → RunDatabase
claimed run_id attempt_id now db = record db {
  control_inbox =
      consume_rows (is_pending run_id ControlKind.steer) (claim_row attempt_id now)
        db.control_inbox;
}

-- `claimForAttempt`, inside the transaction that admits the attempt.
unfoldable pub claim_for_attempt :
    String → String → ℕ → ℕ → RunDatabase → Transacted (List SteeringMessage)
claim_for_attempt run_id attempt_id lease_epoch now db =
    guard (is_admitted run_id lease_epoch (get attempt_id db.attempts))
      EngineErrorCode.attempt_mismatch
    >> ok (
      assigned run_id attempt_id (claimed run_id attempt_id now db),
      claimed run_id attempt_id now db,
    )

abbrev pub cancellation_requested : String → RunDatabase → Bool
cancellation_requested run_id db = any (is_pending run_id ControlKind.cancel) db.control_inbox

-- The request and its reason.
abbrev pub first_pause : List Control → Option (String × String)
first_pause [] = none
first_pause ((request_id, row) ∷ rows) = elim row.payload [
  | ControlPayload.pause_payload reason ↦ some (request_id, reason)
  | _ ↦ none
]

abbrev pub pause_requested : String → RunDatabase → Option (String × String)
pause_requested run_id db = first_pause (waiting_controls run_id ControlKind.pause db)

abbrev pub stamp_row : ℕ → ControlRow → ControlRow
stamp_row now row = record row { consumed_at = some now }

abbrev pub consume_kind : String → ControlKind → ℕ → RunDatabase → RunDatabase
consume_kind run_id kind now db = record db {
  control_inbox = consume_rows (is_pending run_id kind) (stamp_row now) db.control_inbox;
}

unfoldable pub consume_pauses : String → ℕ → RunDatabase → RunDatabase
consume_pauses run_id now db = consume_kind run_id ControlKind.pause now db

unfoldable pub acknowledge_cancellation :
    String → ExecutionLease → ℕ → RunDatabase → Transacted (Unit {0})
unfolding assert
acknowledge_cancellation run_id token now db =
    transaction true
      (λ (d : RunDatabase).
        assert run_id token now d >> ok (tt, consume_kind run_id ControlKind.cancel now d))
      db

pub record SteeringReceipt : Type 0 where
  pub id : String
  pub accepted_at : ℕ
  pub preview : String
  pub length : ℕ
  pub is_consumed : Bool
  pub consumed_attempt_id : Option String
  pub consumed_at : Option ℕ

abbrev pub receipts_of : List SteeringMessage → List SteeringReceipt
receipts_of [] = []
receipts_of (message ∷ messages) =
    record {
      id = message.id;
      accepted_at = message.created_at;
      preview = slice 240 message.text;
      length = text_length message.text;
      is_consumed = is_some message.consumed_at;
      consumed_attempt_id = message.consumed_by_attempt_id;
      consumed_at = message.consumed_at;
    }
    ∷ receipts_of messages

pub record InboxStatus : Type 0 where
  pub receipts : List SteeringReceipt
  pub pending : ℕ
  pub consumed : ℕ
  pub truncated : Bool

abbrev pub is_steer_row : String → Control → Bool
is_steer_row run_id (request_id, row) =
    str_eq row.run_id run_id && same_kind row.kind ControlKind.steer

abbrev pub latest_first : List Control → List Control
latest_first [] = []
latest_first (entry ∷ rows) = latest_first rows ++ (entry ∷ [])

-- What waits before what is consumed, the latest first, at most 512.
abbrev pub listed : String → RunDatabase → List Control
listed run_id db =
    let rows = keep (is_steer_row run_id) db.control_inbox in
    take 512 (
      latest_first
        (by_sequence (keep (λ (entry : Control). not (is_some entry.1.consumed_at)) rows))
      ++ latest_first (by_sequence (keep (λ (entry : Control). is_some entry.1.consumed_at) rows)))

pub inbox_status : String → RunDatabase → InboxStatus
inbox_status run_id db =
    let total = length (keep (is_steer_row run_id) db.control_inbox) in
    let waiting_count = length (keep (is_pending run_id ControlKind.steer) db.control_inbox) in
    record {
      receipts = receipts_of (project (listed run_id db));
      pending = waiting_count;
      consumed = total - waiting_count;
      truncated = not (leb total (length (listed run_id db)));
    }
