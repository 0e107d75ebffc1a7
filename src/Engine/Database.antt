-- ===== src/Engine/Database.antt =====
-- src/agent-runtime/engine/checkpoint/database.ts: the tables of a run that leases and controls
-- use, transactions and the journal of events. A database holds one run. Time stamps are
-- milliseconds; a field of a record that is `none` is a NULL of its column. The identifiers of
-- events and the versions of rows are left out.
use specrails_core.Prelude.Dict.{Dict}
use specrails_core.Prelude.{
  ℕ, suc, String, Bool, true, false, Option, some, none, List, [], ◌∷◌, ◌++◌, str_eq, Result, ok,
  err, if◌then◌else◌,
}
use specrails_core.Engine.Contracts.{EngineErrorCode, EngineRunStatus}

pub record RunRow : Type 0 where
  pub run_id : String
  pub status : EngineRunStatus
  pub is_complete : Bool
  pub current_revision : ℕ
  pub lease_epoch : ℕ
  pub next_event_sequence : ℕ
  pub active_duration_ms : ℕ
  pub active_started_at : Option ℕ
  pub updated_at : ℕ

pub record LeaseRow : Type 0 where
  pub owner : String
  pub epoch : ℕ
  pub acquired_at : ℕ
  pub heartbeat_at : ℕ
  pub expires_at : ℕ

-- The types of events that leases and controls write, with their payloads.
pub data EventPayload : Type 0 where
  lease_recovered : (previous_epoch epoch : ℕ) → EventPayload
  steering_received cancellation_requested : (request_id : String) → EventPayload
  pause_requested : (request_id reason : String) → EventPayload

pub record DurableEngineEvent : Type 0 where
  pub sequence : ℕ
  pub timestamp : ℕ
  pub payload : EventPayload

pub data ControlKind : Type 0 where
  cancel steer pause : ControlKind

-- What the column `payload_json` of a control holds, before it is written as JSON.
pub data ControlPayload : Type 0 where
  cancel_payload : ControlPayload
  steer_payload : (text sender : String) → ControlPayload
  pause_payload : (reason : String) → ControlPayload

pub record ControlRow : Type 0 where
  pub run_id : String
  pub kind : ControlKind
  pub payload : ControlPayload
  pub created_at : ℕ
  pub received_sequence : ℕ
  pub consumed_by_attempt_id : Option String
  pub consumed_at : Option ℕ

pub record AttemptRow : Type 0 where
  pub run_id : String
  pub is_running : Bool
  pub lease_epoch : ℕ

-- `revision` is the last row of durable_revisions; the reasons that its rows hold are left out.
pub record RunDatabase : Type 0 where
  pub run : Option RunRow
  pub lease : Option LeaseRow
  pub events : List DurableEngineEvent
  pub control_inbox : Dict ControlRow
  pub attempts : Dict AttemptRow
  pub revision : ℕ

-- What a transaction computes: a value and the database after it, or an error, after which the
-- database is as it was.
abbrev pub Transacted {ℓ} : Type ℓ → Type ℓ
Transacted A = Result EngineErrorCode (A × RunDatabase)

-- `db.transaction(reason, operation)`, with or without a reason: one with a reason has a revision.
abbrev pub transaction {ℓ} :
    {A : Type ℓ} → Bool → (RunDatabase → Transacted A) → RunDatabase → Transacted A
transaction true operation db = operation (record db { revision = suc db.revision })
transaction false operation db = operation db

abbrev pub named : String → Option RunRow → Option RunRow
named run_id none = none
named run_id (some run) = if str_eq run.run_id run_id then some run else none

-- `db.get('runs', { run_id })`
abbrev pub get_run : RunDatabase → String → Option RunRow
get_run db run_id = named run_id db.run

abbrev pub appended : RunDatabase → RunRow → EventPayload → ℕ → RunDatabase
appended db run payload timestamp = record db {
  events =
      db.events
      ++ (record { sequence = run.next_event_sequence; timestamp = timestamp; payload = payload }
          ∷ []);
  run = some (record run {
    next_event_sequence = suc run.next_event_sequence;
    current_revision = db.revision;
    updated_at = timestamp;
  });
}

abbrev pub append_to :
    RunDatabase → EventPayload → ℕ → Option RunRow → Result EngineErrorCode RunDatabase
append_to db payload timestamp none = err EngineErrorCode.run_not_found
append_to db payload timestamp (some run) = ok (appended db run payload timestamp)

abbrev pub append_run_event :
    RunDatabase → String → EventPayload → ℕ → Result EngineErrorCode RunDatabase
append_run_event db run_id payload timestamp = append_to db payload timestamp (get_run db run_id)
