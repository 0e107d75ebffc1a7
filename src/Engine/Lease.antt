-- ===== src/Engine/Lease.antt =====
-- src/agent-runtime/engine/checkpoint/lease.ts: who may execute a run. The clock that an operation
-- reads is an argument; `renew` reads it twice. The timer of `heartbeat` is outside.
use specrails_core.Prelude.{
  ℕ, suc, ◌+◌, ◌-◌, min, String, Bool, true, false, not, ◌&&◌, Option, some, none, str_eq, leb, ltb,
  ◌==◌, Result, ok, err, if◌then◌else◌, ◌>>=◌, guard, ◌>>◌,
}
use specrails_core.Engine.Database.{
  RunRow, LeaseRow, RunDatabase, Transacted, EventPayload, transaction, get_run, append_run_event,
}
use specrails_core.Engine.Contracts.{EngineErrorCode, ExecutionLease}

-- What is charged for the time since `active_started_at`, at most up to `until`.
abbrev pub charged_time : Option ℕ → ℕ → ℕ
charged_time none until = 0
charged_time (some started) until = until - started

abbrev pub expires_or : Option LeaseRow → ℕ → ℕ
expires_or none now = now
expires_or (some row) now = row.expires_at

abbrev pub is_live : Option LeaseRow → ℕ → Bool
is_live none now = false
is_live (some row) now = ltb now row.expires_at

abbrev pub recover :
    RunDatabase → String → Option LeaseRow → ℕ → ℕ → Result EngineErrorCode RunDatabase
recover db run_id none epoch at = ok db
recover db run_id (some prior) epoch at =
    append_run_event db run_id (EventPayload.lease_recovered prior.epoch epoch) at

-- The run with the next epoch, charged for the time of the lease before it.
abbrev pub next_run : RunDatabase → RunRow → ℕ → RunRow
next_run db run now = record run {
  lease_epoch = suc run.lease_epoch;
  current_revision = db.revision;
  updated_at = now;
  active_duration_ms =
      run.active_duration_ms
      + charged_time run.active_started_at (min now (expires_or db.lease now));
  active_started_at = some now;
}

abbrev pub next_lease : RunRow → String → ℕ → ℕ → LeaseRow
next_lease run owner ttl_ms now = record {
  owner = owner;
  epoch = suc run.lease_epoch;
  acquired_at = now;
  heartbeat_at = now;
  expires_at = now + ttl_ms;
}

abbrev pub take_lease : RunDatabase → String → ℕ → ℕ → RunRow → RunDatabase
take_lease db owner ttl_ms now run = record db {
  lease = some (next_lease run owner ttl_ms now);
  run = some (next_run db run now);
}

abbrev pub acquire_for :
    RunDatabase → String → String → ℕ → ℕ → Option RunRow → Transacted ExecutionLease
acquire_for db run_id owner ttl_ms now none = err EngineErrorCode.run_not_found
acquire_for db run_id owner ttl_ms now (some run) =
    guard (not (is_live db.lease now)) EngineErrorCode.lease_held
    >> (recover (take_lease db owner ttl_ms now run) run_id db.lease (suc run.lease_epoch) now
        >>= λ next. ok (
          record {
            run_id = run_id;
            owner = owner;
            epoch = suc run.lease_epoch;
            expires_at = now + ttl_ms;
          },
          next,
        ))

unfoldable pub acquire : String → String → ℕ → ℕ → RunDatabase → Transacted ExecutionLease
acquire run_id owner ttl_ms now db =
    guard (not (str_eq owner "") && leb 1 ttl_ms) EngineErrorCode.invalid_arguments
    >> transaction true
        (λ (d : RunDatabase). acquire_for d run_id owner ttl_ms now (get_run d run_id)) db

abbrev pub is_holder : Option LeaseRow → ExecutionLease → Bool
is_holder none token = false
is_holder (some row) token = str_eq row.owner token.owner && row.epoch == token.epoch

unfoldable pub assert :
    String → ExecutionLease → ℕ → RunDatabase → Result EngineErrorCode (Unit {0})
assert run_id token now db =
    guard (str_eq token.run_id run_id && is_holder db.lease token && is_live db.lease now)
      EngineErrorCode.lease_lost

-- The row of the lease with its time renewed, if it is the token's.
abbrev pub heartbeat_row : Option LeaseRow → ExecutionLease → ℕ → ℕ → Option LeaseRow
heartbeat_row none token now expires_at = none
heartbeat_row (some row) token now expires_at =
    if is_holder (some row) token
    then some (record row { heartbeat_at = now; expires_at = expires_at })
    else some row

unfoldable pub renew : String → ExecutionLease → ℕ → ℕ → ℕ → RunDatabase → Transacted ExecutionLease
unfolding assert
renew run_id token ttl_ms asserted_at now db =
    guard (leb 1 ttl_ms) EngineErrorCode.invalid_arguments
    >> transaction false
        (λ (d : RunDatabase).
          assert run_id token asserted_at d
          >> ok (
            record token { expires_at = now + ttl_ms },
            record d { lease = heartbeat_row d.lease token now (now + ttl_ms) },
          ))
        db

-- The run is there where its lease is: a lease refers to its run.
abbrev pub stop_clock : Option RunRow → ℕ → Option RunRow
stop_clock none until = none
stop_clock (some run) until = some (record run {
  active_duration_ms = run.active_duration_ms + charged_time run.active_started_at until;
  active_started_at = none;
})

unfoldable pub release : String → ExecutionLease → ℕ → RunDatabase → Transacted Bool
release run_id token now db =
    transaction true
      (λ (d : RunDatabase).
        if is_holder d.lease token
        then ok (
          true,
          record d { lease = none; run = stop_clock d.run (min now (expires_or d.lease now)) },
        )
        else ok (false, d))
      db
