-- ===== src/Engine/ActiveTime.antt =====
-- The time for which a run is charged.
use specrails_core.Prelude.{
  ℕ, suc, ◌+◌, ◌-◌, ◌≤◌, ◌≡◌, refl, sym, subst, min, String, Option, some, none, List, [], ◌∷◌,
  arith, Bool-cases, inl, inr,
}
use specrails_core.Engine.Contracts.{ExecutionLease}
use specrails_core.Engine.Database.{RunRow, LeaseRow, RunDatabase}
use specrails_core.Engine.Lease.{
  acquire, assert, renew, release, take_lease, next_run, charged_time, expires_or, is_holder,
  stop_clock,
}
use specrails_core.Engine.LeaseSteps.{
  LeaseOp, committed, after_op, after_ops, recovered, named-some, acquire-ok, Result-cases,
}

-- The time of the active period that is not charged yet.
abbrev uncharged : Option ℕ → ℕ → ℕ
uncharged none now = 0
uncharged (some started) now = now - started

-- What a run is charged with at `now` is no more than the time since `start`.
abbrev ChargedRun : ℕ → ℕ → Option RunRow → Type 0
ChargedRun start now none = Unit
ChargedRun start now (some run) =
    run.active_duration_ms + uncharged run.active_started_at now ≤ now - start

abbrev time_of : LeaseOp → ℕ
time_of (LeaseOp.acquire_op owner ttl_ms now) = now
time_of (LeaseOp.renew_op token ttl_ms asserted_at now) = now
time_of (LeaseOp.release_op token now) = now

-- The clock does not go back.
abbrev pub Ordered : ℕ → List LeaseOp → Type 0
Ordered now [] = Unit
Ordered now (op ∷ ops) = (now ≤ time_of op) × Ordered (time_of op) ops

abbrev pub last_time : ℕ → List LeaseOp → ℕ
last_time now [] = now
last_time now (op ∷ ops) = last_time (time_of op) ops

charged_time-uncharged :
    (started : Option ℕ) (now until : ℕ)
    → until ≤ now
    → charged_time started until ≤ uncharged started now
charged_time-uncharged none now until h = omega arith
charged_time-uncharged (some started) now until h = omega (arith, h)

uncharged-later :
    (started : Option ℕ) (now later : ℕ)
    → now ≤ later
    → uncharged started later ≤ uncharged started now + (later - now)
uncharged-later none now later h = omega arith
uncharged-later (some started) now later h = omega (arith, h)

ChargedRun-later :
    (start now later : ℕ) (run : Option RunRow)
    → start ≤ now
    → now ≤ later
    → ChargedRun start now run
    → ChargedRun start later run
ChargedRun-later start now later none s n h = tt
ChargedRun-later start now later (some run) s n h =
    omega (arith, h, uncharged-later run.active_started_at now later n)

recovered-Charged :
    (start t : ℕ) (db : RunDatabase) (run : RunRow) (prior : Option LeaseRow) (epoch at : ℕ)
    → db.run ≡ some run
    → ChargedRun start t (some run)
    → ChargedRun start t (recovered db run prior epoch at).run
recovered-Charged start t db run none epoch at same h = rw same h
recovered-Charged start t db run (some row) epoch at same h = h

acquire-Charged :
    (start : ℕ) (run_id owner : String) (ttl_ms now : ℕ) (db : RunDatabase)
    → ChargedRun start now db.run
    → ChargedRun start now (committed db (acquire run_id owner ttl_ms now db)).run
acquire-Charged start run_id owner ttl_ms now db h =
    elim (Result-cases (acquire run_id owner ttl_ms now db)) [
      | inr (code, failed) ↦ rw failed h
      | inl ((token, next), done) ↦
          let a = acquire-ok run_id owner ttl_ms now db next token done in
          let (at, _) = named-some run_id db.run a.run a.is_there in
          let before : a.run.active_duration_ms + uncharged a.run.active_started_at now
              ≤ now - start =
            subst (ChargedRun start now) at h in
          let opened = record db { revision = suc db.revision } in
          let bound =
            charged_time-uncharged a.run.active_started_at now (min now (expires_or db.lease now))
              (omega arith) in
          rw done (
            subst (λ (d : RunDatabase). ChargedRun start now d.run) (sym a.left)
              (recovered-Charged start now (take_lease opened owner ttl_ms now a.run)
                (next_run opened a.run now) db.lease (suc a.run.lease_epoch) now refl
                (omega (arith, before, bound))))
    ]

stop_clock-Charged :
    (start now until : ℕ) (run : Option RunRow)
    → until ≤ now
    → ChargedRun start now run
    → ChargedRun start now (stop_clock run until)
stop_clock-Charged start now until none u h = tt
stop_clock-Charged start now until (some run) u h =
    omega (arith, h, charged_time-uncharged run.active_started_at now until u)

renew-run :
    (run_id : String) (token : ExecutionLease) (ttl_ms asserted_at now : ℕ) (db : RunDatabase)
    → (committed db (renew run_id token ttl_ms asserted_at now db)).run ≡ db.run
unfolding renew assert
renew-run run_id token ttl_ms asserted_at now db = ground arith

after_op-Charged :
    (start now : ℕ) (run_id : String) (db : RunDatabase) (op : LeaseOp)
    → start ≤ now
    → now ≤ time_of op
    → ChargedRun start now db.run
    → ChargedRun start (time_of op) (after_op run_id db op).run
unfolding after_op release
after_op-Charged start t run_id db (LeaseOp.acquire_op owner ttl_ms now) s n h =
    acquire-Charged start run_id owner ttl_ms now db (ChargedRun-later start t now db.run s n h)
after_op-Charged start t run_id db (LeaseOp.renew_op token ttl_ms asserted_at now) s n h =
    subst (ChargedRun start now) (sym (renew-run run_id token ttl_ms asserted_at now db))
      (ChargedRun-later start t now db.run s n h)
after_op-Charged start t run_id db (LeaseOp.release_op token now) s n h =
    elim (Bool-cases (is_holder db.lease token)) [
      | inl mine ↦ rw mine (
          stop_clock-Charged start now (min now (expires_or db.lease now)) db.run (omega arith)
            (ChargedRun-later start t now db.run s n h))
      | inr other ↦ rw other (ChargedRun-later start t now db.run s n h)
    ]

after_ops-Charged :
    (start now : ℕ) (run_id : String) (db : RunDatabase) (ops : List LeaseOp)
    → start ≤ now
    → Ordered now ops
    → ChargedRun start now db.run
    → ChargedRun start (last_time now ops) (after_ops run_id db ops).run
unfolding after_ops
after_ops-Charged start now run_id db [] s o h = h
after_ops-Charged start now run_id db (op ∷ ops) s (n, o) h =
    after_ops-Charged start (time_of op) run_id (after_op run_id db op) ops (omega (arith, s, n)) o
      (after_op-Charged start now run_id db op s n h)

-- A run that was charged nothing and is not active at `start`: after any acquires, renewals and
-- releases, by whoever, on a clock that does not go back, it is charged at most the time that has
-- passed since `start`, however often the lease was lost and recovered.
pub charged_once :
    (run_id : String) (start : ℕ) (db : RunDatabase) (run after : RunRow) (ops : List LeaseOp)
    → db.run ≡ some run
    → run.active_duration_ms ≡ 0
    → run.active_started_at ≡ none
    → Ordered start ops
    → (after_ops run_id db ops).run ≡ some after
    → after.active_duration_ms ≤ last_time start ops - start
charged_once run_id start db run after ops is_there fresh idle ordered last =
    let before : ChargedRun start start db.run = rw is_there (rw idle (omega (arith, fresh))) in
    let kept = after_ops-Charged start start run_id db ops (omega arith) ordered before in
    let end : after.active_duration_ms + uncharged after.active_started_at (last_time start ops)
        ≤ last_time start ops - start =
      subst (ChargedRun start (last_time start ops)) last kept in
    omega (arith, end)
