-- ===== src/Engine/Fencing.antt =====
-- What a lease promises: one executor at a time, and a late one can do nothing.
use specrails_core.Prelude.{
  ℕ, suc, ◌+◌, ◌≤◌, ◌<◌, ◌≡◌, refl, sym, ap, subst, min, String, true, false, not, ◌&&◌, Option,
  some, none, List, [], ◌∷◌, str_eq, leb, ok, err, arith, Bool-cases, inl, inr,
}
use specrails_core.Engine.Contracts.{EngineErrorCode, ExecutionLease}
use specrails_core.Engine.Database.{RunRow, LeaseRow, RunDatabase, get_run}
use specrails_core.Engine.Lease.{
  acquire, assert, renew, release, take_lease, next_run, expires_or, is_live, is_holder, stop_clock,
  heartbeat_row,
}
use specrails_core.Engine.LeaseSteps.{
  LeaseOp, committed, after_op, after_ops, recovered, acquired, named-some, acquire-live,
  acquire-ok, Result-cases,
}

-- While a token is accepted, no executor can acquire the lease: an attempt with an owner and a
-- positive time on the run fails with `lease_held`.
pub held_lease_refuses :
    (run_id owner : String) (ttl_ms now : ℕ) (db : RunDatabase) (run : RunRow)
    (token : ExecutionLease)
    → (not (str_eq owner "") && leb 1 ttl_ms) ≡ true
    → get_run db run_id ≡ some run
    → assert run_id token now db ≡ ok tt
    → acquire run_id owner ttl_ms now db ≡ err EngineErrorCode.lease_held
unfolding assert
held_lease_refuses run_id owner ttl_ms now db run token valid is_there accepted =
    acquire-live run_id owner ttl_ms now db run valid is_there (ground arith)

-- The epochs of the run and of its lease are `epoch` or later.
abbrev RunFrom : ℕ → Option RunRow → Type 0
RunFrom epoch none = Unit
RunFrom epoch (some run) = epoch ≤ run.lease_epoch

abbrev LeaseFrom : ℕ → Option LeaseRow → Type 0
LeaseFrom epoch none = Unit
LeaseFrom epoch (some row) = epoch ≤ row.epoch

record IsFrom (epoch : ℕ) (db : RunDatabase) : Type 0 where
  run : RunFrom epoch db.run
  lease : LeaseFrom epoch db.lease

recovered-lease :
    (db : RunDatabase) (run : RunRow) (prior : Option LeaseRow) (epoch at : ℕ)
    → (recovered db run prior epoch at).lease ≡ db.lease
recovered-lease db run none epoch at = refl
recovered-lease db run (some row) epoch at = refl

recovered-RunFrom :
    (e : ℕ) (db : RunDatabase) (run : RunRow) (prior : Option LeaseRow) (epoch at : ℕ)
    → RunFrom e db.run
    → e ≤ run.lease_epoch
    → RunFrom e (recovered db run prior epoch at).run
recovered-RunFrom e db run none epoch at h k = h
recovered-RunFrom e db run (some row) epoch at h k = k

acquired-IsFrom :
    (e : ℕ) (db : RunDatabase) (owner : String) (ttl_ms now : ℕ) (run : RunRow)
    → e ≤ suc run.lease_epoch
    → IsFrom e (acquired db owner ttl_ms now run)
acquired-IsFrom e db owner ttl_ms now run later =
    let opened = record db { revision = suc db.revision } in
    record {
      run =
          recovered-RunFrom e (take_lease opened owner ttl_ms now run) (next_run opened run now)
            db.lease (suc run.lease_epoch) now later later;
      lease =
          subst (LeaseFrom e)
            (sym (
              recovered-lease (take_lease opened owner ttl_ms now run) (next_run opened run now)
                db.lease (suc run.lease_epoch) now))
            later;
    }

heartbeat-LeaseFrom :
    (e : ℕ) (row : Option LeaseRow) (token : ExecutionLease) (now expires_at : ℕ)
    → LeaseFrom e row
    → LeaseFrom e (heartbeat_row row token now expires_at)
heartbeat-LeaseFrom e none token now expires_at h = tt
heartbeat-LeaseFrom e (some row) token now expires_at h =
    elim (Bool-cases (is_holder (some row) token)) [ inl mine ↦ rw mine h | inr other ↦ rw other h ]

stop_clock-RunFrom :
    (e : ℕ) (run : Option RunRow) (until : ℕ) → RunFrom e run → RunFrom e (stop_clock run until)
stop_clock-RunFrom e none until h = tt
stop_clock-RunFrom e (some run) until h = h

acquire-IsFrom :
    (e : ℕ) (run_id owner : String) (ttl_ms now : ℕ) (db : RunDatabase)
    → IsFrom e db
    → IsFrom e (committed db (acquire run_id owner ttl_ms now db))
acquire-IsFrom e run_id owner ttl_ms now db h =
    elim (Result-cases (acquire run_id owner ttl_ms now db)) [
      | inr (code, failed) ↦ rw failed h
      | inl ((token, next), done) ↦
          let a = acquire-ok run_id owner ttl_ms now db next token done in
          let (at, _) = named-some run_id db.run a.run a.is_there in
          let later : e ≤ a.run.lease_epoch = subst (RunFrom e) at h.run in
          rw done (
            subst (IsFrom e) (sym a.left)
              (acquired-IsFrom e db owner ttl_ms now a.run (omega (arith, later))))
    ]

after_op-IsFrom :
    (e : ℕ) (run_id : String) (db : RunDatabase) (op : LeaseOp)
    → IsFrom e db
    → IsFrom e (after_op run_id db op)
unfolding after_op renew release assert
after_op-IsFrom e run_id db (LeaseOp.acquire_op owner ttl_ms now) h =
    acquire-IsFrom e run_id owner ttl_ms now db h
after_op-IsFrom e run_id db (LeaseOp.renew_op token ttl_ms asserted_at now) h =
    elim (Bool-cases (leb 1 ttl_ms)) [
      | inr bad ↦ rw bad h
      | inl valid ↦
          elim (Bool-cases (
            str_eq token.run_id run_id
            && is_holder db.lease token
            && is_live db.lease asserted_at)) [
              | inr lost ↦ rw (valid, lost) h
              | inl accepted ↦
                  rw (valid, accepted)
                    (record {
                      run = h.run;
                      lease = heartbeat-LeaseFrom e db.lease token now (now + ttl_ms) h.lease;
                    })
            ]
    ]
after_op-IsFrom e run_id db (LeaseOp.release_op token now) h =
    elim (Bool-cases (is_holder db.lease token)) [
      | inl mine ↦ rw mine (record {
        run = stop_clock-RunFrom e db.run (min now (expires_or db.lease now)) h.run;
        lease = tt;
      })
      | inr other ↦ rw other (record { run = h.run; lease = h.lease })
    ]

after_ops-IsFrom :
    (e : ℕ) (run_id : String) (db : RunDatabase) (ops : List LeaseOp)
    → IsFrom e db
    → IsFrom e (after_ops run_id db ops)
unfolding after_ops
after_ops-IsFrom e run_id db [] h = h
after_ops-IsFrom e run_id db (op ∷ ops) h =
    after_ops-IsFrom e run_id (after_op run_id db op) ops (after_op-IsFrom e run_id db op h)

older_holder :
    (e : ℕ) (row : Option LeaseRow) (old : ExecutionLease)
    → LeaseFrom e row
    → old.epoch < e
    → is_holder row old ≡ false
older_holder e none old h less = refl
older_holder e (some row) old h less = ground arith

-- Once a lease was acquired, whatever is acquired, renewed and released after that, at whatever
-- times: a token of an earlier epoch is not accepted and cannot be renewed.
pub late_token_fails :
    (run_id owner : String) (ttl_ms now : ℕ) (db next : RunDatabase) (token old : ExecutionLease)
    (ops : List LeaseOp) (later renewed ttl : ℕ)
    → acquire run_id owner ttl_ms now db ≡ ok (token, next)
    → old.epoch < token.epoch
    → 1 ≤ ttl
    → (assert run_id old later (after_ops run_id next ops) ≡ err EngineErrorCode.lease_lost)
      × (renew run_id old ttl later renewed (after_ops run_id next ops)
          ≡ err EngineErrorCode.lease_lost)
unfolding assert renew
late_token_fails run_id owner ttl_ms now db next token old ops later renewed ttl done less
      positive =
    let a = acquire-ok run_id owner ttl_ms now db next token done in
    let epoch_of : token.epoch ≡ suc a.run.lease_epoch =
      ap (λ (t : ExecutionLease). t.epoch) a.named in
    let start =
      subst (IsFrom token.epoch) (sym a.left)
        (acquired-IsFrom token.epoch db owner ttl_ms now a.run (omega (arith, epoch_of))) in
    let kept = after_ops-IsFrom token.epoch run_id next ops start in
    let lost = older_holder token.epoch (after_ops run_id next ops).lease old kept.lease less in
    let valid : leb 1 ttl ≡ true = ground arith in
    (rw lost (ground arith), rw (lost, valid) (ground arith))
