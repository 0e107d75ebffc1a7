-- ===== src/Engine/LeaseSteps.antt =====
-- Sequences of the operations on a lease, and what a successful acquire amounts to.
use specrails_core.Prelude.{
  ℕ, suc, ◌+◌, ◌≡◌, refl, sym, ap, subst, ◌∙◌, String, true, false, not, ◌&&◌, Option, some, none,
  List, [], ◌∷◌, str_eq, leb, Result, ok, err, arith, Bool-cases, Option-cases, inl, inr, ◌⊎◌,
  ok-injective,
}
use specrails_core.Engine.Contracts.{EngineErrorCode, ExecutionLease}
use specrails_core.Engine.Database.{
  RunRow, LeaseRow, RunDatabase, Transacted, EventPayload, get_run, named, appended,
}
use specrails_core.Engine.Lease.{acquire, renew, release, recover, take_lease, next_run, is_live}

pub data LeaseOp : Type 0 where
  acquire_op : (owner : String) (ttl_ms now : ℕ) → LeaseOp
  renew_op : (token : ExecutionLease) (ttl_ms asserted_at now : ℕ) → LeaseOp
  release_op : (token : ExecutionLease) (now : ℕ) → LeaseOp

-- What was committed: nothing, if an error was thrown.
abbrev pub committed {ℓ} : {A : Type ℓ} → RunDatabase → Transacted A → RunDatabase
committed db (ok r) = r.1
committed db (err e) = db

unfoldable pub after_op : String → RunDatabase → LeaseOp → RunDatabase
after_op run_id db (LeaseOp.acquire_op owner ttl_ms now) =
    committed db (acquire run_id owner ttl_ms now db)
after_op run_id db (LeaseOp.renew_op token ttl_ms asserted_at now) =
    committed db (renew run_id token ttl_ms asserted_at now db)
after_op run_id db (LeaseOp.release_op token now) = committed db (release run_id token now db)

unfoldable pub after_ops : String → RunDatabase → List LeaseOp → RunDatabase
unfolding after_op
after_ops run_id db [] = db
after_ops run_id db (op ∷ ops) = after_ops run_id (after_op run_id db op) ops

-- The database that `recover` leaves.
abbrev pub recovered : RunDatabase → RunRow → Option LeaseRow → ℕ → ℕ → RunDatabase
recovered db run none epoch at = db
recovered db run (some prior) epoch at =
    appended db run (EventPayload.lease_recovered prior.epoch epoch) at

recover-ok :
    (db : RunDatabase) (run : RunRow) (run_id : String) (prior : Option LeaseRow) (epoch at : ℕ)
    → get_run db run_id ≡ some run
    → recover db run_id prior epoch at ≡ ok (recovered db run prior epoch at)
recover-ok db run run_id none epoch at is_there = refl
recover-ok db run run_id (some row) epoch at is_there = rw is_there refl

-- The database that `acquire` leaves.
abbrev pub acquired : RunDatabase → String → ℕ → ℕ → RunRow → RunDatabase
acquired db owner ttl_ms now run =
    let opened = record db { revision = suc db.revision } in
    recovered (take_lease opened owner ttl_ms now run) (next_run opened run now) db.lease
      (suc run.lease_epoch) now

abbrev pub token_of : String → String → ℕ → ℕ → RunRow → ExecutionLease
token_of run_id owner ttl_ms now run = record {
  run_id = run_id;
  owner = owner;
  epoch = suc run.lease_epoch;
  expires_at = now + ttl_ms;
}

pub named-some :
    (run_id : String) (o : Option RunRow) (run : RunRow)
    → named run_id o ≡ some run
    → (o ≡ some run) × (str_eq run.run_id run_id ≡ true)
named-some run_id none run h = cc
named-some run_id (some r) run h = elim (Bool-cases (str_eq r.run_id run_id)) [
  | inl e ↦
      let same : r ≡ run = ground arith in
      (cc, subst (λ (x : RunRow). str_eq x.run_id run_id ≡ true) same e)
  | inr e ↦ absurd (ground arith)
]

acquire-free :
    (run_id owner : String) (ttl_ms now : ℕ) (db : RunDatabase) (run : RunRow)
    → (not (str_eq owner "") && leb 1 ttl_ms) ≡ true
    → get_run db run_id ≡ some run
    → is_live db.lease now ≡ false
    → acquire run_id owner ttl_ms now db
      ≡ ok (token_of run_id owner ttl_ms now run, acquired db owner ttl_ms now run)
unfolding acquire
acquire-free run_id owner ttl_ms now db run valid is_there free =
    let (at, same) = named-some run_id db.run run is_there in
    let opened = record db { revision = suc db.revision } in
    let step =
      recover-ok (take_lease opened owner ttl_ms now run) (next_run opened run now) run_id db.lease
        (suc run.lease_epoch) now (rw same refl) in
    rw (valid, is_there, free, step) refl

pub acquire-live :
    (run_id owner : String) (ttl_ms now : ℕ) (db : RunDatabase) (run : RunRow)
    → (not (str_eq owner "") && leb 1 ttl_ms) ≡ true
    → get_run db run_id ≡ some run
    → is_live db.lease now ≡ true
    → acquire run_id owner ttl_ms now db ≡ err EngineErrorCode.lease_held
unfolding acquire
acquire-live run_id owner ttl_ms now db run valid is_there live = rw (valid, is_there, live) refl

-- What there was when `acquire` succeeded, and what it left.
pub record Acquired (run_id owner : String) (ttl_ms now : ℕ) (db next : RunDatabase)
    (token : ExecutionLease) : Type 0 where
  pub run : RunRow
  pub is_there : get_run db run_id ≡ some run
  pub free : is_live db.lease now ≡ false
  pub named : token ≡ token_of run_id owner ttl_ms now run
  pub left : next ≡ acquired db owner ttl_ms now run

pub acquire-ok :
    (run_id owner : String) (ttl_ms now : ℕ) (db next : RunDatabase) (token : ExecutionLease)
    → acquire run_id owner ttl_ms now db ≡ ok (token, next)
    → Acquired run_id owner ttl_ms now db next token
unfolding acquire
acquire-ok run_id owner ttl_ms now db next token h =
    elim (Bool-cases (not (str_eq owner "") && leb 1 ttl_ms)) [
      | inr bad ↦ absurd (ground arith)
      | inl valid ↦ elim (Option-cases (get_run db run_id)) [
        | inl gone ↦ absurd (ground arith)
        | inr (run, is_there) ↦ elim (Bool-cases (is_live db.lease now)) [
          | inl live ↦
              let refused = acquire-live run_id owner ttl_ms now db run valid is_there live in
              absurd cc
          | inr free ↦
              let done = acquire-free run_id owner ttl_ms now db run valid is_there free in
              let same = ok-injective (sym h ∙ done) in
              record {
                run = run;
                is_there = is_there;
                free = free;
                named = ap (λ r. r.0) same;
                left = ap (λ r. r.1) same;
              }
        ]
      ]
    ]

pub Result-cases {ℓ} :
    {A : Type ℓ} (r : Result EngineErrorCode A)
    → ((a : A) × (r ≡ ok a)) ⊎ ((e : EngineErrorCode) × (r ≡ err e))
Result-cases (ok a) = inl (a, refl)
Result-cases (err e) = inr (e, refl)
