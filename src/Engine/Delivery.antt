-- ===== src/Engine/Delivery.antt =====
-- What the inbox promises: a control is taken once, and what waits is bounded.
use specrails_core.Prelude.Dict.{Dict, get, put, get-put_ne}
use specrails_core.Prelude.{
  ℕ, suc, ◌≡◌, ◌≢◌, refl, ap, ◌∙◌, String, Bool, true, false, ◌&&◌, some, none, List, [], ◌∷◌,
  str_eq, if◌then◌else◌, arith, Bool-cases, Option-cases, inl, inr, ◌⊎◌, eq_iff, is_some, keep,
}
use specrails_core.Engine.Contracts.{ExecutionLease}
use specrails_core.Engine.Database.{
  RunRow, ControlKind, ControlPayload, ControlRow, RunDatabase, get_run,
}
use specrails_core.Engine.Lease.{assert}
use specrails_core.Engine.LeaseSteps.{committed, Result-cases}
use specrails_core.Engine.Inbox.{
  Control, encode, kind_of, same_kind, is_pending, is_full, is_terminal, repeated, new_control,
  is_steering, insert_control, is_request_id, append_control,
}
use specrails_core.Engine.Consumption.{
  consume_rows, is_admitted, claim_row, stamp_row, claimed, claim_for_attempt, consume_pauses,
  acknowledge_cancellation,
}

pub data InboxOp : Type 0 where
  append_op : (payload : ControlPayload) (request_id : String) (at : ℕ) → InboxOp
  claim_op : (attempt_id : String) (lease_epoch now : ℕ) → InboxOp
  pauses_op : (now : ℕ) → InboxOp
  acknowledge_op : (token : ExecutionLease) (now : ℕ) → InboxOp

unfoldable pub after_op : String → RunDatabase → InboxOp → RunDatabase
after_op run_id db (InboxOp.append_op payload request_id at) =
    committed db (append_control run_id payload request_id at db)
after_op run_id db (InboxOp.claim_op attempt_id lease_epoch now) =
    committed db (claim_for_attempt run_id attempt_id lease_epoch now db)
after_op run_id db (InboxOp.pauses_op now) = consume_pauses run_id now db
after_op run_id db (InboxOp.acknowledge_op token now) =
    committed db (acknowledge_cancellation run_id token now db)

unfoldable pub after_ops : String → RunDatabase → List InboxOp → RunDatabase
unfolding after_op
after_ops run_id db [] = db
after_ops run_id db (op ∷ ops) = after_ops run_id (after_op run_id db op) ops

-- What appending does to the table: nothing, or a new row under a key that was free.
pub record Added (run_id : String) (payload : ControlPayload) (request_id : String) (at : ℕ)
    (before after : Dict ControlRow) : Type 0 where
  pub run : RunRow
  pub is_free : get request_id before ≡ none
  pub has_room :
      (is_steering payload && is_full (keep (is_pending run_id ControlKind.steer) before) payload)
      ≡ false
  pub left : after ≡ put request_id (new_control run_id payload at run) before

insert-inbox :
    (run_id : String) (payload : ControlPayload) (request_id : String) (at : ℕ) (db : RunDatabase)
    (run : RunRow)
    → get_run db run_id ≡ some run
    → get request_id db.control_inbox ≡ none
    → let opened = record db { revision = suc db.revision } in
      let after =
        (committed db (insert_control run_id payload request_id at opened run)).control_inbox in
      (after ≡ db.control_inbox) ⊎ Added run_id payload request_id at db.control_inbox after
insert-inbox run_id payload request_id at db run is_there is_free =
    elim (Bool-cases (is_terminal run)) [
      | inl over ↦ rw over (inl refl)
      | inr going ↦
          elim (Bool-cases (
            is_steering payload
            && is_full (keep (is_pending run_id ControlKind.steer) db.control_inbox) payload)) [
              | inl full ↦ rw (going, full) (inl refl)
              | inr room ↦
                  rw (going, room, is_there)
                    (inr (record { run = run; is_free = is_free; has_room = room; left = refl }))
            ]
    ]

repeated-inbox :
    (run_id : String) (payload : ControlPayload) (db : RunDatabase) (row : ControlRow)
    → (committed db
        (repeated run_id payload (record db { revision = suc db.revision }) row)).control_inbox
      ≡ db.control_inbox
repeated-inbox run_id payload db row =
    elim (Bool-cases (
      str_eq row.run_id run_id
      && same_kind row.kind (kind_of payload)
      && str_eq (encode row.payload) (encode payload))) [
        | inl same ↦ rw same refl
        | inr other ↦ rw other refl
      ]

pub append-inbox :
    (run_id : String) (payload : ControlPayload) (request_id : String) (at : ℕ) (db : RunDatabase)
    → let after = (committed db (append_control run_id payload request_id at db)).control_inbox in
      (after ≡ db.control_inbox) ⊎ Added run_id payload request_id at db.control_inbox after
unfolding append_control
append-inbox run_id payload request_id at db = elim (Bool-cases (is_request_id request_id)) [
  | inr bad ↦ rw bad (inl refl)
  | inl good ↦ elim (Option-cases (get_run db run_id)) [
    | inl gone ↦ rw (good, gone) (inl refl)
    | inr (run, is_there) ↦ elim (Option-cases (get request_id db.control_inbox)) [
      | inl fresh ↦
          rw (good, is_there, fresh)
            (insert-inbox run_id payload request_id at db run is_there fresh)
      | inr (row, found) ↦ rw (good, is_there, found) (inl (repeated-inbox run_id payload db row))
    ]
  ]
]

get-consume :
    (which : Control → Bool) (update : ControlRow → ControlRow) (k : String) (row : ControlRow)
    (d : Dict ControlRow)
    → get k d ≡ some row
    → get k (consume_rows which update d) ≡ some (if which (k, row) then update row else row)
unfolding get
get-consume which update k row [] h = absurd (ground arith)
get-consume which update k row ((j, v) ∷ d) h = elim (Bool-cases (str_eq j k)) [
  | inl e ↦
      let same_key : j ≡ k = (eq_iff j k).0 e in
      let same_row : v ≡ row = ground arith in rw e (rw (same_key, same_row) refl)
  | inr e ↦ rw e (get-consume which update k row d (ground arith))
]

-- A row that is consumed.
abbrev pub is_taken : ControlRow → Bool
is_taken row = is_some row.consumed_at

pending-taken :
    (run_id : String) (kind : ControlKind) (k : String) (row : ControlRow)
    → is_taken row ≡ true
    → is_pending run_id kind (k, row) ≡ false
pending-taken run_id kind k row h = ground arith

get-consume_taken :
    (run_id : String) (kind : ControlKind) (update : ControlRow → ControlRow) (k : String)
    (row : ControlRow) (d : Dict ControlRow)
    → is_taken row ≡ true
    → get k d ≡ some row
    → get k (consume_rows (is_pending run_id kind) update d) ≡ some row
get-consume_taken run_id kind update k row d taken h =
    get-consume (is_pending run_id kind) update k row d h
    ∙ ap (λ b. some (if b then update row else row)) (pending-taken run_id kind k row taken)

append-taken :
    (run_id : String) (payload : ControlPayload) (request_id : String) (at : ℕ) (db : RunDatabase)
    (k : String) (row : ControlRow)
    → get k db.control_inbox ≡ some row
    → get k (committed db (append_control run_id payload request_id at db)).control_inbox ≡ some row
append-taken run_id payload request_id at db k row h =
    elim (append-inbox run_id payload request_id at db) [
      | inl same ↦ rw same h
      | inr added ↦
          let other : request_id ≢ k = λ e. cc (e, h, added.is_free) in
          rw added.left (
            get-put_ne request_id k (new_control run_id payload at added.run) db.control_inbox other
            ∙ h)
    ]

after_op-taken :
    (run_id : String) (db : RunDatabase) (op : InboxOp) (k : String) (row : ControlRow)
    → is_taken row ≡ true
    → get k db.control_inbox ≡ some row
    → get k (after_op run_id db op).control_inbox ≡ some row
unfolding after_op claim_for_attempt consume_pauses acknowledge_cancellation
after_op-taken run_id db (InboxOp.append_op payload request_id at) k row taken h =
    append-taken run_id payload request_id at db k row h
after_op-taken run_id db (InboxOp.claim_op attempt_id lease_epoch now) k row taken h =
    elim (Bool-cases (is_admitted run_id lease_epoch (get attempt_id db.attempts))) [
      | inl admitted ↦ rw admitted (
          get-consume_taken run_id ControlKind.steer (claim_row attempt_id now) k row
            db.control_inbox taken h)
      | inr unknown ↦ rw unknown h
    ]
after_op-taken run_id db (InboxOp.pauses_op now) k row taken h =
    get-consume_taken run_id ControlKind.pause (stamp_row now) k row db.control_inbox taken h
after_op-taken run_id db (InboxOp.acknowledge_op token now) k row taken h =
    elim (Result-cases (assert run_id token now (record db { revision = suc db.revision }))) [
      | inl (_, held) ↦ rw held (
          get-consume_taken run_id ControlKind.cancel (stamp_row now) k row db.control_inbox taken
            h)
      | inr (code, lost) ↦ rw lost h
    ]

after_ops-taken :
    (run_id : String) (db : RunDatabase) (ops : List InboxOp) (k : String) (row : ControlRow)
    → is_taken row ≡ true
    → get k db.control_inbox ≡ some row
    → get k (after_ops run_id db ops).control_inbox ≡ some row
unfolding after_ops
after_ops-taken run_id db [] k row taken h = h
after_ops-taken run_id db (op ∷ ops) k row taken h =
    after_ops-taken run_id (after_op run_id db op) ops k row taken
      (after_op-taken run_id db op k row taken h)

-- A message of the operator that waits when an admitted attempt claims is given to that attempt,
-- with the time of the claim, and stays so: no later append, claim, pause or acknowledgement
-- takes it away, gives it to another attempt or changes it.
pub delivered_once :
    (run_id attempt_id : String) (lease_epoch now : ℕ) (db : RunDatabase) (ops : List InboxOp)
    (request_id : String) (row : ControlRow)
    → is_admitted run_id lease_epoch (get attempt_id db.attempts) ≡ true
    → get request_id db.control_inbox ≡ some row
    → is_pending run_id ControlKind.steer (request_id, row) ≡ true
    → get request_id
        (after_ops run_id
          (committed db (claim_for_attempt run_id attempt_id lease_epoch now db))
          ops).control_inbox
      ≡ some (claim_row attempt_id now row)
unfolding claim_for_attempt
delivered_once run_id attempt_id lease_epoch now db ops request_id row admitted found waits =
    let taken =
      get-consume (is_pending run_id ControlKind.steer) (claim_row attempt_id now) request_id row
        db.control_inbox found
      ∙ ap (λ b. some (if b then claim_row attempt_id now row else row)) waits in
    rw admitted (
      after_ops-taken run_id (claimed run_id attempt_id now db) ops request_id
        (claim_row attempt_id now row) refl taken)
