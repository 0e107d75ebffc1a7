-- ===== src/Engine/InboxBounds.antt =====
-- How much can wait in an inbox, and what a repeated request does.
use specrails_core.Prelude.Dict.{Dict, get, put}
use specrails_core.Prelude.Texts.{byte_length}
use specrails_core.Prelude.{
  ℕ, suc, ◌+◌, ◌≤◌, ◌≡◌, ap, ◌∙◌, String, Bool, true, false, ◌&&◌, none, List, [], ◌∷◌, str_eq,
  if◌then◌else◌, arith, Bool-cases, inl, inr, eq_refl, keep, length,
}
use specrails_core.Engine.Database.{RunRow, ControlKind, ControlPayload, ControlRow, RunDatabase}
use specrails_core.Engine.Lease.{assert}
use specrails_core.Engine.LeaseSteps.{Result-cases}
use specrails_core.Engine.Inbox.{
  Control, encode, is_pending, pending_bytes, is_full, new_control, is_steering,
  max_pending_steering, max_pending_steering_bytes,
}
use specrails_core.Engine.Consumption.{
  consume_rows, is_admitted, claim_row, stamp_row, claim_for_attempt, consume_pauses,
  acknowledge_cancellation,
}
use specrails_core.Engine.Delivery.{InboxOp, after_op, after_ops, append-inbox}

-- What waits of steering is within both limits.
abbrev steering : String → Dict ControlRow → List Control
steering run_id inbox = keep (is_pending run_id ControlKind.steer) inbox

pub record IsBounded (run_id : String) (inbox : Dict ControlRow) : Type 0 where
  pub few : length (steering run_id inbox) ≤ max_pending_steering
  pub small : pending_bytes (steering run_id inbox) ≤ max_pending_steering_bytes

module _ (p : Control → Bool) where
  length-keep-put :
      (k : String) (row : ControlRow) (d : Dict ControlRow)
      → get k d ≡ none
      → length (keep p (put k row d)) ≡ length (keep p d) + (if p (k, row) then 1 else 0)
  unfolding get put
  length-keep-put k row [] h = ground arith
  length-keep-put k row ((j, v) ∷ d) h =
      let missing : str_eq j k ≡ false = ground arith in
      let rest = length-keep-put k row d (ground arith) in
      elim (Bool-cases (p (j, v))) [
        | inl kept ↦ rw (missing, kept) (omega (arith, rest))
        | inr dropped ↦ rw (missing, dropped) rest
      ]

  bytes-keep-put :
      (k : String) (row : ControlRow) (d : Dict ControlRow)
      → get k d ≡ none
      → pending_bytes (keep p (put k row d))
        ≡ pending_bytes (keep p d) + (if p (k, row) then byte_length (encode row.payload) else 0)
  unfolding get put
  bytes-keep-put k row [] h = ground arith
  bytes-keep-put k row ((j, v) ∷ d) h =
      let missing : str_eq j k ≡ false = ground arith in
      let rest = bytes-keep-put k row d (ground arith) in
      elim (Bool-cases (p (j, v))) [
        | inl kept ↦ rw (missing, kept) (omega (arith, rest))
        | inr dropped ↦ rw (missing, dropped) rest
      ]

  -- An update that keeps nothing that did not wait before.
  module _ (which : Control → Bool) (update : ControlRow → ControlRow)
      (out : (entry : Control) → which entry ≡ true → p (entry.0, update entry.1) ≡ false) where
    length-keep-consume :
        (d : Dict ControlRow) → length (keep p (consume_rows which update d)) ≤ length (keep p d)
    length-keep-consume [] = omega arith
    length-keep-consume (entry ∷ d) = elim (Bool-cases (which entry)) [
      | inl hit ↦ rw (hit, out entry hit) (ground (arith, length-keep-consume d))
      | inr miss ↦ rw miss (ground (arith, length-keep-consume d))
    ]

    bytes-keep-consume :
        (d : Dict ControlRow)
        → pending_bytes (keep p (consume_rows which update d)) ≤ pending_bytes (keep p d)
    bytes-keep-consume [] = omega arith
    bytes-keep-consume (entry ∷ d) = elim (Bool-cases (which entry)) [
      | inl hit ↦ rw (hit, out entry hit) (ground (arith, bytes-keep-consume d))
      | inr miss ↦ rw miss (ground (arith, bytes-keep-consume d))
    ]

stamped-out :
    (run_id : String) (kind : ControlKind) (now : ℕ) (entry : Control)
    → is_pending run_id kind entry ≡ true
    → is_pending run_id ControlKind.steer (entry.0, stamp_row now entry.1) ≡ false
stamped-out run_id kind now entry h = ground arith

claimed-out :
    (run_id attempt_id : String) (now : ℕ) (entry : Control)
    → is_pending run_id ControlKind.steer entry ≡ true
    → is_pending run_id ControlKind.steer (entry.0, claim_row attempt_id now entry.1) ≡ false
claimed-out run_id attempt_id now entry h = ground arith

consume-IsBounded :
    (run_id : String) (kind : ControlKind) (update : ControlRow → ControlRow)
    (inbox : Dict ControlRow)
    → ((entry : Control)
        → is_pending run_id kind entry ≡ true
        → is_pending run_id ControlKind.steer (entry.0, update entry.1) ≡ false)
    → IsBounded run_id inbox
    → IsBounded run_id (consume_rows (is_pending run_id kind) update inbox)
consume-IsBounded run_id kind update inbox out b =
    let which = is_pending run_id kind in
    let p = is_pending run_id ControlKind.steer in
    record {
      few = omega (arith, b.few, length-keep-consume p which update out inbox);
      small = omega (arith, b.small, bytes-keep-consume p which update out inbox);
    }

put-IsBounded :
    (run_id : String) (payload : ControlPayload) (request_id : String) (at : ℕ)
    (inbox : Dict ControlRow) (run : RunRow)
    → get request_id inbox ≡ none
    → (is_steering payload && is_full (steering run_id inbox) payload) ≡ false
    → IsBounded run_id inbox
    → IsBounded run_id (put request_id (new_control run_id payload at run) inbox)
put-IsBounded run_id payload request_id at inbox run is_free has_room b =
    let p = is_pending run_id ControlKind.steer in
    let row = new_control run_id payload at run in
    let count = length-keep-put p request_id row inbox is_free in
    let bytes = bytes-keep-put p request_id row inbox is_free in
    let waits : p (request_id, row) ≡ is_steering payload = rw (eq_refl run_id) (ground arith) in
    elim (Bool-cases (is_steering payload)) [
      | inl steers ↦
          let counted =
            count
            ∙ ap (λ w. length (steering run_id inbox) + (if w then 1 else 0)) (waits ∙ steers) in
          let weighed =
            bytes
            ∙ ap
                (λ w.
                  pending_bytes (steering run_id inbox)
                  + (if w then byte_length (encode payload) else 0))
                (waits ∙ steers) in
          let room : is_full (steering run_id inbox) payload ≡ false = ground arith in
          record { few = ground (arith, counted); small = ground (arith, weighed) }
      | inr other ↦
          let counted =
            count
            ∙ ap (λ w. length (steering run_id inbox) + (if w then 1 else 0)) (waits ∙ other) in
          let weighed =
            bytes
            ∙ ap
                (λ w.
                  pending_bytes (steering run_id inbox)
                  + (if w then byte_length (encode payload) else 0))
                (waits ∙ other) in
          record { few = omega (arith, counted, b.few); small = omega (arith, weighed, b.small) }
    ]

after_op-IsBounded :
    (run_id : String) (db : RunDatabase) (op : InboxOp)
    → IsBounded run_id db.control_inbox
    → IsBounded run_id (after_op run_id db op).control_inbox
unfolding after_op claim_for_attempt consume_pauses acknowledge_cancellation
after_op-IsBounded run_id db (InboxOp.append_op payload request_id at) b =
    elim (append-inbox run_id payload request_id at db) [
      | inl same ↦ rw same b
      | inr added ↦ rw added.left (
          put-IsBounded run_id payload request_id at db.control_inbox added.run added.is_free
            added.has_room b)
    ]
after_op-IsBounded run_id db (InboxOp.claim_op attempt_id lease_epoch now) b =
    elim (Bool-cases (is_admitted run_id lease_epoch (get attempt_id db.attempts))) [
      | inl admitted ↦ rw admitted (
          consume-IsBounded run_id ControlKind.steer (claim_row attempt_id now) db.control_inbox
            (claimed-out run_id attempt_id now) b)
      | inr unknown ↦ rw unknown b
    ]
after_op-IsBounded run_id db (InboxOp.pauses_op now) b =
    consume-IsBounded run_id ControlKind.pause (stamp_row now) db.control_inbox
      (stamped-out run_id ControlKind.pause now) b
after_op-IsBounded run_id db (InboxOp.acknowledge_op token now) b =
    elim (Result-cases (assert run_id token now (record db { revision = suc db.revision }))) [
      | inl (_, held) ↦ rw held (
          consume-IsBounded run_id ControlKind.cancel (stamp_row now) db.control_inbox
            (stamped-out run_id ControlKind.cancel now) b)
      | inr (code, lost) ↦ rw lost b
    ]

after_ops-IsBounded :
    (run_id : String) (db : RunDatabase) (ops : List InboxOp)
    → IsBounded run_id db.control_inbox
    → IsBounded run_id (after_ops run_id db ops).control_inbox
unfolding after_ops
after_ops-IsBounded run_id db [] b = b
after_ops-IsBounded run_id db (op ∷ ops) b =
    after_ops-IsBounded run_id (after_op run_id db op) ops (after_op-IsBounded run_id db op b)

-- An inbox that starts empty: whatever is appended, claimed, paused and acknowledged, at most 128
-- messages of the operator wait, of 512 KiB at most as JSON.
pub inbox-IsBounded :
    (run_id : String) (db : RunDatabase) (ops : List InboxOp)
    → db.control_inbox ≡ []
    → IsBounded run_id (after_ops run_id db ops).control_inbox
inbox-IsBounded run_id db ops empty =
    after_ops-IsBounded run_id db ops (rw empty (record { few = omega arith; small = omega arith }))
