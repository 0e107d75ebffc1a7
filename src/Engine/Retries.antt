-- ===== src/Engine/Retries.antt =====
-- A request is the key of its control: a retry gets the control of the first call.
use specrails_core.Prelude.Dict.{get, put, get-put_self}
use specrails_core.Prelude.{
  ℕ, suc, ◌≡◌, refl, sym, ap, subst, ◌∙◌, String, true, ◌&&◌, some, str_eq, ok, err, if◌then◌else◌,
  arith, Bool-cases, Option-cases, inl, inr, ok-injective, guard-ok, eq_iff, eq_refl, keep,
}
use specrails_core.Engine.Contracts.{EngineErrorCode}
use specrails_core.Engine.Database.{
  RunRow, ControlKind, ControlPayload, ControlRow, RunDatabase, appended, get_run,
}
use specrails_core.Engine.LeaseSteps.{named-some}
use specrails_core.Engine.Inbox.{
  encode, kind_of, same_kind, is_pending, is_full, is_terminal, event_of, repeated, new_control,
  is_steering, insert_control, is_request_id, append_control,
}

-- What a successful append leaves under the key of the request.
record Stored (run_id : String) (payload : ControlPayload) (request_id : String) (row : ControlRow)
    (next : RunDatabase) : Type 0 where
  run : RunRow
  run_there : get_run next run_id ≡ some run
  found : get request_id next.control_inbox ≡ some row
  of_run : str_eq row.run_id run_id ≡ true
  of_kind : row.kind ≡ kind_of payload
  of_payload : encode row.payload ≡ encode payload
  named : is_request_id request_id ≡ true

same_kind-eq : (a b : ControlKind) → same_kind a b ≡ true → a ≡ b
same_kind-eq ControlKind.cancel ControlKind.cancel h = refl
same_kind-eq ControlKind.steer ControlKind.steer h = refl
same_kind-eq ControlKind.pause ControlKind.pause h = refl
same_kind-eq ControlKind.cancel ControlKind.steer h = absurd (ground arith)
same_kind-eq ControlKind.cancel ControlKind.pause h = absurd (ground arith)
same_kind-eq ControlKind.steer ControlKind.cancel h = absurd (ground arith)
same_kind-eq ControlKind.steer ControlKind.pause h = absurd (ground arith)
same_kind-eq ControlKind.pause ControlKind.cancel h = absurd (ground arith)
same_kind-eq ControlKind.pause ControlKind.steer h = absurd (ground arith)

repeated-Stored :
    (run_id : String) (payload : ControlPayload) (request_id : String) (db next : RunDatabase)
    (run : RunRow) (existing row : ControlRow)
    → is_request_id request_id ≡ true
    → get_run db run_id ≡ some run
    → get request_id db.control_inbox ≡ some existing
    → repeated run_id payload db existing ≡ ok (row, next)
    → Stored run_id payload request_id row next
repeated-Stored run_id payload request_id db next run existing row good is_there found done =
    elim (Bool-cases (
      str_eq existing.run_id run_id
      && same_kind existing.kind (kind_of payload)
      && str_eq (encode existing.payload) (encode payload))) [
        | inr other ↦ absurd (ground arith)
        | inl same ↦
            let result : Path (ControlRow × RunDatabase) (existing, db) (row, next) = ok-injective (
              sym (
                guard-ok
                  (str_eq existing.run_id run_id
                    && same_kind existing.kind (kind_of payload)
                    && str_eq (encode existing.payload) (encode payload))
                  EngineErrorCode.control_conflict (existing, db)
                ∙ ap (λ b. if b then ok (existing, db) else err EngineErrorCode.control_conflict)
                    same)
              ∙ done) in
            let row_same = ap (λ r. r.0) result in
            let db_same = ap (λ r. r.1) result in
            subst (λ (r : ControlRow). Stored run_id payload request_id r next) row_same
              (subst (λ (d : RunDatabase). Stored run_id payload request_id existing d) db_same
                (record {
                  run = run;
                  run_there = is_there;
                  found = found;
                  of_run = ground arith;
                  of_kind = same_kind-eq existing.kind (kind_of payload) (ground arith);
                  of_payload = (eq_iff (encode existing.payload) (encode payload)).0 (ground arith);
                  named = good;
                }))
      ]

insert-Stored :
    (run_id : String) (payload : ControlPayload) (request_id : String) (at : ℕ)
    (db next : RunDatabase) (run : RunRow) (row : ControlRow)
    → is_request_id request_id ≡ true
    → get_run db run_id ≡ some run
    → insert_control run_id payload request_id at db run ≡ ok (row, next)
    → Stored run_id payload request_id row next
insert-Stored run_id payload request_id at db next run row good is_there done =
    elim (Bool-cases (is_terminal run)) [
      | inl over ↦ absurd (ground arith)
      | inr going ↦
          elim (Bool-cases (
            is_steering payload
            && is_full (keep (is_pending run_id ControlKind.steer) db.control_inbox) payload)) [
              | inl full ↦ absurd (ground arith)
              | inr room ↦
                  let put_in = record db {
                    control_inbox =
                        put request_id (new_control run_id payload at run) db.control_inbox;
                  } in
                  let computed : insert_control run_id payload request_id at db run
                      ≡ ok (
                        new_control run_id payload at run,
                        appended put_in run (event_of payload request_id) at,
                      ) =
                    rw (going, room, is_there) refl in
                  let result = ok-injective (sym computed ∙ done) in
                  let (_, same_run) = named-some run_id db.run run is_there in
                  subst (λ (r : ControlRow). Stored run_id payload request_id r next)
                    (ap (λ r. r.0) result)
                    (subst
                      (λ (d : RunDatabase).
                        Stored run_id payload request_id (new_control run_id payload at run) d)
                      (ap (λ r. r.1) result)
                      (record {
                        run = record run {
                          next_event_sequence = suc run.next_event_sequence;
                          current_revision = db.revision;
                          updated_at = at;
                        };
                        run_there = rw same_run refl;
                        found =
                            get-put_self request_id (new_control run_id payload at run)
                              db.control_inbox;
                        of_run = eq_refl run_id;
                        of_kind = refl;
                        of_payload = refl;
                        named = good;
                      }))
            ]
    ]

append-Stored :
    (run_id : String) (payload : ControlPayload) (request_id : String) (at : ℕ)
    (db next : RunDatabase) (row : ControlRow)
    → append_control run_id payload request_id at db ≡ ok (row, next)
    → Stored run_id payload request_id row next
unfolding append_control
append-Stored run_id payload request_id at db next row done =
    elim (Bool-cases (is_request_id request_id)) [
      | inr bad ↦ absurd (ground arith)
      | inl good ↦ elim (Option-cases (get_run db run_id)) [
        | inl gone ↦ absurd (ground arith)
        | inr (run, is_there) ↦ elim (Option-cases (get request_id db.control_inbox)) [
          | inl fresh ↦
              insert-Stored run_id payload request_id at (record db { revision = suc db.revision })
                next run row good is_there (rw (good, is_there, fresh) at done)
          | inr (existing, found) ↦
              repeated-Stored run_id payload request_id (record db { revision = suc db.revision })
                next run existing row good is_there found (rw (good, is_there, found) at done)
        ]
      ]
    ]

-- After an append that succeeded, the same request made again, at any time, returns the same row;
-- it leaves the run, the lease, the events, the controls and the attempts as they are, and only the
-- durable revision counts up, as it does for every transaction of the inbox. Made with another
-- payload or another kind of control, the request fails with `control_conflict`.
pub append_is_idempotent :
    (run_id : String) (payload other : ControlPayload) (request_id : String) (at later : ℕ)
    (db next : RunDatabase) (row : ControlRow)
    → append_control run_id payload request_id at db ≡ ok (row, next)
    → append_control run_id other request_id later next ≡ (
        if same_kind (kind_of payload) (kind_of other) && str_eq (encode payload) (encode other)
        then ok (row, record next { revision = suc next.revision })
        else err EngineErrorCode.control_conflict)
unfolding append_control
append_is_idempotent run_id payload other request_id at later db next row done =
    let stored = append-Stored run_id payload request_id at db next row done in
    rw
      (
        stored.named, stored.run_there, stored.found, stored.of_run, stored.of_kind,
        stored.of_payload,
      )
      (guard-ok
        (same_kind (kind_of payload) (kind_of other) && str_eq (encode payload) (encode other))
        EngineErrorCode.control_conflict
        (record row { kind = kind_of payload }, record next { revision = suc next.revision }))
