-- ===== src/Engine/RunExamples.antt =====
-- Leases and controls of one run.
use specrails_core.Prelude.Dict.{get, put}
use specrails_core.Prelude.Texts.{byte_length, text_length, json_string}
use specrails_core.Prelude.{
  ◌≡◌, ◌≤◌, ◌-◌, refl, true, false, ◌&&◌, some, none, List, [], ◌∷◌, str_eq, suc, ok, err,
  if◌then◌else◌, arith,
}
use specrails_core.Engine.Contracts.{EngineErrorCode, EngineRunStatus, ExecutionLease}
use specrails_core.Engine.Database.{
  RunRow, RunDatabase, ControlKind, ControlPayload, ControlRow, get_run,
}
use specrails_core.Engine.Lease.{acquire, assert, renew, release}
use specrails_core.Engine.LeaseSteps.{LeaseOp, committed}
use specrails_core.Engine.LeaseSteps
use specrails_core.Engine.Fencing.{held_lease_refuses, late_token_fails}
use specrails_core.Engine.ActiveTime.{charged_once, last_time}
use specrails_core.Engine.Inbox.{append_control, encode, same_kind}
use specrails_core.Engine.Consumption.{is_admitted, claim_row, claim_for_attempt}
use specrails_core.Engine.Delivery.{InboxOp, delivered_once}
use specrails_core.Engine.Delivery
use specrails_core.Engine.InboxBounds.{IsBounded, inbox-IsBounded}
use specrails_core.Engine.Retries.{append_is_idempotent}

abbrev fresh_run : RunRow
fresh_run = record {
  run_id = "run-1";
  status = EngineRunStatus.running;
  is_complete = false;
  current_revision = 0;
  lease_epoch = 0;
  next_event_sequence = 1;
  active_duration_ms = 0;
  active_started_at = none;
  updated_at = 0;
}

abbrev fresh : RunDatabase
fresh = record {
  run = some fresh_run;
  lease = none;
  events = [];
  control_inbox = [];
  attempts = ("attempt-1", record { run_id = "run-1"; is_running = true; lease_epoch = 1 }) ∷ [];
  revision = 0;
}

abbrev first_token : ExecutionLease
first_token = record { run_id = "run-1"; owner = "host-a"; epoch = 1; expires_at = 1100 }

abbrev second_token : ExecutionLease
second_token = record { run_id = "run-1"; owner = "host-b"; epoch = 2; expires_at = 3000 }

abbrev leased : RunDatabase
leased = committed fresh (acquire "run-1" "host-a" 100 1000 fresh)

abbrev recovered_lease : RunDatabase
recovered_lease = committed leased (acquire "run-1" "host-b" 1000 2000 leased)

first_accepted : assert "run-1" first_token 1050 leased ≡ ok tt
unfolding acquire assert
first_accepted = refl

abbrev leased_run : RunRow
leased_run = record fresh_run {
  current_revision = 1;
  lease_epoch = 1;
  active_started_at = some 1000;
  updated_at = 1000;
}

leased_run_is : get_run leased "run-1" ≡ some leased_run
unfolding acquire
leased_run_is = refl

held_lease_refuses_example :
    acquire "run-1" "host-b" 1000 1050 leased ≡ err EngineErrorCode.lease_held
held_lease_refuses_example =
    held_lease_refuses "run-1" "host-b" 1000 1050 leased leased_run first_token refl leased_run_is
      first_accepted

second_acquired : acquire "run-1" "host-b" 1000 2000 leased ≡ ok (second_token, recovered_lease)
unfolding acquire
second_acquired = refl

abbrev afterwards : List LeaseOp
afterwards =
    LeaseOp.renew_op first_token 500 2100 2100
    ∷ LeaseOp.release_op second_token 2500
    ∷ LeaseOp.acquire_op "host-c" 100 2600
    ∷ []

late_token_fails_example :
    (assert "run-1" first_token 2650 (LeaseSteps.after_ops "run-1" recovered_lease afterwards)
      ≡ err EngineErrorCode.lease_lost)
    × (renew "run-1" first_token 60000 2650 2650
          (LeaseSteps.after_ops "run-1" recovered_lease afterwards)
        ≡ err EngineErrorCode.lease_lost)
late_token_fails_example =
    late_token_fails "run-1" "host-b" 1000 2000 leased recovered_lease second_token first_token
      afterwards 2650 2650 60000 second_acquired (omega arith) (omega arith)

abbrev shift : List LeaseOp
shift =
    LeaseOp.acquire_op "host-a" 100 1000
    ∷ LeaseOp.acquire_op "host-b" 1000 2000
    ∷ LeaseOp.release_op second_token 2500
    ∷ []

-- Charged up to the first lease's end, and for the whole of the second.
abbrev shifted_run : RunRow
shifted_run = record fresh_run {
  current_revision = 2;
  lease_epoch = 2;
  next_event_sequence = 2;
  active_duration_ms = 600;
  updated_at = 2000;
}

shifted_run_is : (LeaseSteps.after_ops "run-1" fresh shift).run ≡ some shifted_run
unfolding LeaseSteps.after_ops LeaseSteps.after_op acquire release
shifted_run_is = refl

charged_once_example : shifted_run.active_duration_ms ≤ last_time 0 shift - 0
charged_once_example =
    charged_once "run-1" 0 fresh fresh_run shifted_run shift refl refl refl
      (omega arith, (omega arith, (omega arith, tt))) shifted_run_is

abbrev hint : ControlPayload
hint = ControlPayload.steer_payload "Use \"tabs\"." "operator"

abbrev hint_row : ControlRow
hint_row = record {
  run_id = "run-1";
  kind = ControlKind.steer;
  payload = hint;
  created_at = 10;
  received_sequence = 1;
  consumed_by_attempt_id = none;
  consumed_at = none;
}

abbrev steered : RunDatabase
steered = committed fresh (append_control "run-1" hint "request-1" 10 fresh)

hint_encoded : encode hint ≡ "{\"sender\":\"operator\",\"text\":\"Use \\\"tabs\\\".\"}"
unfolding json_string
hint_encoded = refl

steered_ok : append_control "run-1" hint "request-1" 10 fresh ≡ ok (hint_row, steered)
unfolding append_control text_length byte_length put get json_string
steered_ok = refl

append_is_idempotent_example :
    append_control "run-1" ControlPayload.cancel_payload "request-1" 20 steered ≡ (
      if same_kind ControlKind.steer ControlKind.cancel
        && str_eq (encode hint) (encode ControlPayload.cancel_payload)
      then ok (hint_row, record steered { revision = suc steered.revision })
      else err EngineErrorCode.control_conflict)
append_is_idempotent_example =
    append_is_idempotent "run-1" hint ControlPayload.cancel_payload "request-1" 10 20 fresh steered
      hint_row steered_ok

abbrev more : List InboxOp
more =
    InboxOp.append_op hint "request-1" 30
    ∷ InboxOp.claim_op "attempt-1" 1 40
    ∷ InboxOp.pauses_op 50
    ∷ InboxOp.acknowledge_op first_token 60
    ∷ []

hint_found : get "request-1" steered.control_inbox ≡ some hint_row
unfolding append_control text_length byte_length put get json_string
hint_found = refl

attempt_admitted : is_admitted "run-1" 1 (get "attempt-1" steered.attempts) ≡ true
unfolding append_control text_length byte_length put get json_string
attempt_admitted = refl

delivered_once_example :
    get "request-1"
      (Delivery.after_ops "run-1"
        (committed steered (claim_for_attempt "run-1" "attempt-1" 1 35 steered))
        more).control_inbox
    ≡ some (claim_row "attempt-1" 35 hint_row)
delivered_once_example =
    delivered_once "run-1" "attempt-1" 1 35 steered more "request-1" hint_row attempt_admitted
      hint_found refl

inbox-IsBounded_example : IsBounded "run-1" (Delivery.after_ops "run-1" fresh more).control_inbox
inbox-IsBounded_example = inbox-IsBounded "run-1" fresh more refl
