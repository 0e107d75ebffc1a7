-- ===== src/Session/Application/Driven.antt =====
-- Every event of a driver, and every run of operations, leaves a live session a replay of its
-- journal but for redacted texts.
use specrails_core.Prelude.{ℕ, refl, String, Option, List, [], ◌∷◌}
use specrails_core.Session.Types.{SessionErrorCode, SubagentPhase}
use specrails_core.Session.Events.{SessionChanges, ToolActivity}
use specrails_core.Session.Types.{OutputChannel}
use specrails_core.Session.Snapshot.{SessionSnapshot}
use specrails_core.Session.OutputBuffer.{TextDelta}
use specrails_core.Session.Drivers.Events.{
  DriverEvent, DriverSubagent, DriverSubagentUsage, ReceiptState, SubagentText,
}
use specrails_core.Session.Application.Live.{Live, Action, Deps, Teardown}
use specrails_core.Session.Application.Commit.{commit_flushed}
use specrails_core.Session.Application.Work.{
  begin_retire, finish_close, finish_retire, recover_after_host_loss,
}
use specrails_core.Session.Application.Settlement.{apply_changes, on_settled}
use specrails_core.Session.Application.TurnEvents.{
  buffer_delta, forget_pending_interrupt, input_receipt, mark_activity, new_ref, output_text,
  process_exited, track_tool_in_flight, use_tool,
}
use specrails_core.Session.Application.SubagentEvents.{
  block_subagent, new_roster, subagent_begins, subagent_moves, subagent_says, subagent_uses,
}
use specrails_core.Session.Application.Handlers.{
  caught, handle_driver_event, handle_kind, on_driver_event, report_refusal,
}
use specrails_core.Session.Application.Replay.{
  IsReplayed, Replays, arm-Replays, buffered-Replays, cancel-Replays, choose-Replays,
  commit-Replays, detached-Replays, flushed-Replays, look-Replays, option-Replays, ask-Replays,
  set-Replays, skip-Replays, then-Replays, throw-Replays, when-Replays,
}
use specrails_core.Session.Application.Delegated.{
  ChildOutcome, DelegatedChild, collect_delegated, delegated_finished, delegated_output,
  delegated_started, finish_child,
}
use specrails_core.Session.Application.Replayed.{
  change-Replays, close-Replays, complete-Replays, end-Replays, recover-Replays, retire-Replays,
  retired-Replays, settled-Replays, start-Replays, changes-Replays,
}

track-Replays : (event : DriverEvent) → Replays (track_tool_in_flight event)
unfolding track_tool_in_flight
track-Replays event =
    option-Replays _ skip-Replays
      (λ tool. when-Replays _ (set-Replays _ (λ l. refl) (λ l. refl) (λ l. refl)))

activity-Replays : Replays mark_activity
unfolding mark_activity
activity-Replays = then-Replays (when-Replays _ (arm-Replays _)) (when-Replays _ (arm-Replays _))

exited-Replays :
    (deps : Deps) (exit_code : Option ℕ) (signal : Option String)
    → Replays (process_exited deps exit_code signal)
unfolding process_exited
exited-Replays deps exit_code signal = when-Replays _ (
    then-Replays (set-Replays _ (λ l. refl) (λ l. refl) (λ l. refl)) (
      then-Replays (cancel-Replays _) (
        then-Replays (set-Replays _ (λ l. refl) (λ l. refl) (λ l. refl))
          (then-Replays (end-Replays deps _) (look-Replays (λ live. commit-Replays deps _))))))

ref-Replays : (deps : Deps) (ref : String) → Replays (new_ref deps ref)
unfolding new_ref
ref-Replays deps ref = when-Replays _ (
    then-Replays
      (look-Replays (λ live.
        option-Replays _ skip-Replays
          (λ baseline. set-Replays _ (λ l. refl) (λ l. refl) (λ l. refl))))
      (commit-Replays deps _))

forget-Replays : (id : String) → Replays (forget_pending_interrupt id)
unfolding forget_pending_interrupt
forget-Replays id = set-Replays _ (λ l. refl) (λ l. refl) (λ l. refl)

receipt-Replays :
    (deps : Deps) (id : String) (state : ReceiptState) (reason : Option String)
    → Replays (input_receipt deps id state reason)
unfolding input_receipt
receipt-Replays deps id state reason = look-Replays (λ before.
    option-Replays _ skip-Replays (λ input.
      when-Replays _ (then-Replays (when-Replays _ (forget-Replays id)) (commit-Replays deps _))))

delta-Replays : (deps : Deps) (delta : TextDelta) → Replays (buffer_delta deps delta)
unfolding buffer_delta
delta-Replays deps delta = look-Replays (λ live.
    then-Replays (set-Replays _ (λ l. refl) (λ l. refl) (λ l. refl)) (buffered-Replays deps _))

output-Replays :
    (deps : Deps) (channel : OutputChannel) (delta : String)
    → Replays (output_text deps channel delta)
unfolding output_text
output-Replays deps channel delta = look-Replays (λ live.
    option-Replays live.state.open_turn (throw-Replays _) (λ turn.
      then-Replays (set-Replays _ (λ l. refl) (λ l. refl) (λ l. refl)) (delta-Replays deps _)))

tool-Replays : (deps : Deps) (tool : ToolActivity) → Replays (use_tool deps tool)
unfolding use_tool
tool-Replays deps tool = look-Replays (λ live.
    option-Replays live.state.open_turn (throw-Replays _) (λ turn.
      then-Replays (set-Replays _ (λ l. refl) (λ l. refl) (λ l. refl)) (commit-Replays deps _)))

block-Replays : (deps : Deps) (id : String) → Replays (block_subagent deps id)
unfolding block_subagent
block-Replays deps id = then-Replays (commit-Replays deps _) (ask-Replays _)

begins-Replays : (deps : Deps) (e : DriverSubagent) → Replays (subagent_begins deps e)
unfolding subagent_begins
begins-Replays deps e = then-Replays (set-Replays _ (λ l. refl) (λ l. refl) (λ l. refl)) (
    then-Replays (commit-Replays deps _) (
      then-Replays (change-Replays deps)
        (when-Replays _ (detached-Replays (block-Replays deps _)))))

moves-Replays :
    (deps : Deps) (id : String) (phase : SubagentPhase) (reason : Option String)
    → Replays (subagent_moves deps id phase reason)
unfolding subagent_moves
moves-Replays deps id phase reason =
    then-Replays
      (look-Replays (λ live.
        then-Replays (set-Replays _ (λ l. refl) (λ l. refl) (λ l. refl)) (commit-Replays deps _)))
      (change-Replays deps)

says-Replays :
    (deps : Deps) (id : String) (said : SubagentText) → Replays (subagent_says deps id said)
unfolding subagent_says
says-Replays deps id (SubagentText.text delta) = delta-Replays deps _
says-Replays deps id (SubagentText.tool tool) = commit-Replays deps _

uses-Replays : (deps : Deps) (e : DriverSubagentUsage) → Replays (subagent_uses deps e)
unfolding subagent_uses
uses-Replays deps e = look-Replays (λ live. commit-Replays deps _)

roster-Replays : (deps : Deps) (ids : List String) → Replays (new_roster deps ids)
unfolding new_roster
roster-Replays deps ids =
    then-Replays (set-Replays _ (λ l. refl) (λ l. refl) (λ l. refl)) (change-Replays deps)

kind-Replays : (deps : Deps) (event : DriverEvent) → Replays (handle_kind deps event)
unfolding handle_kind
kind-Replays deps (DriverEvent.process_started pid version) = commit-Replays deps _
kind-Replays deps (DriverEvent.process_exited exit_code signal) =
    exited-Replays deps exit_code signal
kind-Replays deps (DriverEvent.provider_ref ref) = ref-Replays deps ref
kind-Replays deps (DriverEvent.input_receipt id state reason) = receipt-Replays deps id state reason
kind-Replays deps (DriverEvent.turn_started trigger ids) = start-Replays deps trigger ids
kind-Replays deps (DriverEvent.turn_output channel delta) = output-Replays deps channel delta
kind-Replays deps (DriverEvent.turn_tool tool) = tool-Replays deps tool
kind-Replays deps (DriverEvent.turn_completed e) = complete-Replays deps e
kind-Replays deps (DriverEvent.subagent_started e) = begins-Replays deps e
kind-Replays deps (DriverEvent.subagent_phase id phase reason) = moves-Replays deps id phase reason
kind-Replays deps (DriverEvent.subagent_output id said) = says-Replays deps id said
kind-Replays deps (DriverEvent.subagent_usage e) = uses-Replays deps e
kind-Replays deps (DriverEvent.subagent_result id summary) = commit-Replays deps _
kind-Replays deps (DriverEvent.roster ids) = roster-Replays deps ids
kind-Replays deps (DriverEvent.diagnostic level code message) = commit-Replays deps _

refusal-Replays : (deps : Deps) (code : SessionErrorCode) → Replays (report_refusal deps code)
unfolding report_refusal
refusal-Replays deps code = option-Replays _ (throw-Replays code) (λ name. commit-Replays deps _)

caught-Replays :
    {action : Action} {recover : SessionErrorCode → Action}
    → Replays action
    → ((code : SessionErrorCode) → Replays (recover code))
    → Replays (caught action recover)
unfolding caught
caught-Replays {action} r h = record {
  keeps = λ start live before.
      (option-Replays (action live).thrown skip-Replays h).keeps start (action live).live
        (r.keeps start live before);
}

driven-Replays :
    (deps : Deps) (generation : ℕ) (event : DriverEvent)
    → Replays (on_driver_event deps generation event)
unfolding on_driver_event handle_driver_event
driven-Replays deps generation event = when-Replays _ (
    caught-Replays
      (then-Replays (track-Replays event) (then-Replays activity-Replays (kind-Replays deps event)))
      (refusal-Replays deps))

child-Replays : (deps : Deps) (child : DelegatedChild) → Replays (delegated_started deps child)
unfolding delegated_started
child-Replays deps child =
    choose-Replays _ (throw-Replays _) (then-Replays (commit-Replays deps _) (change-Replays deps))

child_says-Replays :
    (deps : Deps) (id : String) (said : SubagentText) → Replays (delegated_output deps id said)
unfolding delegated_output
child_says-Replays deps id (SubagentText.text delta) = when-Replays _ (delta-Replays deps _)
child_says-Replays deps id (SubagentText.tool tool) = when-Replays _ (commit-Replays deps _)

child_ends-Replays :
    (deps : Deps) (id : String) (outcome : ChildOutcome)
    → Replays (delegated_finished deps id outcome)
unfolding delegated_finished finish_child
child_ends-Replays deps id outcome = look-Replays (λ before. option-Replays _ skip-Replays (λ node.
    when-Replays _ (
      then-Replays
        (look-Replays (λ live.
          then-Replays (set-Replays _ (λ l. refl) (λ l. refl) (λ l. refl)) (commit-Replays deps _)))
        (then-Replays (when-Replays _ (set-Replays _ (λ l. refl) (λ l. refl) (λ l. refl)))
          (change-Replays deps)))))

collect-Replays : (ids : List String) → Replays (collect_delegated ids)
unfolding collect_delegated
collect-Replays ids = set-Replays _ (λ l. refl) (λ l. refl) (λ l. refl)

-- What happens to a live session.
pub data SessionOp : Type 0 where
  driver_event : (generation : ℕ) (event : DriverEvent) → SessionOp
  settle_elapsed : SessionOp
  flush_elapsed : SessionOp
  retire_begun retire_done : (reason : String) (teardown : Teardown) → SessionOp
  close_done : (reason : String) → SessionOp
  changes_applied : (changes : SessionChanges) → SessionOp
  host_recovered : (reason : String) → SessionOp
  child_started : (child : DelegatedChild) → SessionOp
  child_said : (id : String) (said : SubagentText) → SessionOp
  child_finished : (id : String) (outcome : ChildOutcome) → SessionOp
  children_collected : (ids : List String) → SessionOp

abbrev pub run_op : Deps → SessionOp → Action
run_op deps (SessionOp.driver_event generation event) = on_driver_event deps generation event
run_op deps SessionOp.settle_elapsed = on_settled deps
run_op deps SessionOp.flush_elapsed = commit_flushed deps
run_op deps (SessionOp.retire_begun reason teardown) = begin_retire reason teardown
run_op deps (SessionOp.retire_done reason teardown) = finish_retire deps reason teardown
run_op deps (SessionOp.close_done reason) = finish_close deps reason
run_op deps (SessionOp.changes_applied changes) = apply_changes deps changes
run_op deps (SessionOp.host_recovered reason) = recover_after_host_loss deps reason
run_op deps (SessionOp.child_started child) = delegated_started deps child
run_op deps (SessionOp.child_said id said) = delegated_output deps id said
run_op deps (SessionOp.child_finished id outcome) = delegated_finished deps id outcome
run_op deps (SessionOp.children_collected ids) = collect_delegated ids

op-Replays : (deps : Deps) (op : SessionOp) → Replays (run_op deps op)
op-Replays deps (SessionOp.driver_event generation event) = driven-Replays deps generation event
op-Replays deps SessionOp.settle_elapsed = settled-Replays deps
op-Replays deps SessionOp.flush_elapsed = flushed-Replays deps
op-Replays deps (SessionOp.retire_begun reason teardown) = retire-Replays reason teardown
op-Replays deps (SessionOp.retire_done reason teardown) = retired-Replays deps reason teardown
op-Replays deps (SessionOp.close_done reason) = close-Replays deps reason
op-Replays deps (SessionOp.changes_applied changes) = changes-Replays deps changes
op-Replays deps (SessionOp.host_recovered reason) = recover-Replays deps reason
op-Replays deps (SessionOp.child_started child) = child-Replays deps child
op-Replays deps (SessionOp.child_said id said) = child_says-Replays deps id said
op-Replays deps (SessionOp.child_finished id outcome) = child_ends-Replays deps id outcome
op-Replays deps (SessionOp.children_collected ids) = collect-Replays ids

-- The session after the operations, each with its own reading of the clock, whatever they throw.
unfoldable pub after_ops : Live → List (Deps × SessionOp) → Live
after_ops live [] = live
after_ops live ((deps, op) ∷ ops) = after_ops (run_op deps op live).live ops

-- A live session whose journal folds, from a snapshot, to its state but for free texts, and whose
-- stored snapshot is its state but for free texts, stays so, with the redacted copies that reach the
-- journal on the way: whatever a driver reports, from whichever process, whatever delegated children
-- do, and whatever is settled, flushed, retired, closed, changed and recovered, refused or not. With
-- the free texts go the lengths and fingerprints of inputs' texts.
pub live-IsReplayed :
    (start : SessionSnapshot) (live : Live) (ops : List (Deps × SessionOp))
    → IsReplayed start live
    → IsReplayed start (after_ops live ops)
unfolding after_ops
live-IsReplayed start live [] h = h
live-IsReplayed start live ((deps, op) ∷ ops) h =
    live-IsReplayed start (run_op deps op live).live ops ((op-Replays deps op).keeps start live h)
