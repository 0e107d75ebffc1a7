-- ===== src/Session/Application/Replayed.antt =====
-- Every operation of a live session leaves it a replay of its journal but for redacted texts.
use specrails_core.Prelude.{refl, String, List}
use specrails_core.Session.Events.{SessionChanges}
use specrails_core.Session.Snapshot.{OpenTurn}
use specrails_core.Session.Events.{TurnEnd}
use specrails_core.Session.Drivers.Events.{DriverTurn, TurnTrigger}
use specrails_core.Session.Application.Live.{Deps, Teardown}
use specrails_core.Session.Application.Work.{
  begin_retire, end_running_work, finish_close, finish_retire, recover_after_host_loss,
}
use specrails_core.Session.Application.Settlement.{
  after_subagent_change, apply_changes, deliver_delegated_results, enter_background, enter_idle,
  hand_off, maybe_resume_agent, on_settled, settle_phase_after_turn,
}
use specrails_core.Session.Application.Turns.{
  complete_live_turn, finish_turn, begin_turn, release_held_input, start_live_turn,
}
use specrails_core.Session.Application.Replay.{
  Replays, arm-Replays, cancel-Replays, choose-Replays, commit-Replays, commit_with-Replays,
  detached-Replays, ensure-Replays, flushed-Replays, look-Replays, option-Replays, ask-Replays,
  set-Replays, skip-Replays, then-Replays, throw-Replays, when-Replays,
}

pub end-Replays : (deps : Deps) (teardown : Teardown) → Replays (end_running_work deps teardown)
unfolding end_running_work
end-Replays deps teardown =
    then-Replays (when-Replays _ (then-Replays (cancel-Replays _) (flushed-Replays deps))) (
      look-Replays (λ live.
        then-Replays (set-Replays _ (λ l. refl) (λ l. refl) (λ l. refl))
          (when-Replays _ (commit-Replays deps _))))

pub retire-Replays :
    (reason : String) (teardown : Teardown) → Replays (begin_retire reason teardown)
unfolding begin_retire
retire-Replays reason teardown = then-Replays (cancel-Replays _) (
    then-Replays (when-Replays _ (set-Replays _ (λ l. refl) (λ l. refl) (λ l. refl)))
      (when-Replays _ (ask-Replays _)))

pub retired-Replays :
    (deps : Deps) (reason : String) (teardown : Teardown)
    → Replays (finish_retire deps reason teardown)
unfolding finish_retire
retired-Replays deps reason teardown =
    then-Replays (set-Replays _ (λ l. refl) (λ l. refl) (λ l. refl))
      (then-Replays (end-Replays deps teardown) (look-Replays (λ live. commit-Replays deps _)))

pub close-Replays : (deps : Deps) (reason : String) → Replays (finish_close deps reason)
unfolding finish_close
close-Replays deps reason =
    then-Replays (commit-Replays deps _) (set-Replays _ (λ l. refl) (λ l. refl) (λ l. refl))

pub recover-Replays :
    (deps : Deps) (reason : String) → Replays (recover_after_host_loss deps reason)
unfolding recover_after_host_loss
recover-Replays deps reason = look-Replays (λ before.
    then-Replays (when-Replays _ (commit-Replays deps _)) (
      then-Replays (end-Replays deps _)
        (when-Replays _ (look-Replays (λ live. commit-Replays deps _)))))

pub changes-Replays :
    (deps : Deps) (changes : SessionChanges) → Replays (apply_changes deps changes)
unfolding apply_changes
changes-Replays deps changes =
    then-Replays (set-Replays _ (λ l. refl) (λ l. refl) (λ l. refl))
      (then-Replays (commit-Replays deps _) (when-Replays _ (retire-Replays _ _)))

idle-Replays : (deps : Deps) → Replays (enter_idle deps)
unfolding enter_idle
idle-Replays deps = then-Replays (cancel-Replays _) (
    look-Replays (λ live.
      option-Replays live.pending_deferred (when-Replays _ (arm-Replays "idle")) (λ changes.
        then-Replays (set-Replays _ (λ l. refl) (λ l. refl) (λ l. refl))
          (detached-Replays (changes-Replays deps changes)))))

background-Replays : Replays enter_background
unfolding enter_background
background-Replays = then-Replays (arm-Replays "stall") (ensure-Replays "backgroundMax")

pub change-Replays : (deps : Deps) → Replays (after_subagent_change deps)
unfolding after_subagent_change
change-Replays deps = look-Replays (λ live.
    choose-Replays _
      (then-Replays (cancel-Replays _) (
        then-Replays (when-Replays _ (commit-Replays deps _))
          (when-Replays _ (then-Replays (commit-Replays deps _) background-Replays))))
      (when-Replays _ (arm-Replays "settle")))

hand_off-Replays : (deps : Deps) (text : String) → Replays (hand_off deps text)
unfolding hand_off
hand_off-Replays deps text =
    then-Replays (set-Replays _ (λ l. refl) (λ l. refl) (λ l. refl))
      (then-Replays (commit-Replays deps _) (ask-Replays _))

resume-Replays : (deps : Deps) → Replays (maybe_resume_agent deps)
unfolding maybe_resume_agent
resume-Replays deps = when-Replays _ (hand_off-Replays deps _)

deliver-Replays : (deps : Deps) → Replays (deliver_delegated_results deps)
unfolding deliver_delegated_results
deliver-Replays deps = look-Replays (λ live.
    then-Replays (set-Replays _ (λ l. refl) (λ l. refl) (λ l. refl)) (hand_off-Replays deps _))

pub settled-Replays : (deps : Deps) → Replays (on_settled deps)
unfolding on_settled
settled-Replays deps = when-Replays _ (
    then-Replays (commit-Replays deps _) (
      when-Replays _ (
        then-Replays (when-Replays _ (then-Replays (commit-Replays deps _) (idle-Replays deps)))
          (choose-Replays _ (deliver-Replays deps) (resume-Replays deps)))))

after_turn-Replays : (deps : Deps) → Replays (settle_phase_after_turn deps)
unfolding settle_phase_after_turn
after_turn-Replays deps = look-Replays (λ before. then-Replays (commit-Replays deps _) (
    then-Replays (choose-Replays _ background-Replays (idle-Replays deps))
      (choose-Replays _ (change-Replays deps) (when-Replays _ (deliver-Replays deps)))))

open-Replays :
    (deps : Deps) (trigger : TurnTrigger) (ids : List String)
    → Replays (begin_turn deps trigger ids)
unfolding begin_turn
open-Replays deps trigger ids = look-Replays (λ live.
    then-Replays (set-Replays _ (λ l. refl) (λ l. refl) (λ l. refl))
      (then-Replays (cancel-Replays _) (then-Replays (commit-Replays deps _) (arm-Replays _))))

pub start-Replays :
    (deps : Deps) (trigger : TurnTrigger) (ids : List String)
    → Replays (start_live_turn deps trigger ids)
unfolding start_live_turn
start-Replays deps trigger ids = choose-Replays _ (throw-Replays _) (open-Replays deps trigger ids)

release-Replays : Replays release_held_input
unfolding release_held_input
release-Replays = when-Replays _ (
    look-Replays (λ live.
      then-Replays (set-Replays _ (λ l. refl) (λ l. refl) (λ l. refl))
        (option-Replays _ skip-Replays (λ input. ask-Replays _))))

finish_turn-Replays :
    (deps : Deps) (e : DriverTurn) (turn : OpenTurn) (status : TurnEnd)
    → Replays (finish_turn deps e turn status)
unfolding finish_turn
finish_turn-Replays deps e turn status =
    then-Replays
      (look-Replays (λ live.
        then-Replays (set-Replays _ (λ l. refl) (λ l. refl) (λ l. refl))
          (commit_with-Replays deps _ _)))
      (then-Replays (after_turn-Replays deps) release-Replays)

pub complete-Replays : (deps : Deps) (e : DriverTurn) → Replays (complete_live_turn deps e)
unfolding complete_live_turn
complete-Replays deps e = look-Replays (λ before.
    option-Replays before.state.open_turn (throw-Replays _) (λ turn.
      then-Replays (cancel-Replays _) (
        then-Replays (set-Replays _ (λ l. refl) (λ l. refl) (λ l. refl)) (
          then-Replays (when-Replays _ (then-Replays (cancel-Replays _) (flushed-Replays deps)))
            (finish_turn-Replays deps e turn _)))))
