-- ===== src/Engine/Examples.antt =====
-- Runs of the budgets.
use specrails_core.Prelude.{
  ◌≡◌, refl, true, not, ◌&&◌, is_some, some, none, Option, List, [], ◌∷◌, ◌++◌, ◌≤◌, false, length,
  ok,
}
use specrails_core.Engine.Budget.{
  EngineUsage, WorkflowBudget, Limit, SentBudget, budget_error, remaining_budget, intersect_budgets,
  intersect_from, merge_budget, merge_limit,
}
use specrails_core.Engine.Gate.{
  ConcurrencyGate, Waiter, new_gate, acquire, abort, release, drain_permits, drain_queue,
  without_waiter, weight_of,
}
use specrails_core.Engine.Permits.{GateOp, after_op, after_ops, no_deadlock, write_excludes}
use specrails_core.Engine.Arrivals.{InOrder, arrivals, served-InOrder}
use specrails_core.Engine.BudgetLimits.{
  BudgetKey, limit_at, lowest, has_headroom, intersect_budgets-lowest, admitted_iff_headroom,
}

abbrev host : SentBudget
host = record {
  max_cost_usd = Limit.at_most 10;
  max_tokens = Limit.unlimited;
  max_duration_ms = Limit.at_most 60000;
}

abbrev imported : SentBudget
imported = record {
  max_cost_usd = Limit.at_most 25;
  max_tokens = Limit.at_most 4000;
  max_duration_ms = Limit.unlimited;
}

abbrev sent : List (Option SentBudget)
sent = some host ∷ none ∷ some imported ∷ []

abbrev agreed : WorkflowBudget
agreed = record { max_cost_usd = some 10; max_tokens = some 4000; max_duration_ms = some 60000 }

sent_agrees : intersect_budgets sent ≡ ok agreed
unfolding intersect_budgets intersect_from merge_budget merge_limit
sent_agrees = refl

intersect_budgets-lowest_example : limit_at BudgetKey.cost agreed ≡ lowest BudgetKey.cost sent
intersect_budgets-lowest_example = intersect_budgets-lowest BudgetKey.cost sent agreed sent_agrees

abbrev spent : EngineUsage
spent = record { known_cost_usd = 3; known_input_tokens = 3000; known_output_tokens = 1000 }

admitted_iff_headroom_example : not (is_some (budget_error spent agreed 100 true)) ≡ (
    has_headroom
      (remaining_budget spent agreed 100 (record { cost_usd = 0; tokens = 0 })).max_cost_usd
    && has_headroom
        (remaining_budget spent agreed 100 (record { cost_usd = 0; tokens = 0 })).max_tokens
    && has_headroom
        (remaining_budget spent agreed 100 (record { cost_usd = 0; tokens = 0 })).max_duration_ms)
admitted_iff_headroom_example = admitted_iff_headroom spent agreed 100

abbrev reader : Waiter
reader = record { id = 1; weight = 1 }

abbrev writer : Waiter
writer = record { id = 2; weight = 5 }

abbrev late_reader : Waiter
late_reader = record { id = 3; weight = 1 }

abbrev impatient : Waiter
impatient = record { id = 4; weight = 2 }

abbrev repository_gate : ConcurrencyGate
repository_gate = record { capacity = 5; available = 5; queue = []; held = [] }

repository_gate_made : new_gate 5 ≡ ok repository_gate
unfolding new_gate
repository_gate_made = refl

abbrev asked : List GateOp
asked =
    GateOp.acquire_op false reader
    ∷ GateOp.acquire_op false writer
    ∷ GateOp.acquire_op true impatient
    ∷ GateOp.acquire_op false impatient
    ∷ GateOp.acquire_op false late_reader
    ∷ GateOp.abort_op 4
    ∷ GateOp.release_op 1
    ∷ []

-- The writer waits for the reader, and the late reader for the writer.
writer_alone : (after_ops repository_gate asked).0.held ≡ writer ∷ []
unfolding after_ops after_op acquire abort release drain_permits drain_queue without_waiter
    weight_of
writer_alone = refl

write_excludes_example : length (after_ops repository_gate asked).0.held ≤ 1
write_excludes_example =
    write_excludes 5 repository_gate asked repository_gate_made (rw writer_alone refl)

abbrev finished : List GateOp
finished = asked ++ (GateOp.release_op 2 ∷ GateOp.release_op 3 ∷ GateOp.release_op 3 ∷ [])

nothing_held : (after_ops repository_gate finished).0.held ≡ []
unfolding after_ops after_op acquire abort release drain_permits drain_queue without_waiter
    weight_of
nothing_held = refl

no_deadlock_example : (after_ops repository_gate finished).0.queue ≡ []
no_deadlock_example = no_deadlock 5 repository_gate finished repository_gate_made nothing_held

served-InOrder_example :
    InOrder
      ((after_ops repository_gate asked).1 ++ (after_ops repository_gate asked).0.queue)
      (arrivals asked)
served-InOrder_example = served-InOrder 5 repository_gate asked repository_gate_made
