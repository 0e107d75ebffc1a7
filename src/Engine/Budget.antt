-- ===== src/Engine/Budget.antt =====
-- src/agent-runtime/engine/budget.ts: limits of cost, tokens and time. Amounts are natural numbers;
-- `floor` changes nothing. A limit that a definition brings may be invalid.
use specrails_core.Prelude.{
  ℕ, ◌+◌, ◌-◌, min, Bool, true, false, Option, none, some, List, [], ◌∷◌, ltb, leb, Result, ok, err,
  ◌>>=◌, if◌then◌else◌,
}

pub record EngineUsage : Type 0 where
  pub known_cost_usd : ℕ
  pub known_input_tokens : ℕ
  pub known_output_tokens : ℕ

pub record WorkflowBudget : Type 0 where
  pub max_cost_usd : Option ℕ
  pub max_tokens : Option ℕ
  pub max_duration_ms : Option ℕ

pub record Reserved : Type 0 where
  pub cost_usd : ℕ
  pub tokens : ℕ

pub data BudgetError : Type 0 where
  cost_budget token_budget timeout : BudgetError

-- `limit !== undefined && reached(used, limit)`
abbrev pub reached : Bool → ℕ → Option ℕ → Bool
reached admission used none = false
reached true used (some limit) = leb limit used
reached false used (some limit) = ltb limit used

unfoldable pub budget_error : EngineUsage → WorkflowBudget → ℕ → Bool → Option BudgetError
budget_error usage budget elapsed admission =
    if reached admission usage.known_cost_usd budget.max_cost_usd
    then some BudgetError.cost_budget
    else if reached admission (usage.known_input_tokens + usage.known_output_tokens)
        budget.max_tokens
    then some BudgetError.token_budget
    else if reached admission elapsed budget.max_duration_ms
    then some BudgetError.timeout
    else none

-- `Math.max(0, limit - used)`, of a limit that is there.
abbrev pub left_of : Option ℕ → ℕ → Option ℕ
left_of none used = none
left_of (some limit) used = some (limit - used)

unfoldable pub remaining_budget : EngineUsage → WorkflowBudget → ℕ → Reserved → WorkflowBudget
remaining_budget usage budget elapsed reserved = record {
  max_cost_usd = left_of budget.max_cost_usd (usage.known_cost_usd + reserved.cost_usd);
  max_tokens =
      left_of budget.max_tokens
        (usage.known_input_tokens + usage.known_output_tokens + reserved.tokens);
  max_duration_ms = left_of budget.max_duration_ms elapsed;
}

-- A limit as it is sent.
pub data Limit : Type 0 where
  unlimited invalid : Limit
  at_most : ℕ → Limit

pub record SentBudget : Type 0 where
  pub max_cost_usd : Limit
  pub max_tokens : Limit
  pub max_duration_ms : Limit

pub data EngineError : Type 0 where
  invalid_arguments : EngineError

abbrev pub no_budget : WorkflowBudget
no_budget = record { max_cost_usd = none; max_tokens = none; max_duration_ms = none }

-- `Math.min(result ?? Infinity, limit)`
abbrev pub lower : Option ℕ → ℕ → ℕ
lower none limit = limit
lower (some n) limit = min n limit

unfoldable pub merge_limit : Option ℕ → Limit → Result EngineError (Option ℕ)
merge_limit result Limit.unlimited = ok result
merge_limit result Limit.invalid = err EngineError.invalid_arguments
merge_limit result (Limit.at_most limit) = ok (some (lower result limit))

-- The inner loop, over the keys.
unfoldable pub merge_budget : WorkflowBudget → SentBudget → Result EngineError WorkflowBudget
unfolding merge_limit
merge_budget result value = do
  cost ← merge_limit result.max_cost_usd value.max_cost_usd
  tokens ← merge_limit result.max_tokens value.max_tokens
  duration ← merge_limit result.max_duration_ms value.max_duration_ms
  ok (record { max_cost_usd = cost; max_tokens = tokens; max_duration_ms = duration })

abbrev pub merge_value : WorkflowBudget → Option SentBudget → Result EngineError WorkflowBudget
merge_value result none = ok result
merge_value result (some value) = merge_budget result value

unfoldable pub intersect_from :
    WorkflowBudget → List (Option SentBudget) → Result EngineError WorkflowBudget
unfolding merge_budget
intersect_from result [] = ok result
intersect_from result (value ∷ values) = do
  next ← merge_value result value
  intersect_from next values

unfoldable pub intersect_budgets : List (Option SentBudget) → Result EngineError WorkflowBudget
unfolding intersect_from
intersect_budgets values = intersect_from no_budget values
