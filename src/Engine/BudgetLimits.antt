-- ===== src/Engine/BudgetLimits.antt =====
-- What the limits of a run amount to.
use specrails_core.Prelude.{
  ℕ, min, ◌≡◌, refl, Bool, true, ◌&&◌, Option, none, some, List, [], ◌∷◌, ltb, ok, arith, >>=-eq-ok,
  ok-injective, ◌∙◌, ap, sym, is_some, not,
}
use specrails_core.Engine.Budget.{
  EngineUsage, WorkflowBudget, budget_error, remaining_budget, Limit, SentBudget, no_budget,
  merge_limit, merge_budget, merge_value, intersect_from, intersect_budgets,
}

pub data BudgetKey : Type 0 where
  cost tokens duration : BudgetKey

abbrev pub limit_at : BudgetKey → WorkflowBudget → Option ℕ
limit_at BudgetKey.cost b = b.max_cost_usd
limit_at BudgetKey.tokens b = b.max_tokens
limit_at BudgetKey.duration b = b.max_duration_ms

abbrev known : Limit → Option ℕ
known (Limit.at_most n) = some n
known _ = none

abbrev pub sent_at : BudgetKey → Option SentBudget → Option ℕ
sent_at key none = none
sent_at BudgetKey.cost (some b) = known b.max_cost_usd
sent_at BudgetKey.tokens (some b) = known b.max_tokens
sent_at BudgetKey.duration (some b) = known b.max_duration_ms

-- The lower of two limits, where a limit that is missing is above all others.
abbrev pub meet : Option ℕ → Option ℕ → Option ℕ
meet none b = b
meet (some a) none = some a
meet (some a) (some b) = some (min a b)

abbrev pub lowest : BudgetKey → List (Option SentBudget) → Option ℕ
lowest key [] = none
lowest key (value ∷ values) = meet (sent_at key value) (lowest key values)

meet_assoc : (a b c : Option ℕ) → meet (meet a b) c ≡ meet a (meet b c)
meet_assoc a b c = ground arith

merge_limit-meet :
    (result : Option ℕ) (limit : Limit) (next : Option ℕ)
    → merge_limit result limit ≡ ok next
    → next ≡ meet result (known limit)
unfolding merge_limit
merge_limit-meet result limit next h = ground arith

merge_value-meet :
    (key : BudgetKey) (result : WorkflowBudget) (value : Option SentBudget) (next : WorkflowBudget)
    → merge_value result value ≡ ok next
    → limit_at key next ≡ meet (limit_at key result) (sent_at key value)
unfolding merge_budget
merge_value-meet key result none next h = ground (arith, ok-injective h)
merge_value-meet key result (some value) next h =
    let (c, c_eq, h') = >>=-eq-ok (merge_limit result.max_cost_usd value.max_cost_usd) _ h in
    let (t, t_eq, h'') = >>=-eq-ok (merge_limit result.max_tokens value.max_tokens) _ h' in
    let (d, d_eq, done) =
      >>=-eq-ok (merge_limit result.max_duration_ms value.max_duration_ms) _ h'' in
    ap (limit_at key) (sym (ok-injective done))
    ∙ merged_at key c t d (merge_limit-meet result.max_cost_usd value.max_cost_usd c c_eq)
        (merge_limit-meet result.max_tokens value.max_tokens t t_eq)
        (merge_limit-meet result.max_duration_ms value.max_duration_ms d d_eq)
  where
    merged_at :
        (k : BudgetKey) (c t d : Option ℕ)
        → c ≡ meet result.max_cost_usd (known value.max_cost_usd)
        → t ≡ meet result.max_tokens (known value.max_tokens)
        → d ≡ meet result.max_duration_ms (known value.max_duration_ms)
        → limit_at k (record { max_cost_usd = c; max_tokens = t; max_duration_ms = d })
          ≡ meet (limit_at k result) (sent_at k (some value))
    merged_at BudgetKey.cost c t d p q r = p
    merged_at BudgetKey.tokens c t d p q r = q
    merged_at BudgetKey.duration c t d p q r = r

intersect_from-meet :
    (key : BudgetKey) (values : List (Option SentBudget)) (result t : WorkflowBudget)
    → intersect_from result values ≡ ok t
    → limit_at key t ≡ meet (limit_at key result) (lowest key values)
unfolding intersect_from
intersect_from-meet key [] result t h = ap (limit_at key) (sym (ok-injective h)) ∙ ground arith
intersect_from-meet key (value ∷ values) result t h =
    let (next, first, rest) =
      >>=-eq-ok (merge_value result value) (λ n. intersect_from n values) h in
    intersect_from-meet key values next t rest
    ∙ ap (λ o. meet o (lowest key values)) (merge_value-meet key result value next first)
    ∙ meet_assoc (limit_at key result) (sent_at key value) (lowest key values)

-- Each limit of an intersection of budgets is the lowest that any of them sets, and it is missing
-- only if none of them sets it: no definition raises a limit of the host.
pub intersect_budgets-lowest :
    (key : BudgetKey) (values : List (Option SentBudget)) (t : WorkflowBudget)
    → intersect_budgets values ≡ ok t
    → limit_at key t ≡ lowest key values
unfolding intersect_budgets
intersect_budgets-lowest key values t h =
    intersect_from-meet key values no_budget t h ∙ no_limit key (lowest key values)
  where
    no_limit : (k : BudgetKey) (o : Option ℕ) → meet (limit_at k no_budget) o ≡ o
    no_limit BudgetKey.cost o = refl
    no_limit BudgetKey.tokens o = refl
    no_limit BudgetKey.duration o = refl

-- A limit that is missing or above 0.
abbrev pub has_headroom : Option ℕ → Bool
has_headroom none = true
has_headroom (some n) = ltb 0 n

-- With nothing reserved, a run is admitted exactly if something of each of its limits remains.
pub admitted_iff_headroom :
    (usage : EngineUsage) (budget : WorkflowBudget) (elapsed : ℕ)
    → not (is_some (budget_error usage budget elapsed true)) ≡ (
        has_headroom
          (remaining_budget usage budget elapsed (record { cost_usd = 0; tokens = 0 })).max_cost_usd
        && has_headroom
            (remaining_budget usage budget elapsed (record { cost_usd = 0; tokens = 0 })).max_tokens
        && has_headroom
            (remaining_budget usage budget elapsed
              (record { cost_usd = 0; tokens = 0 })).max_duration_ms)
unfolding budget_error remaining_budget
admitted_iff_headroom usage budget elapsed = ground arith
