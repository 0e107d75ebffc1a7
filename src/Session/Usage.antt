-- ===== src/Session/Usage.antt =====
-- src/agent-runtime/session/domain/usage.ts: what one turn used, from what the provider reports.
-- Amounts are natural numbers; the unit of a cost is a millionth of the unit of a rate card's
-- prices, so that an estimate is a product.
pub mod Conserved
pub mod Sums
use specrails_core.Prelude.{
  ℕ, ◌+◌, ◌-◌, ◌*◌, String, Bool, true, false, ◌||◌, Option, none, some, List, [], ◌∷◌, ◌++◌,
  is_some, or_else, ltb, if◌then◌else◌,
}
use specrails_core.Session.Types.{Usage, empty_usage, UsageSemantics, CostSemantics, TokenSemantics}

-- A reported value: missing or null, not a finite number from 0 on, or an amount.
pub data RawNumber : Type 0 where
  missing invalid : RawNumber
  amount : ℕ → RawNumber

pub record ReportedUsage : Type 0 where
  pub input_tokens : RawNumber
  pub output_tokens : RawNumber
  pub cache_read_tokens : RawNumber
  pub cache_write_tokens : RawNumber
  pub total_tokens : RawNumber
  pub cost_usd : RawNumber
  pub model : Option String

-- The last known totals of one provider session; `none` is unknown, which is not 0.
pub record UsageBaseline : Type 0 where
  pub cost_usd : Option ℕ
  pub input_tokens : Option ℕ
  pub output_tokens : Option ℕ
  pub cache_read_tokens : Option ℕ
  pub cache_write_tokens : Option ℕ

abbrev pub fresh_baseline : UsageBaseline
fresh_baseline = record {
  cost_usd = some 0;
  input_tokens = some 0;
  output_tokens = some 0;
  cache_read_tokens = some 0;
  cache_write_tokens = some 0;
}

abbrev pub unknown_baseline : UsageBaseline
unknown_baseline = record {
  cost_usd = none;
  input_tokens = none;
  output_tokens = none;
  cache_read_tokens = none;
  cache_write_tokens = none;
}

pub record TurnUsageResult : Type 0 where
  pub usage : Usage
  pub baseline : UsageBaseline
  pub resets : List String

abbrev pub finite : RawNumber → Option ℕ
finite missing = none
finite invalid = none
finite (amount n) = some n

-- The delta of a counter, its next baseline, and the counters that went backwards so far.
pub record Delta : Type 0 where
  pub value : Option ℕ
  pub next : Option ℕ
  pub resets : List String

pub delta : Option ℕ → Option ℕ → String → List String → Delta
delta none base key resets = record { value = none; next = base; resets = resets }
delta (some reported) none key resets = record {
  value = none;
  next = some reported;
  resets = resets;
}
delta (some reported) (some base) key resets =
    if ltb reported base
    then record { value = some reported; next = some reported; resets = resets ++ (key ∷ []) }
    else record { value = some (reported - base); next = some reported; resets = resets }

-- The cost of the turn: the first `if` of `computeTurnUsage`.
pub cost_delta : CostSemantics → Option ℕ → RawNumber → List String → Delta
unfolding delta
cost_delta CostSemantics.session_cumulative base reported resets =
    delta (finite reported) base "costUsd" resets
cost_delta CostSemantics.per_turn base reported resets = record {
  value = finite reported;
  next = base;
  resets = resets;
}
cost_delta CostSemantics.none base reported resets = record {
  value = none;
  next = base;
  resets = resets;
}

-- One round of the loop over the counters.
pub counter_delta : TokenSemantics → Option ℕ → RawNumber → String → List String → Delta
unfolding delta
counter_delta TokenSemantics.per_turn base reported key resets = record {
  value = finite reported;
  next = base;
  resets = resets;
}
counter_delta TokenSemantics.cumulative base reported key resets =
    delta (finite reported) base key resets
counter_delta TokenSemantics.none base reported key resets = record {
  value = none;
  next = base;
  resets = resets;
}

abbrev total_of : TokenSemantics → RawNumber → Option ℕ
total_of TokenSemantics.per_turn reported = finite reported
total_of _ reported = none

pub compute_turn_usage : UsageSemantics → UsageBaseline → ReportedUsage → TurnUsageResult
unfolding cost_delta counter_delta
compute_turn_usage semantics baseline reported =
    let cost = cost_delta semantics.cost_usd baseline.cost_usd reported.cost_usd [] in
    let input =
      counter_delta semantics.tokens baseline.input_tokens reported.input_tokens "inputTokens"
        cost.resets in
    let output =
      counter_delta semantics.tokens baseline.output_tokens reported.output_tokens "outputTokens"
        input.resets in
    let read =
      counter_delta semantics.tokens baseline.cache_read_tokens reported.cache_read_tokens
        "cacheReadTokens" output.resets in
    let write =
      counter_delta semantics.tokens baseline.cache_write_tokens reported.cache_write_tokens
        "cacheWriteTokens" read.resets in
    record {
      usage = record {
        input_tokens = input.value;
        output_tokens = output.value;
        cache_read_tokens = read.value;
        cache_write_tokens = write.value;
        total_tokens = total_of semantics.tokens reported.total_tokens;
        cost_usd = cost.value;
        cost_estimated = false;
        model = reported.model;
      };
      baseline = record {
        cost_usd = cost.next;
        input_tokens = input.next;
        output_tokens = output.next;
        cache_read_tokens = read.next;
        cache_write_tokens = write.next;
      };
      resets = write.resets;
    }

pub record RateCard : Type 0 where
  pub input_per_m_tok : ℕ
  pub output_per_m_tok : ℕ
  pub cache_read_per_m_tok : Option ℕ
  pub cache_write_per_m_tok : Option ℕ

-- `value ?? 0`
abbrev pub or_zero : Option ℕ → ℕ
or_zero none = 0
or_zero (some n) = n

abbrev pub with_estimated_cost : Usage → Option RateCard → Usage
with_estimated_cost usage none = usage
with_estimated_cost usage (some rate) =
    if is_some usage.cost_usd
    then usage
    else if ltb 0 (or_zero usage.input_tokens)
        || ltb 0 (or_zero usage.output_tokens)
        || ltb 0 (or_zero usage.cache_read_tokens)
        || ltb 0 (or_zero usage.cache_write_tokens)
    then record usage {
      cost_usd = some (
          or_zero usage.input_tokens * rate.input_per_m_tok
          + or_zero usage.output_tokens * rate.output_per_m_tok
          + or_zero usage.cache_read_tokens * or_zero rate.cache_read_per_m_tok
          + or_zero usage.cache_write_tokens * or_zero rate.cache_write_per_m_tok);
      cost_estimated = true;
    }
    else usage

-- `if (value !== null) total[key] = (total[key] ?? 0) + value`
pub add_amount : Option ℕ → Option ℕ → Option ℕ
add_amount total none = total
add_amount total (some value) = some (or_zero total + value)

abbrev pub add_usage : Usage → Usage → Usage
add_usage total item = record {
  input_tokens = add_amount total.input_tokens item.input_tokens;
  output_tokens = add_amount total.output_tokens item.output_tokens;
  cache_read_tokens = add_amount total.cache_read_tokens item.cache_read_tokens;
  cache_write_tokens = add_amount total.cache_write_tokens item.cache_write_tokens;
  total_tokens = add_amount total.total_tokens item.total_tokens;
  cost_usd = add_amount total.cost_usd item.cost_usd;
  cost_estimated = total.cost_estimated || item.cost_estimated;
  model = or_else total.model item.model;
}

pub sum_from : Usage → List Usage → Usage
sum_from total [] = total
sum_from total (item ∷ items) = sum_from (add_usage total item) items

pub sum_usage : List Usage → Usage
unfolding sum_from
sum_usage items = sum_from empty_usage items
