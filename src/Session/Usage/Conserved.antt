-- ===== src/Session/Usage/Conserved.antt =====
-- Cumulative reports: what the turns are charged adds up to what the provider reported.
use specrails_core.Prelude.{ℕ, ◌+◌, ◌≤◌, ◌≡◌, Option, none, some, List, [], ◌∷◌, arith}
use specrails_core.Session.Types.{Usage, UsageSemantics, CostSemantics, TokenSemantics}
use specrails_core.Session.Usage.{
  RawNumber, ReportedUsage, UsageBaseline, finite, compute_turn_usage, or_zero,
}

pub data Counter : Type 0 where
  cost input output cache_read cache_write : Counter

abbrev pub reported_of : Counter → ReportedUsage → RawNumber
reported_of Counter.cost r = r.cost_usd
reported_of Counter.input r = r.input_tokens
reported_of Counter.output r = r.output_tokens
reported_of Counter.cache_read r = r.cache_read_tokens
reported_of Counter.cache_write r = r.cache_write_tokens

abbrev pub used_of : Counter → Usage → Option ℕ
used_of Counter.cost u = u.cost_usd
used_of Counter.input u = u.input_tokens
used_of Counter.output u = u.output_tokens
used_of Counter.cache_read u = u.cache_read_tokens
used_of Counter.cache_write u = u.cache_write_tokens

abbrev pub base_of : Counter → UsageBaseline → Option ℕ
base_of Counter.cost b = b.cost_usd
base_of Counter.input b = b.input_tokens
base_of Counter.output b = b.output_tokens
base_of Counter.cache_read b = b.cache_read_tokens
base_of Counter.cache_write b = b.cache_write_tokens

-- The driver reports the counter as a running total.
abbrev pub IsCumulative : UsageSemantics → Counter → Type 0
IsCumulative semantics Counter.cost = semantics.cost_usd ≡ CostSemantics.session_cumulative
IsCumulative semantics _ = semantics.tokens ≡ TokenSemantics.cumulative

-- The turns of one provider session, each against the baseline that the one before left.
pub bill : UsageSemantics → UsageBaseline → List ReportedUsage → List Usage
bill semantics baseline [] = []
bill semantics baseline (reported ∷ reports) =
    let result = compute_turn_usage semantics baseline reported in
    result.usage ∷ bill semantics result.baseline reports

pub final_baseline : UsageSemantics → UsageBaseline → List ReportedUsage → UsageBaseline
final_baseline semantics baseline [] = baseline
final_baseline semantics baseline (reported ∷ reports) =
    final_baseline semantics (compute_turn_usage semantics baseline reported).baseline reports

-- The totals that are reported never fall; a report may be missing.
abbrev pub RisesFrom : ℕ → Option ℕ → Type 0
RisesFrom base none = Unit
RisesFrom base (some n) = base ≤ n

abbrev pub latest : ℕ → Option ℕ → ℕ
latest base none = base
latest base (some n) = n

abbrev pub Rising : Counter → ℕ → List ReportedUsage → Type 0
Rising c base [] = Unit
Rising c base (r ∷ rs) =
    RisesFrom base (finite (reported_of c r)) × Rising c (latest base (finite (reported_of c r))) rs

abbrev pub total_used : Counter → List Usage → ℕ
total_used c [] = 0
total_used c (u ∷ us) = or_zero (used_of c u) + total_used c us

-- One turn: the charge takes the old total to the new one.
turn_charge :
    (semantics : UsageSemantics) (c : Counter) (baseline : UsageBaseline) (r : ReportedUsage)
    (b : ℕ)
    → IsCumulative semantics c
    → base_of c baseline ≡ some b
    → RisesFrom b (finite (reported_of c r))
    → (base_of c (compute_turn_usage semantics baseline r).baseline
        ≡ some (latest b (finite (reported_of c r))))
      × (b + or_zero (used_of c (compute_turn_usage semantics baseline r).usage)
          ≡ latest b (finite (reported_of c r)))
unfolding compute_turn_usage
turn_charge semantics Counter.cost baseline r b k known rises = ground arith
turn_charge semantics Counter.input baseline r b k known rises = ground arith
turn_charge semantics Counter.output baseline r b k known rises = ground arith
turn_charge semantics Counter.cache_read baseline r b k known rises = ground arith
turn_charge semantics Counter.cache_write baseline r b k known rises = ground arith

-- The last total that was reported; a missing or invalid report tells none.
pub last_total : Counter → ℕ → List ReportedUsage → ℕ
last_total c base [] = base
last_total c base (r ∷ rs) = last_total c (latest base (finite (reported_of c r))) rs

-- For a counter that the driver reports as a running total that never falls, from a known
-- baseline on, the charges of the turns take the baseline to the last total that was reported:
-- nothing is charged twice and nothing is lost, whichever reports are missing or invalid. The
-- baseline that is left is that total.
pub usage_conserved :
    (semantics : UsageSemantics) (c : Counter) (baseline : UsageBaseline)
    (reports : List ReportedUsage) (b : ℕ)
    → IsCumulative semantics c
    → base_of c baseline ≡ some b
    → Rising c b reports
    → (b + total_used c (bill semantics baseline reports) ≡ last_total c b reports)
      × (base_of c (final_baseline semantics baseline reports) ≡ some (last_total c b reports))
unfolding bill final_baseline last_total
usage_conserved semantics c baseline [] b k known rises = (omega arith, known)
usage_conserved semantics c baseline (r ∷ rs) b k known rises =
    let (known', charged) = turn_charge semantics c baseline r b k known rises.0 in
    let (used, left) =
      usage_conserved semantics c (compute_turn_usage semantics baseline r).baseline rs
        (latest b (finite (reported_of c r))) k known' rises.1 in
    (omega (arith, used, charged), left)
