-- ===== src/Session/Usage/Sums.antt =====
-- The sums that are shown: usage.ts, `sumUsage`.
use specrails_core.Prelude.{
  ℕ, ◌+◌, ◌≡◌, refl, sym, ◌∙◌, ap, Option, none, some, List, [], ◌∷◌, arith,
}
use specrails_core.Session.Types.{Usage, empty_usage}
use specrails_core.Session.Usage.{add_amount, add_usage, sum_from, sum_usage}

-- The amounts that are summed.
pub data Amount : Type 0 where
  input output cache_read cache_write total cost : Amount

abbrev pub amount_of : Amount → Usage → Option ℕ
amount_of Amount.input u = u.input_tokens
amount_of Amount.output u = u.output_tokens
amount_of Amount.cache_read u = u.cache_read_tokens
amount_of Amount.cache_write u = u.cache_write_tokens
amount_of Amount.total u = u.total_tokens
amount_of Amount.cost u = u.cost_usd

-- The sum of what is known: unknown only if nothing is known.
abbrev pub join : Option ℕ → Option ℕ → Option ℕ
join none b = b
join (some a) none = some a
join (some a) (some b) = some (a + b)

abbrev pub sum_known : Amount → List Usage → Option ℕ
sum_known a [] = none
sum_known a (u ∷ us) = join (amount_of a u) (sum_known a us)

join_add : (a b c : Option ℕ) → join (add_amount a b) c ≡ join a (join b c)
unfolding add_amount
join_add a b c = ground arith

join-none : (a : Option ℕ) → join a none ≡ a
join-none none = refl
join-none (some a) = refl

amount_of-add :
    (a : Amount) (t u : Usage)
    → amount_of a (add_usage t u) ≡ add_amount (amount_of a t) (amount_of a u)
amount_of-add a t u = ground arith

sum_from-join :
    (a : Amount) (t : Usage) (us : List Usage)
    → amount_of a (sum_from t us) ≡ join (amount_of a t) (sum_known a us)
unfolding sum_from
sum_from-join a t [] = sym (join-none (amount_of a t))
sum_from-join a t (u ∷ us) =
    sum_from-join a (add_usage t u) us
    ∙ ap (λ x. join x (sum_known a us)) (amount_of-add a t u)
    ∙ join_add (amount_of a t) (amount_of a u) (sum_known a us)

amount_of-empty : (a : Amount) → amount_of a empty_usage ≡ none
amount_of-empty a = ground arith

-- Each amount of a sum of usages is the sum of those that are known, and unknown only if it is
-- unknown in all of them.
pub sum_usage_known : (a : Amount) (us : List Usage) → amount_of a (sum_usage us) ≡ sum_known a us
unfolding sum_usage
sum_usage_known a us =
    sum_from-join a empty_usage us ∙ ap (λ x. join x (sum_known a us)) (amount_of-empty a)
