-- ===== src/Ai/Stats.antt =====
-- `AIUsage` (packages/ai/models.py) and `CostTracker` (packages/ai/stats.py). Costs are in
-- billionths of a dollar and prices per token, where the source has floats and prices per thousand
-- tokens.
use dingzhen_notebook.Common.{
  ℕ, ◌+◌, ◌*◌, Bool, Option, none, some, [], ◌∷◌, Text, text_eq, nat_beq, if◌then◌else◌,
}
use dingzhen_notebook.Common.Dict.{Dict, lookup, insert}

pub record AiUsage : Type 0 where
  pub input_tokens : ℕ
  pub output_tokens : ℕ
  pub total_tokens : ℕ
  pub cost_usd : ℕ
  pub latency_ms : Option ℕ

-- `AIUsage(...)`: a total that is not given is the sum.
unfoldable pub ai_usage : ℕ → ℕ → ℕ → ℕ → Option ℕ → AiUsage
ai_usage input output total cost latency = record {
  input_tokens = input;
  output_tokens = output;
  total_tokens = if nat_beq total 0 then input + output else total;
  cost_usd = cost;
  latency_ms = latency;
}

-- A bucket of `_by_model`, and `CostSummary`.
pub record CostSummary : Type 0 where
  pub calls : ℕ
  pub cached_calls : ℕ
  pub input_tokens : ℕ
  pub output_tokens : ℕ
  pub total_tokens : ℕ
  pub cost_usd : ℕ

unfoldable pub no_cost : CostSummary
no_cost = record {
  calls = 0;
  cached_calls = 0;
  input_tokens = 0;
  output_tokens = 0;
  total_tokens = 0;
  cost_usd = 0;
}

pub record CostTracker : Type 0 where
  pub pricing : Dict Text (ℕ × ℕ)
  pub default_pricing : ℕ × ℕ
  pub by_model : Dict Text CostSummary

unfoldable pub rates : CostTracker → Text → ℕ × ℕ
unfolding lookup
rates tracker model = elim (lookup model tracker.pricing) [
  | none ↦ tracker.default_pricing
  | some pair ↦ pair
]

unfoldable pub for_model : CostTracker → Text → CostSummary
unfolding lookup no_cost
for_model tracker model = elim (lookup model tracker.by_model) [ none ↦ no_cost | some b ↦ b ]

-- The usage with the cost that the prices give, if the adapter names none.
unfoldable pub priced : CostTracker → Text → AiUsage → AiUsage
unfolding rates ai_usage
priced tracker model usage =
    if nat_beq usage.cost_usd 0
    then ai_usage usage.input_tokens usage.output_tokens usage.total_tokens
        (usage.input_tokens * (rates tracker model).0
          + usage.output_tokens * (rates tracker model).1)
        usage.latency_ms
    else usage

-- `record(model, usage, cached=cached)`
unfoldable pub record_usage : Text → AiUsage → Bool → CostTracker → AiUsage × CostTracker
unfolding for_model priced insert
record_usage model usage cached tracker =
    let bucket = for_model tracker model in
    let actual = priced tracker model usage in
    if cached
    then (
      usage,
      record tracker {
        by_model =
            insert model (record bucket { cached_calls = bucket.cached_calls + 1 })
              tracker.by_model;
      },
    )
    else (
      actual,
      record tracker {
        by_model =
            insert model
              (record {
                calls = bucket.calls + 1;
                cached_calls = bucket.cached_calls;
                input_tokens = bucket.input_tokens + actual.input_tokens;
                output_tokens = bucket.output_tokens + actual.output_tokens;
                total_tokens = bucket.total_tokens + actual.total_tokens;
                cost_usd = bucket.cost_usd + actual.cost_usd;
              })
              tracker.by_model;
      },
    )

abbrev pub add_summary : CostSummary → CostSummary → CostSummary
add_summary a b = record {
  calls = a.calls + b.calls;
  cached_calls = a.cached_calls + b.cached_calls;
  input_tokens = a.input_tokens + b.input_tokens;
  output_tokens = a.output_tokens + b.output_tokens;
  total_tokens = a.total_tokens + b.total_tokens;
  cost_usd = a.cost_usd + b.cost_usd;
}

unfoldable pub sum_all : Dict Text CostSummary → CostSummary
unfolding no_cost
sum_all [] = no_cost
sum_all ((model, b) ∷ rest) = add_summary b (sum_all rest)

-- The total of `summary()`
unfoldable pub total : CostTracker → CostSummary
unfolding sum_all
total tracker = sum_all tracker.by_model
