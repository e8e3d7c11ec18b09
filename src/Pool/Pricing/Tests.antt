-- ===== src/Pool/Pricing/Tests.antt =====
-- Input of which a part was cached, and reasoning at the price of the output.
use openmate.Base.{none, some, ◌≡◌, refl, arith}
use openmate.Base.Int.{pos}
use openmate.Pool.Types.{bits, UsageMetrics, PricingConfig}
use openmate.Pool.Pricing.{FloatOps, calculate_cost}
use openmate.Pool.Pricing.Charges.{bill, entries, calculate_cost-bill}

abbrev counting : FloatOps
counting = record { of_int = λ n. bits 1; plus = λ a b. b; times = λ a b. a; over = λ a b. a }

abbrev some_usage : UsageMetrics
some_usage = record {
  input_tokens = some (pos 120);
  output_tokens = some (pos 100);
  total_tokens = some (pos 220);
  cached_input_tokens = some (pos 20);
  reasoning_tokens = some (pos 30);
  latency_ms = none;
  cost_usd = none;
}

abbrev some_prices : PricingConfig
some_prices = record {
  input_per_1m_usd = none;
  output_per_1m_usd = some (bits 7);
  cached_input_per_1m_usd = some (bits 2);
  reasoning_per_1m_usd = none;
}

calculate_cost-bill_example :
    calculate_cost counting some_usage (some some_prices)
    ≡ bill counting (entries some_prices 120 20 100 30)
calculate_cost-bill_example =
    calculate_cost-bill counting some_usage some_prices 120 20 100 30 (refl, omega arith)
      (refl, omega arith) (refl, omega arith) (refl, omega arith)
