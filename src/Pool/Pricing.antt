-- ===== src/Pool/Pricing.antt =====
-- internal/poolgateway/pricing.go: the cost of an invocation. The float64 operations are
-- parameters; an `int` has 64 bits.
pub mod Charges
mod Tests
use openmate.Base.{ℕ, suc, Option, none, some, Bool, true, false, if◌then◌else◌, ◌+◌, ◌-◌, ◌%◌}
use openmate.Base.Int.{ℤ, pos, negsuc, ltb_ℤ, word, signed}
use openmate.Pool.Types.{Float64, UsageMetrics, PricingConfig}

-- The operations of float64 that the costs use.
pub record FloatOps : Type 0 where
  pub of_int : ℤ → Float64
  pub plus : Float64 → Float64 → Float64
  pub times : Float64 → Float64 → Float64
  pub over : Float64 → Float64 → Float64

abbrev pub int_or_zero : Option ℤ → ℤ
int_or_zero none = pos 0
int_or_zero (some n) = n

-- The word that holds an integer, modulo 2^64.
abbrev residue : ℤ → ℕ
residue (pos n) = n % word
residue (negsuc n) = (word - suc n % word) % word

-- a - b in 64 bits
unfoldable pub minus_int64 : ℤ → ℤ → ℤ
minus_int64 a b = signed ((residue a + (word - residue b)) % word)

-- a - b in 64 bits, or 0 where that is negative
unfoldable pub difference_or_zero : ℤ → ℤ → ℤ
unfolding minus_int64
difference_or_zero a b = let d = minus_int64 a b in if ltb_ℤ d (pos 0) then pos 0 else d

-- The running total and whether any price applied.
pub record Total : Type 0 where
  pub cost : Float64
  pub has_cost : Bool

unfoldable pub charge : FloatOps → Option Float64 → ℤ → Total → Total
charge ops none tokens total = total
charge ops (some price) tokens total =
    if ltb_ℤ (pos 0) tokens
    then record {
      cost =
          ops.plus total.cost
            (ops.over (ops.times (ops.of_int tokens) price) (ops.of_int (pos 1000000)));
      has_cost = true;
    }
    else total

-- The price of reasoning tokens: their own, or that of the output.
abbrev pub reasoning_price : PricingConfig → Option Float64
reasoning_price pricing = elim pricing.reasoning_per_1m_usd [
  | some price ↦ some price
  | none ↦ pricing.output_per_1m_usd
]

unfoldable pub total_cost : FloatOps → UsageMetrics → PricingConfig → Total
unfolding charge difference_or_zero
total_cost ops usage pricing =
    let input = int_or_zero usage.input_tokens in
    let cached = int_or_zero usage.cached_input_tokens in
    let output = int_or_zero usage.output_tokens in
    let reasoning = int_or_zero usage.reasoning_tokens in
    charge ops (reasoning_price pricing) reasoning (
      charge ops pricing.output_per_1m_usd (difference_or_zero output reasoning) (
        charge ops pricing.cached_input_per_1m_usd cached (
          charge ops pricing.input_per_1m_usd (difference_or_zero input cached)
            (record { cost = ops.of_int (pos 0); has_cost = false }))))

-- `calculateCost`
unfoldable pub calculate_cost : FloatOps → UsageMetrics → Option PricingConfig → Option Float64
unfolding total_cost
calculate_cost ops usage none = none
calculate_cost ops usage (some pricing) =
    let total = total_cost ops usage pricing in if total.has_cost then some total.cost else none

abbrev no_usage : UsageMetrics
no_usage = record {
  input_tokens = none;
  output_tokens = none;
  total_tokens = none;
  cached_input_tokens = none;
  reasoning_tokens = none;
  latency_ms = none;
  cost_usd = none;
}

abbrev usage_or_empty : Option UsageMetrics → UsageMetrics
usage_or_empty none = no_usage
usage_or_empty (some usage) = usage

abbrev with_cost : Option Float64 → UsageMetrics → UsageMetrics
with_cost none usage = usage
with_cost (some cost) usage = record usage { cost_usd = some cost }

-- `finalizeUsage`
unfoldable pub finalize_usage :
    FloatOps → Option UsageMetrics → ℤ → Option PricingConfig → UsageMetrics
unfolding calculate_cost
finalize_usage ops usage latency pricing =
    let timed = record (usage_or_empty usage) { latency_ms = some latency } in
    with_cost (calculate_cost ops timed pricing) timed
