-- ===== src/Pool/Pricing/Charges.antt =====
-- What an invocation costs, by the tokens that are charged.
use openmate.Base.{
  ℕ, ◌-◌, ◌<◌, Option, none, some, List, [], ◌∷◌, ◌++◌, Bool, true, false, ◌||◌, if◌then◌else◌, ltb,
  ◌≡◌, refl, ◌∙◌, arith, sym,
}
use openmate.Base.Int.{ℤ, pos}
use openmate.Pool.Types.{Float64, UsageMetrics, PricingConfig}
use openmate.Pool.Pricing.{
  FloatOps, int_or_zero, minus_int64, difference_or_zero, Total, charge, reasoning_price,
  total_cost, calculate_cost,
}

-- The number of tokens that a field of the usage reports: none where it is missing.
abbrev pub Counts : Option ℤ → ℕ → Type 0
Counts none n = n ≡ 0
Counts (some z) n = (z ≡ pos n) × (n < 9223372036854775808)

counted :
    (field : Option ℤ) (n : ℕ)
    → Counts field n
    → (int_or_zero field ≡ pos n) × (n < 9223372036854775808)
counted none n h = (ground (arith, h), omega arith)
counted (some z) n h = h

difference_lem :
    (a b : ℕ)
    → a < 9223372036854775808
    → b < 9223372036854775808
    → difference_or_zero (pos a) (pos b) ≡ pos (a - b)
unfolding difference_or_zero minus_int64
difference_lem a b h k = ground arith

-- A price and the number of tokens that it is charged for, if there is a price and a token.
abbrev pub entry : Option Float64 → ℕ → List (Float64 × ℕ)
entry none n = []
entry (some price) n = if ltb 0 n then (price, n) ∷ [] else []

-- The price of the first option, or else that of the second one.
abbrev pub price_or : Option Float64 → Option Float64 → Option Float64
price_or none other = other
price_or (some price) other = some price

-- The entries of a bill: input that was not cached, cached input, output that is not reasoning,
-- and reasoning.
abbrev pub entries : PricingConfig → ℕ → ℕ → ℕ → ℕ → List (Float64 × ℕ)
entries pricing input cached output reasoning =
    entry pricing.input_per_1m_usd (input - cached)
    ++ (entry pricing.cached_input_per_1m_usd cached
        ++ (entry pricing.output_per_1m_usd (output - reasoning)
            ++ entry (price_or pricing.reasoning_per_1m_usd pricing.output_per_1m_usd) reasoning))

-- A bill adds, from 0 on, the price of each million of tokens.
unfoldable pub sum_from : FloatOps → Float64 → List (Float64 × ℕ) → Float64
sum_from ops total [] = total
sum_from ops total ((price, n) ∷ rest) =
    sum_from ops
      (ops.plus total (ops.over (ops.times (ops.of_int (pos n)) price) (ops.of_int (pos 1000000))))
      rest

unfoldable pub bill : FloatOps → List (Float64 × ℕ) → Option Float64
unfolding sum_from
bill ops [] = none
bill ops (first ∷ rest) = some (sum_from ops (ops.of_int (pos 0)) (first ∷ rest))

abbrev any_entry : List (Float64 × ℕ) → Bool
any_entry [] = false
any_entry (x ∷ l) = true

-- The total after the entries.
after : FloatOps → Total → List (Float64 × ℕ) → Total
after ops total l = record {
  cost = sum_from ops total.cost l;
  has_cost = total.has_cost || any_entry l;
}

sum_from-append :
    (ops : FloatOps) (l m : List (Float64 × ℕ)) (total : Float64)
    → sum_from ops total (l ++ m) ≡ sum_from ops (sum_from ops total l) m
unfolding sum_from
sum_from-append ops [] m total = refl
sum_from-append ops ((price, n) ∷ l) m total = sum_from-append ops l m _

any_entry-append :
    (l m : List (Float64 × ℕ)) (b : Bool)
    → ((b || any_entry l) || any_entry m) ≡ (b || any_entry (l ++ m))
any_entry-append [] m b = ground arith
any_entry-append (x ∷ l) m b = ground arith

after-append :
    (ops : FloatOps) (l m : List (Float64 × ℕ)) (total : Total)
    → after ops (after ops total l) m ≡ after ops total (l ++ m)
unfolding after
after-append ops l m total = λ i. record {
  cost = sym (sum_from-append ops l m total.cost) i;
  has_cost = any_entry-append l m total.has_cost i;
}

charge-after :
    (ops : FloatOps) (price : Option Float64) (n : ℕ) (total : Total)
    → charge ops price (pos n) total ≡ after ops total (entry price n)
unfolding charge after sum_from
charge-after ops none n total = ground arith
charge-after ops (some price) n total = ground arith

reasoning_price-price_or :
    (pricing : PricingConfig)
    → reasoning_price pricing ≡ price_or pricing.reasoning_per_1m_usd pricing.output_per_1m_usd
reasoning_price-price_or pricing = ground arith

total_cost-after :
    (ops : FloatOps) (usage : UsageMetrics) (pricing : PricingConfig)
    (input cached output reasoning : ℕ)
    → Counts usage.input_tokens input
    → Counts usage.cached_input_tokens cached
    → Counts usage.output_tokens output
    → Counts usage.reasoning_tokens reasoning
    → total_cost ops usage pricing
      ≡ after ops
          (record { cost = ops.of_int (pos 0); has_cost = false })
          (entries pricing input cached output reasoning)
unfolding total_cost
total_cost-after ops usage pricing input cached output reasoning h₁ h₂ h₃ h₄ =
    let zero_cost : Total = record { cost = ops.of_int (pos 0); has_cost = false } in
    let (i, i_lt) = counted usage.input_tokens input h₁ in
    let (c, c_lt) = counted usage.cached_input_tokens cached h₂ in
    let (o, o_lt) = counted usage.output_tokens output h₃ in
    let (r, r_lt) = counted usage.reasoning_tokens reasoning h₄ in
    let last = price_or pricing.reasoning_per_1m_usd pricing.output_per_1m_usd in
    let e₁ = entry pricing.input_per_1m_usd (input - cached) in
    let e₂ = entry pricing.cached_input_per_1m_usd cached in
    let e₃ = entry pricing.output_per_1m_usd (output - reasoning) in
    let e₄ = entry last reasoning in
    let t₁ = after ops zero_cost e₁ in
    let t₂ = after ops t₁ e₂ in
    let t₃ = after ops t₂ e₃ in
    rw
      (
        i,
        c,
        o,
        r,
        difference_lem input cached i_lt c_lt,
        difference_lem output reasoning o_lt r_lt,
        reasoning_price-price_or pricing,
        charge-after ops pricing.input_per_1m_usd (input - cached) zero_cost,
        charge-after ops pricing.cached_input_per_1m_usd cached t₁,
        charge-after ops pricing.output_per_1m_usd (output - reasoning) t₂,
        charge-after ops last reasoning t₃,
      )
      (after-append ops e₃ e₄ t₂
        ∙ after-append ops e₂ (e₃ ++ e₄) t₁
        ∙ after-append ops e₁ (e₂ ++ (e₃ ++ e₄)) zero_cost)

billed :
    (ops : FloatOps) (usage : UsageMetrics) (pricing : PricingConfig) (l : List (Float64 × ℕ))
    → total_cost ops usage pricing
      ≡ after ops (record { cost = ops.of_int (pos 0); has_cost = false }) l
    → calculate_cost ops usage (some pricing) ≡ bill ops l
unfolding calculate_cost after bill sum_from
billed ops usage pricing [] h = ground (arith, h)
billed ops usage pricing (x ∷ l) h = ground (arith, h)

-- If the token fields that the usage reports hold numbers below 2^63, its cost with a pricing is
-- the bill of its entries: the input that was not cached and the output that is not reasoning,
-- as far as they are positive, the cached input, and the reasoning at its own price or else at
-- that of the output, each if it has a price and a token. Without such an entry it has no cost.
pub calculate_cost-bill :
    (ops : FloatOps) (usage : UsageMetrics) (pricing : PricingConfig)
    (input cached output reasoning : ℕ)
    → Counts usage.input_tokens input
    → Counts usage.cached_input_tokens cached
    → Counts usage.output_tokens output
    → Counts usage.reasoning_tokens reasoning
    → calculate_cost ops usage (some pricing)
      ≡ bill ops (entries pricing input cached output reasoning)
calculate_cost-bill ops usage pricing input cached output reasoning h₁ h₂ h₃ h₄ =
    billed ops usage pricing (entries pricing input cached output reasoning)
      (total_cost-after ops usage pricing input cached output reasoning h₁ h₂ h₃ h₄)
