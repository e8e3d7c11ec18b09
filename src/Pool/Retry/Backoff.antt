-- ===== src/Pool/Retry/Backoff.antt =====
-- What the retry policy promises: attempts, and a backoff that grows with them.
use openmate.Base.{ℕ, ◌*◌, ◌≡◌, ◌<◌, arith}
use openmate.Base.Int.{pos, ◌≤ℤ◌}
use openmate.Pool.Types.{ModelConfig}
use openmate.Pool.Retry.{RetryPolicy, normalized, retry_policy, backoff_for, times_int64}

-- The retry policy of any configuration allows at least one attempt, has no negative backoff,
-- and is unchanged by normalizing it again.
pub retry_policy-normalized :
    (config : ModelConfig)
    → (pos 1 ≤ℤ (retry_policy config).max_attempts)
      × (pos 0 ≤ℤ (retry_policy config).base_backoff)
      × (normalized (retry_policy config) ≡ retry_policy config)
unfolding retry_policy normalized
retry_policy-normalized config = (ground arith, ground arith, ground arith)

-- Where the base backoff is not negative and its product with the attempt fits in 63 bits, the
-- backoff of the attempt is that product.
pub backoff_for_linear :
    (policy : RetryPolicy) (attempt base : ℕ)
    → policy.base_backoff ≡ pos base
    → attempt * base < 9223372036854775808
    → backoff_for policy (pos attempt) ≡ pos (attempt * base)
unfolding backoff_for times_int64 normalized
backoff_for_linear policy attempt base h fits = ground (arith, h)
