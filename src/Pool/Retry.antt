-- ===== src/Pool/Retry.antt =====
-- internal/poolgateway/retry.go, and `RetryPolicy` of config.go. A duration is a number of
-- nanoseconds in 64 bits, so products wrap around.
pub mod Backoff
mod Tests
use openmate.Base.{ℕ, suc, Option, none, some, Bool, if◌then◌else◌, ◌&&◌, ◌||◌, ltb, ◌*◌, ◌-◌, ◌%◌}
use openmate.Base.Int.{ℤ, pos, negsuc, ltb_ℤ, ◌==ℤ◌, word, signed}
use openmate.Pool.Types.{GatewayError, ModelConfig}

-- k * z in 64 bits
unfoldable pub times_int64 : ℕ → ℤ → ℤ
times_int64 k (pos n) = signed ((k * n) % word)
times_int64 k (negsuc n) = signed ((word - (k * suc n) % word) % word)

pub record RetryPolicy : Type 0 where
  pub max_attempts : ℤ
  pub base_backoff : ℤ

abbrev pub default_retry_policy : RetryPolicy
default_retry_policy = record { max_attempts = pos 3; base_backoff = pos 200000000 }

unfoldable pub normalized : RetryPolicy → RetryPolicy
normalized policy = record {
  max_attempts =
      if ltb_ℤ (pos 0) policy.max_attempts
      then policy.max_attempts
      else default_retry_policy.max_attempts;
  base_backoff = if ltb_ℤ policy.base_backoff (pos 0) then pos 0 else policy.base_backoff;
}

-- `shouldRetry`, at the attempt that has failed, from 1.
unfoldable pub should_retry : RetryPolicy → ℕ → GatewayError → Bool
unfolding normalized
should_retry policy attempt e = ltb_ℤ (pos attempt) (normalized policy).max_attempts && e.retryable

unfoldable pub backoff_for : RetryPolicy → ℤ → ℤ
unfolding normalized times_int64
backoff_for policy (negsuc n) = pos 0
backoff_for policy (pos n) =
    if (pos n ==ℤ pos 0) || ((normalized policy).base_backoff ==ℤ pos 0)
    then pos 0
    else times_int64 n (normalized policy).base_backoff

abbrev or_default : Option ℤ → ℤ → ℤ
or_default none z = z
or_default (some z) default = z

-- `RetryPolicy` of a configuration.
unfoldable pub retry_policy : ModelConfig → RetryPolicy
unfolding normalized times_int64
retry_policy config = normalized (record {
  max_attempts = or_default config.retry_max_attempts default_retry_policy.max_attempts;
  base_backoff = elim config.retry_base_backoff_ms [
    | none ↦ default_retry_policy.base_backoff
    | some ms ↦ times_int64 1000000 ms
  ];
})
