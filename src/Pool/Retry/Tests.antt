-- ===== src/Pool/Retry/Tests.antt =====
-- The policy of a configuration that sets nothing, and of one that waits for half a second.
use openmate.Base.{none, some, [], ◌≡◌, refl, arith}
use openmate.Base.Int.{pos, ◌≤ℤ◌}
use openmate.Pool.Types.{ModelConfig}
use openmate.Pool.Retry.{RetryPolicy, normalized, retry_policy, backoff_for}
use openmate.Pool.Retry.Backoff.{retry_policy-normalized, backoff_for_linear}

abbrev plain : ModelConfig
plain = record {
  global_max_concurrent = none;
  offline_failure_threshold = 3;
  retry_max_attempts = some (pos 0);
  retry_base_backoff_ms = none;
  apis = [];
}

retry_policy-normalized_example :
    (pos 1 ≤ℤ (retry_policy plain).max_attempts)
    × (pos 0 ≤ℤ (retry_policy plain).base_backoff)
    × (normalized (retry_policy plain) ≡ retry_policy plain)
retry_policy-normalized_example = retry_policy-normalized plain

abbrev half_second : RetryPolicy
half_second = record { max_attempts = pos 4; base_backoff = pos 500000000 }

backoff_for_linear_example : backoff_for half_second (pos 3) ≡ pos 1500000000
backoff_for_linear_example = backoff_for_linear half_second 3 500000000 refl (omega arith)
