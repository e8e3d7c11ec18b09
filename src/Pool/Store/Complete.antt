-- ===== src/Pool/Store/Complete.antt =====
-- store.go: the end of an attempt and of an invocation.
use openmate.Base.{
  ℕ, GoString, codes, ◌=?◌, Option, none, some, List, Bool, true, false, if◌then◌else◌, ltb, Result,
  ok, ◌>>=◌, ◌>>◌, guard, or_fail, ◌+◌, ◌-◌,
}
use openmate.Base.Json.{Fields}
use openmate.Pool.Types.{
  InvocationStatus, UsageMetrics, GatewayError, InvokeResponse, InvocationReservation,
}
use openmate.Pool.Store.{
  ApiRow, InvocationRow, AttemptRow, Store, StoreError, invocation_not_found, lease_underflow, Tx,
  with_immediate_tx, resolve_api_status, get_offline_failure_threshold, find_api, find_invocation,
  update_api, update_invocation, update_attempt,
}
use openmate.Pool.Store.Load.{load_invocation_response}

-- `countsTowardOffline` of retry.go
unfoldable pub counts_toward_offline : GatewayError → Bool
counts_toward_offline e =
    if e.code =? codes "provider_unreachable"
    then true
    else if e.code =? codes "provider_timeout"
    then true
    else if e.code =? codes "provider_http_error"
    then e.retryable
    else false

pub join_api : Option GoString → List ApiRow → Option ApiRow
join_api none apis = none
join_api (some id) apis = find_api id apis

-- `getInvocationRuntimeRow`: the row of the API that the invocation names now.
unfoldable pub runtime_row : GoString → Store → Result StoreError ApiRow
unfolding find_invocation join_api find_api
runtime_row id s = or_fail (find_invocation id s.invocations) (invocation_not_found id) >>= λ i.
    or_fail (join_api i.api_id s.apis) (invocation_not_found id)

abbrev pub succeed_attempt : UsageMetrics → ℕ → AttemptRow → AttemptRow
succeed_attempt usage finished a = record a {
  status = InvocationStatus.success;
  finished_at = some finished;
  usage = some usage;
  error = none;
}

abbrev pub succeed_invocation :
    Option GoString → Option Fields → UsageMetrics → ℕ → InvocationRow → InvocationRow
succeed_invocation output response usage finished i = record i {
  status = InvocationStatus.success;
  finished_at = some finished;
  output_text = output;
  raw_response = response;
  usage = some usage;
  error = none;
}

abbrev pub fail_attempt : GatewayError → ℕ → AttemptRow → AttemptRow
fail_attempt e finished a = record a {
  status = InvocationStatus.failure;
  finished_at = some finished;
  usage = none;
  error = some e;
}

abbrev pub fail_invocation : GatewayError → ℕ → InvocationRow → InvocationRow
fail_invocation e finished i = record i {
  status = InvocationStatus.failure;
  finished_at = some finished;
  output_text = none;
  raw_response = none;
  usage = none;
  error = some e;
}

-- A lease is given back, and the failures are forgotten.
abbrev pub release_success : ℕ → ApiRow → ApiRow → ApiRow
release_success threshold row target = record target {
  lease_count = row.lease_count - 1;
  failure_count = 0;
  last_error = none;
  status = resolve_api_status row.enabled (row.lease_count - 1) row.max_concurrent 0 threshold;
}

abbrev pub next_failure : GatewayError → ApiRow → ℕ
next_failure e row = if counts_toward_offline e then row.failure_count + 1 else row.failure_count

-- A lease is given back, and the failure may count.
abbrev pub release_failure : ℕ → GatewayError → ApiRow → ApiRow → ApiRow
release_failure threshold e row target = record target {
  lease_count = row.lease_count - 1;
  failure_count = next_failure e row;
  last_error = some e.message;
  status =
      resolve_api_status row.enabled (row.lease_count - 1) row.max_concurrent (next_failure e row)
        threshold;
}

unfoldable pub complete_success_tx :
    InvocationReservation → Option GoString → Option Fields → UsageMetrics → ℕ → Tx InvokeResponse
unfolding runtime_row update_api update_invocation update_attempt
complete_success_tx r output response usage finished s = do
  row ← runtime_row r.invocation_id s
  guard (ltb 0 row.lease_count) (lease_underflow r.api_id)
  load_invocation_response r.invocation_id (record s {
    attempts = update_attempt r.attempt_id (succeed_attempt usage finished) s.attempts;
    invocations =
        update_invocation r.invocation_id (succeed_invocation output response usage finished)
          s.invocations;
    apis = update_api r.api_id (release_success (get_offline_failure_threshold s) row) s.apis;
  })

-- `CompleteInvocationSuccess`
unfoldable pub complete_invocation_success :
    Option GoString
    → InvocationReservation
    → Option GoString
    → Option Fields
    → UsageMetrics
    → ℕ
    → Store
    → Result StoreError InvokeResponse × Store
unfolding with_immediate_tx complete_success_tx
complete_invocation_success fault r output response usage finished =
    with_immediate_tx fault (complete_success_tx r output response usage finished)

unfoldable pub complete_failure_tx : InvocationReservation → GatewayError → ℕ → Tx (Unit {0})
unfolding runtime_row update_api update_attempt counts_toward_offline
complete_failure_tx r e finished s = do
  row ← runtime_row r.invocation_id s
  guard (ltb 0 row.lease_count) (lease_underflow r.api_id)
  ok (
    tt,
    record s {
      attempts = update_attempt r.attempt_id (fail_attempt e finished) s.attempts;
      apis = update_api r.api_id (release_failure (get_offline_failure_threshold s) e row) s.apis;
    },
  )

-- `CompleteAttemptFailure`
unfoldable pub complete_attempt_failure :
    Option GoString
    → InvocationReservation
    → GatewayError
    → ℕ
    → Store
    → Result StoreError (Unit {0}) × Store
unfolding with_immediate_tx complete_failure_tx
complete_attempt_failure fault r e finished =
    with_immediate_tx fault (complete_failure_tx r e finished)

unfoldable pub fail_invocation_tx : GoString → GatewayError → ℕ → Tx InvokeResponse
unfolding update_invocation
fail_invocation_tx id e finished s =
    load_invocation_response id
      (record s { invocations = update_invocation id (fail_invocation e finished) s.invocations })

-- `CompleteInvocationFailure`
unfoldable pub complete_invocation_failure :
    Option GoString → GoString → GatewayError → ℕ → Store → Result StoreError InvokeResponse × Store
unfolding with_immediate_tx fail_invocation_tx
complete_invocation_failure fault id e finished =
    with_immediate_tx fault (fail_invocation_tx id e finished)
