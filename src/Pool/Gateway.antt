-- ===== src/Pool/Gateway.antt =====
-- internal/poolgateway/gateway.go: an invocation over a provider, with its retries. What a provider,
-- the clock, the wait and the database answer during one attempt is a `Round`.
pub mod Turns
pub mod Invoked
mod Tests
use openmate.Base.{
  ℕ, zero, suc, GoString, codes, Option, none, some, Bool, true, false, not, if◌then◌else◌, ◌&&◌,
  ◌||◌, Result, ok, err, ◌>>=◌,
}
use openmate.Base.Int.{ℤ, pos, pos_part}
use openmate.Base.Json.{Json, Fields, empty_fields, field}
use openmate.Pool.Types.{
  GatewayError, UsageMetrics, InvokeRequest, InvokeResponse, InvocationReservation, ModelConfig,
}
use openmate.Pool.Store.{Store, StoreError, no_capacity, global_quota}
use openmate.Pool.Store.Reserve.{Fresh, reserve_invocation, reserve_retry_attempt}
use openmate.Pool.Store.Load.{elapsed_ms}
use openmate.Pool.Store.Complete.{
  complete_invocation_success, complete_attempt_failure, complete_invocation_failure,
}
use openmate.Pool.Requests.{
  RequestError, Accepted, validate_invoke_request, validate_for_mode, error_text,
}
use openmate.Pool.Retry.{RetryPolicy, should_retry, backoff_for, normalized, retry_policy}
use openmate.Pool.Pricing.{FloatOps, finalize_usage}

-- An `error` as `internalGatewayError` reads it: its text, and whether it is one of two others.
pub record GoError : Type 0 where
  pub message : GoString
  pub is_deadline_exceeded : Bool
  pub is_canceled : Bool

pub record ProviderInvokeResult : Type 0 where
  pub output_text : Option GoString
  pub response : Option Fields
  pub usage : Option UsageMetrics

-- `provider.Invoke`: a result, a ProviderInvocationError, or another error.
pub data Outcome : Type 0 where
  produced : ProviderInvokeResult → Outcome
  provider_failed : GatewayError → Outcome
  other_failed : GoError → Outcome

pub record Round : Type 0 where
  pub factory_error : Option GoError
  pub outcome : Outcome
  pub finished_at : ℕ
  pub attempt_fault : Option GoString
  pub finish_fault : Option GoString
  pub sleep : ℤ → Option GoError
  pub retry_fault : Option GoString
  pub fresh : Fresh
  pub given_up_at : ℕ

-- What `Invoke` returns as its error.
pub data Failure : Type 0 where
  invocation_failed : InvokeResponse → Failure
  store_failed : StoreError → Failure
  invalid_request : RequestError → Failure
  out_of_fuel : Failure

abbrev pub Answer : Type 0
Answer = Result Failure InvokeResponse × Store

-- One turn of the loop of `invokeReserved`: the answer, or the reservation of the next attempt.
pub data Turn : Type 0 where
  done : Result Failure InvokeResponse → Store → Turn
  again : InvocationReservation → Store → Turn

abbrev pub exception_type : GoError → GoString
exception_type e =
    if e.is_deadline_exceeded
    then codes "context_deadline_exceeded"
    else if e.is_canceled
    then codes "context_canceled"
    else codes "internal_error"

-- `internalGatewayError`
abbrev pub internal_gateway_error : GoError → GatewayError
internal_gateway_error e = record {
  code = codes "gateway_internal_error";
  message = e.message;
  retryable = false;
  provider_status_code = none;
  details = field (codes "exception_type") (Json.text (exception_type e)) empty_fields;
}

-- What follows a call of the store: `if err != nil { … }`, and the rest.
unfoldable pub handle {ℓ} :
    {A : Type 0} {C : Type ℓ}
    → Result StoreError A × Store
    → (A → Store → C)
    → (StoreError → Store → C)
    → C
handle (ok a, s) next fail = next a s
handle (err x, s) next fail = fail x s

abbrev pub store_refuses : StoreError → Store → Answer
store_refuses x s = (err (store_failed x), s)

-- `finishInvocationFailure`
unfoldable pub finish_invocation_failure :
    Option GoString → GoString → GatewayError → ℕ → Store → Answer
unfolding complete_invocation_failure handle
finish_invocation_failure fault id e at s =
    handle (complete_invocation_failure fault id e at s)
      (λ response s'. (err (invocation_failed response), s')) store_refuses

-- `finishInternalFailure`
unfoldable pub finish_internal_failure :
    Option GoString → Option GoString → InvocationReservation → GoError → ℕ → Store → Answer
unfolding complete_attempt_failure finish_invocation_failure handle
finish_internal_failure fault fault' r e at s =
    handle (complete_attempt_failure fault r (internal_gateway_error e) at s)
      (λ u s'. finish_invocation_failure fault' r.invocation_id (internal_gateway_error e) at s')
      store_refuses

abbrev pub turn_of : Answer → Turn
turn_of (answer, s) = done answer s

-- `errors.Is(reserveErr, ErrNoCapacity) || errors.Is(reserveErr, ErrGlobalQuota)`
unfoldable pub is_full : StoreError → Bool
is_full no_capacity = true
is_full global_quota = true
is_full _ = false

-- The error of a request that does not fit the API's mode.
abbrev pub request_error : RequestError → GoError
request_error e = record {
  message = error_text e;
  is_deadline_exceeded = false;
  is_canceled = false;
}

-- `resolveRetryPolicy`
unfoldable pub resolve_retry_policy : Option RetryPolicy → ModelConfig → RetryPolicy
unfolding normalized retry_policy
resolve_retry_policy none config = retry_policy config
resolve_retry_policy (some own) config = normalized own

module _ (model_config_hash : ModelConfig → GoString) (describe : StoreError → GoError)
    (ops : FloatOps) where
  -- The reservation of the next attempt, or the end of the invocation.
  unfoldable pub reserve_next :
      ModelConfig → InvokeRequest → Round → InvocationReservation → GatewayError → Store → Turn
  unfolding reserve_retry_attempt finish_invocation_failure is_full handle
  reserve_next config request round r e s =
      handle
        (reserve_retry_attempt model_config_hash round.retry_fault config r.invocation_id request
          round.fresh s)
        again
        (λ x s'. turn_of (
          finish_invocation_failure round.finish_fault r.invocation_id
            (if is_full x then e else internal_gateway_error (describe x)) round.given_up_at s'))

  -- After an attempt whose failure is recorded.
  unfoldable pub after_failure :
      RetryPolicy
      → ModelConfig
      → InvokeRequest
      → Round
      → ℕ
      → InvocationReservation
      → GatewayError
      → Store
      → Turn
  unfolding should_retry backoff_for reserve_next finish_invocation_failure
  after_failure policy config request round attempt r e s =
      if request.stream_sink || not (should_retry policy attempt e)
      then turn_of
          (finish_invocation_failure round.finish_fault r.invocation_id e round.finished_at s)
      else elim (round.sleep (backoff_for policy (pos attempt))) [
        | some interrupted ↦ turn_of (
            finish_invocation_failure round.finish_fault r.invocation_id
              (internal_gateway_error interrupted) round.given_up_at s)
        | none ↦ reserve_next config request round r e s
      ]

  unfoldable pub use_outcome :
      RetryPolicy
      → ModelConfig
      → InvokeRequest
      → Round
      → ℕ
      → InvocationReservation
      → Outcome
      → Store
      → Turn
  unfolding after_failure finish_internal_failure complete_attempt_failure
      complete_invocation_success finalize_usage elapsed_ms handle
  use_outcome policy config request round attempt r (produced result) s =
      handle
        (complete_invocation_success round.attempt_fault r result.output_text result.response
          (finalize_usage ops result.usage (elapsed_ms r.started_at round.finished_at) r.pricing)
          round.finished_at s)
        (λ response s'. done (ok response) s') (λ x s'. turn_of (store_refuses x s'))
  use_outcome policy config request round attempt r (provider_failed e) s =
      handle (complete_attempt_failure round.attempt_fault r e round.finished_at s)
        (λ u s'. after_failure policy config request round attempt r e s')
        (λ x s'. turn_of (store_refuses x s'))
  use_outcome policy config request round attempt r (other_failed e) s =
      turn_of
        (finish_internal_failure round.attempt_fault round.finish_fault r e round.finished_at s)

  -- One turn of the loop.
  unfoldable pub take_turn :
      RetryPolicy → ModelConfig → InvokeRequest → Round → ℕ → InvocationReservation → Store → Turn
  unfolding use_outcome finish_internal_failure
  take_turn policy config request round attempt r s = elim round.factory_error [
    | some e ↦
        turn_of
          (finish_internal_failure round.attempt_fault round.finish_fault r e round.finished_at s)
    | none ↦ use_outcome policy config request round attempt r round.outcome s
  ]

  -- The loop of `invokeReserved`, from an attempt on, with fuel.
  unfoldable pub loop_from :
      RetryPolicy
      → ModelConfig
      → InvokeRequest
      → (ℕ → Round)
      → ℕ
      → ℕ
      → InvocationReservation
      → Store
      → Answer
  unfolding take_turn
  loop_from policy config request rounds zero attempt r s = (err out_of_fuel, s)
  loop_from policy config request rounds (suc fuel) attempt r s =
      elim (take_turn policy config request (rounds attempt) attempt r s) [
        | done answer s' ↦ (answer, s')
        | again r' s' ↦ loop_from policy config request rounds fuel (suc attempt) r' s'
      ]

  -- `invokeReserved`, with fuel for as many turns as the policy allows.
  unfoldable pub invoke_reserved :
      Option RetryPolicy
      → ModelConfig
      → InvokeRequest
      → (ℕ → Round)
      → InvocationReservation
      → Store
      → Answer
  unfolding loop_from resolve_retry_policy normalized
  invoke_reserved own config request rounds r s =
      let policy = resolve_retry_policy own config in
      loop_from policy config request rounds (pos_part (normalized policy).max_attempts) 1 r s

  -- A reserved invocation whose request may not fit the mode of its API.
  unfoldable pub check_mode_then_invoke :
      Option RetryPolicy
      → ModelConfig
      → InvokeRequest
      → Round
      → (ℕ → Round)
      → InvocationReservation
      → Accepted
      → Store
      → Answer
  unfolding finish_internal_failure invoke_reserved error_text
  check_mode_then_invoke own config request start rounds r (err e) s =
      finish_internal_failure start.attempt_fault start.finish_fault r (request_error e)
        start.finished_at s
  check_mode_then_invoke own config request start rounds r (ok u) s =
      invoke_reserved own config request rounds r s

  -- `Invoke`, once the configuration is loaded; `start` answers before the first attempt.
  unfoldable pub invoke :
      Option RetryPolicy → ModelConfig → InvokeRequest → Round → (ℕ → Round) → Store → Answer
  unfolding validate_invoke_request reserve_invocation validate_for_mode check_mode_then_invoke
      handle
  invoke own config request start rounds s = elim (validate_invoke_request request) [
    | err e ↦ (err (invalid_request e), s)
    | ok u ↦
        handle (reserve_invocation model_config_hash start.retry_fault config request start.fresh s)
          (λ r s'.
            check_mode_then_invoke own config request start rounds r
              (validate_for_mode request r.api_mode) s')
          store_refuses
  ]
