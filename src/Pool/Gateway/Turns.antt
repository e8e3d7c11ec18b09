-- ===== src/Pool/Gateway/Turns.antt =====
-- What a turn of the loop does to the leases, when the database serves its transactions.
use openmate.Base.{
  ℕ, GoString, ◌=?◌, Option, none, some, Bool, true, false, not, if◌then◌else◌, ◌||◌, Result, ok,
  err, ◌≡◌, refl, ap, arith, ◌+◌, inl, inr, Bool-cases, Option-cases, Result-cases,
}
use openmate.Base.Int.{pos, ltb_ℤ}
use openmate.Pool.Types.{
  GatewayError, InvokeRequest, InvokeResponse, InvocationReservation, InvocationStatus, ModelConfig,
}
use openmate.Pool.Store.{
  Store, StoreError, InvocationRow, find_invocation, update_invocation, with_immediate_tx,
}
use openmate.Pool.Store.Tables.{find_invocation-update_invocation}
use openmate.Pool.Store.Leases.{
  Balanced, Holds, lease_of, complete_failure_tx-Balanced, complete_success_tx-Balanced,
  count-update_invocation, load_response_found,
}
use openmate.Pool.Store.Load.{elapsed_ms}
use openmate.Pool.Store.Sync.{sync_config}
use openmate.Pool.Store.Synced.{sync_config-Balanced}
use openmate.Pool.Store.Reserve.{Fresh, sync_then_reserve, reserve_retry_attempt}
use openmate.Pool.Store.Reserved.{reserve_attempt-Balanced}
use openmate.Pool.Store.Complete.{
  complete_invocation_success, complete_attempt_failure, complete_invocation_failure,
  fail_invocation_tx, fail_invocation,
}
use openmate.Pool.Retry.{RetryPolicy, should_retry, backoff_for, normalized}
use openmate.Pool.Pricing.{FloatOps, finalize_usage}
use openmate.Pool.Gateway.{
  GoError, Round, Outcome, produced, provider_failed, other_failed, Failure, invocation_failed,
  Turn, done, again, turn_of, handle, finish_invocation_failure, finish_internal_failure,
  internal_gateway_error, reserve_next, after_failure, use_outcome, take_turn, is_full,
}

-- The database serves every transaction of the round.
pub record Serves (round : Round) : Type 0 where
  pub attempt : round.attempt_fault ≡ none
  pub finish : round.finish_fault ≡ none
  pub retry : round.retry_fault ≡ none

abbrev is_success : InvocationStatus → Bool
is_success InvocationStatus.running = false
is_success InvocationStatus.success = true
is_success InvocationStatus.failure = false

abbrev is_failure : InvocationStatus → Bool
is_failure InvocationStatus.running = false
is_failure InvocationStatus.success = false
is_failure InvocationStatus.failure = true

-- The answer is a success, or an invocation that has failed and says so.
abbrev pub is_settled : Result Failure InvokeResponse → Bool
is_settled (ok response) = is_success response.status
is_settled (err (invocation_failed response)) = is_failure response.status
is_settled (err _) = false

-- Between two tables, one lease of the reservation's API was given back, and no other changed.
abbrev pub Returns : InvocationReservation → Store → Store → Type 0
Returns r s s' =
    (id : GoString) → lease_of id s'.apis + (if r.api_id =? id then 1 else 0) ≡ lease_of id s.apis

-- A turn gives back the lease that it was given; before another turn, where `more`
-- allows it, it takes one.
abbrev pub Goes : Bool → InvocationReservation → Store → Turn → Type 0
Goes more r s (done answer s') = Balanced s' × Returns r s s' × (is_settled answer ≡ true)
Goes more r s (again r' s') =
    (more ≡ true)
    × Balanced s'
    × Holds r' s'
    × ((id : GoString)
        → lease_of id s'.apis + (if r.api_id =? id then 1 else 0)
          ≡ lease_of id s.apis + (if r'.api_id =? id then 1 else 0))

-- Whether the policy allows another attempt after this one.
abbrev pub goes_on : RetryPolicy → ℕ → Bool
goes_on policy attempt = ltb_ℤ (pos attempt) (normalized policy).max_attempts

-- Once the failure of the attempt is recorded.
record Released (r : InvocationReservation) (s s' : Store) : Type 0 where
  pub balanced : Balanced s'
  pub returns : Returns r s s'
  pub invocation : InvocationRow
  pub found : find_invocation r.invocation_id s'.invocations ≡ some invocation

fail_invocation-Settled :
    (id : GoString) (e : GatewayError) (at : ℕ) (s : Store) (i : InvocationRow)
    → Balanced s
    → find_invocation id s.invocations ≡ some i
    → (response : InvokeResponse) × (s' : Store) × (finish_invocation_failure none id e at s
        ≡ (err (invocation_failed response), s'))
      × Balanced s'
      × (s'.apis ≡ s.apis)
      × (is_failure response.status ≡ true)
unfolding finish_invocation_failure complete_invocation_failure with_immediate_tx fail_invocation_tx
    handle
fail_invocation-Settled id e at s i b found =
    let g = fail_invocation e at in
    let s' : Store = record s { invocations = update_invocation id g s.invocations } in
    let here : find_invocation id s'.invocations ≡ some (g i) =
      ground (arith, find_invocation-update_invocation id id g s.invocations (λ q. refl), found) in
    let (response, loaded, status, _) = load_response_found id s' (g i) here in
    (
      response,
      s',
      ground (arith, loaded),
      record {
        leases = b.leases;
        apis_unique = b.apis_unique;
        attempts_unique = b.attempts_unique;
        invocations_unique = λ k.
            rw (count-update_invocation (λ j. j.invocation_id =? k) id g s.invocations (λ j. refl))
              (b.invocations_unique k);
      },
      refl,
      ap is_failure status,
    )

finish-Goes :
    (more : Bool) (r : InvocationReservation) (e : GatewayError) (at : ℕ) (s s₁ : Store)
    → Released r s s₁
    → Goes more r s (turn_of (finish_invocation_failure none r.invocation_id e at s₁))
finish-Goes more r e at s s₁ v =
    let (response, s', same, b, apis, failed) =
      fail_invocation-Settled r.invocation_id e at s₁ v.invocation v.balanced v.found in
    rw same (b, (λ id. rw apis (v.returns id)), failed)

complete_attempt_failure-Released :
    (r : InvocationReservation) (e : GatewayError) (at : ℕ) (s : Store)
    → Balanced s
    → Holds r s
    → (s' : Store) × (complete_attempt_failure none r e at s ≡ (ok tt, s')) × Released r s s'
unfolding complete_attempt_failure with_immediate_tx
complete_attempt_failure-Released r e at s b h =
    let (s', done_, b', same, returns) = complete_failure_tx-Balanced r e at s b h in
    (
      s',
      ground (arith, done_),
      record {
        balanced = b';
        returns = returns;
        invocation = h.invocation;
        found = rw same h.invocation_found;
      },
    )

pub finish_internal_failure-Goes :
    (more : Bool) (r : InvocationReservation) (e : GoError) (at : ℕ) (s : Store)
    → Balanced s
    → Holds r s
    → Goes more r s (turn_of (finish_internal_failure none none r e at s))
unfolding finish_internal_failure handle
finish_internal_failure-Goes more r e at s b h =
    let (s', recorded, v) =
      complete_attempt_failure-Released r (internal_gateway_error e) at s b h in
    rw recorded (finish-Goes more r (internal_gateway_error e) at s s' v)

module _ (model_config_hash : ModelConfig → GoString) (describe : StoreError → GoError)
    (ops : FloatOps) where
  -- A reservation that follows a synchronization.
  pub sync_then_reserve-Balanced :
      (config : ModelConfig) (request : InvokeRequest) (invocation : Option GoString)
      (fresh : Fresh) (s : Store) (r : InvocationReservation) (s' : Store)
      → Balanced s
      → sync_then_reserve model_config_hash config request invocation fresh s ≡ ok (r, s')
      → Balanced s'
        × Holds r s'
        × ((id : GoString)
            → lease_of id s'.apis ≡ lease_of id s.apis + (if r.api_id =? id then 1 else 0))
  unfolding sync_then_reserve
  sync_then_reserve-Balanced config request invocation fresh s r s' b h =
      elim (Result-cases (sync_config model_config_hash config s)) [
        | inl (x, e) ↦ absurd (ground (arith, e, h))
        | inr ((u, s₁), e) ↦
            let (b₁, attempts, _) = sync_config-Balanced model_config_hash config s s₁ b e in
            let (b₂, held, leases) =
              reserve_attempt-Balanced config request invocation fresh s₁ r s' b₁
                (ground (arith, e, h)) in
            (b₂, held, λ id. ground (arith, leases id, b₁.leases id, b.leases id, attempts))
      ]

  reserve_next-Goes :
      (more : Bool) (config : ModelConfig) (request : InvokeRequest) (round : Round)
      (r : InvocationReservation) (e : GatewayError) (s s₁ : Store)
      → more ≡ true
      → Serves round
      → Released r s s₁
      → Goes more r s (reserve_next model_config_hash describe ops config request round r e s₁)
  unfolding reserve_next reserve_retry_attempt with_immediate_tx handle
  reserve_next-Goes more config request round r e s s₁ allowed serves v =
      elim (Result-cases (
        sync_then_reserve model_config_hash config request (some r.invocation_id) round.fresh s₁)) [
          | inl (x, failed) ↦
              rw (serves.retry, serves.finish, with_immediate_tx, failed)
                (finish-Goes more r (if is_full x then e else internal_gateway_error (describe x))
                  round.given_up_at s s₁ v)
          | inr ((r', s₂), reserved) ↦
              let (b, held, leases) =
                sync_then_reserve-Balanced config request (some r.invocation_id) round.fresh s₁ r'
                  s₂ v.balanced reserved in
              rw (serves.retry, with_immediate_tx, reserved)
                (allowed, b, held, λ id. ground (arith, leases id, v.returns id))
        ]

  after_failure-Goes :
      (policy : RetryPolicy) (config : ModelConfig) (request : InvokeRequest) (round : Round)
      (attempt : ℕ) (r : InvocationReservation) (e : GatewayError) (s s₁ : Store)
      → Serves round
      → Released r s s₁
      → Goes
          (goes_on policy attempt)
          r
          s
          (after_failure model_config_hash describe ops policy config request round attempt r e s₁)
  unfolding after_failure should_retry
  after_failure-Goes policy config request round attempt r e s s₁ serves v =
      elim (Bool-cases (request.stream_sink || not (should_retry policy attempt e))) [
        | inl last ↦
            rw (last, serves.finish)
              (finish-Goes (goes_on policy attempt) r e round.finished_at s s₁ v)
        | inr more ↦ elim (Option-cases (round.sleep (backoff_for policy (pos attempt)))) [
          | inl slept ↦
              rw (more, slept)
                (reserve_next-Goes (goes_on policy attempt) config request round r e s s₁
                  (ground (arith, more)) serves v)
          | inr (x, woken) ↦
              rw (more, woken, serves.finish)
                (finish-Goes (goes_on policy attempt) r (internal_gateway_error x) round.given_up_at
                  s s₁ v)
        ]
      ]

  use_outcome-Goes :
      (policy : RetryPolicy) (config : ModelConfig) (request : InvokeRequest) (round : Round)
      (attempt : ℕ) (r : InvocationReservation) (outcome : Outcome) (s : Store)
      → Serves round
      → Balanced s
      → Holds r s
      → Goes (goes_on policy attempt) r s (
          use_outcome model_config_hash describe ops policy config request round attempt r outcome
            s)
  unfolding use_outcome handle complete_invocation_success with_immediate_tx
  use_outcome-Goes policy config request round attempt r (produced result) s serves b h =
      let usage =
        finalize_usage ops result.usage (elapsed_ms r.started_at round.finished_at) r.pricing in
      let (response, s', completed, b', status, returns) =
        complete_success_tx-Balanced r result.output_text result.response usage round.finished_at s
          b h in
      rw (serves.attempt, with_immediate_tx, completed) (b', returns, ap is_success status)
  use_outcome-Goes policy config request round attempt r (provider_failed e) s serves b h =
      let (s', recorded, v) = complete_attempt_failure-Released r e round.finished_at s b h in
      rw (serves.attempt, recorded)
        (after_failure-Goes policy config request round attempt r e s s' serves v)
  use_outcome-Goes policy config request round attempt r (other_failed e) s serves b h =
      rw (serves.attempt, serves.finish)
        (finish_internal_failure-Goes (goes_on policy attempt) r e round.finished_at s b h)

  -- A turn gives back the lease of its reservation, whatever the provider answers.
  pub take_turn-Goes :
      (policy : RetryPolicy) (config : ModelConfig) (request : InvokeRequest) (round : Round)
      (attempt : ℕ) (r : InvocationReservation) (s : Store)
      → Serves round
      → Balanced s
      → Holds r s
      → Goes
          (goes_on policy attempt)
          r
          s
          (take_turn model_config_hash describe ops policy config request round attempt r s)
  unfolding take_turn
  take_turn-Goes policy config request round attempt r s serves b h =
      elim (Option-cases round.factory_error) [
        | inl e ↦
            rw e (use_outcome-Goes policy config request round attempt r round.outcome s serves b h)
        | inr (x, e) ↦
            rw (e, serves.attempt, serves.finish)
              (finish_internal_failure-Goes (goes_on policy attempt) r x round.finished_at s b h)
      ]
