-- ===== src/Pool/Gateway/Invoked.antt =====
-- The whole loop of `invokeReserved`: it ends within the attempts that the policy allows, with an
-- answer, and the lease is back.
use openmate.Base.{
  ℕ, zero, suc, GoString, ◌=?◌, Option, none, some, Bool, true, if◌then◌else◌, Result, ok, err, ◌≡◌,
  refl, subst, arith, ◌+◌, ◌≤◌, ◌⊎◌, inl, inr, Result-cases,
}
use openmate.Base.Int.{pos_part}
use openmate.Pool.Store.Complete.{complete_attempt_failure}
use openmate.Pool.Types.{
  GatewayError, InvokeRequest, InvokeResponse, InvocationReservation, ModelConfig,
}
use openmate.Pool.Store.{Store, StoreError, database_fault, with_immediate_tx}
use openmate.Pool.Store.Reserve.{sync_then_reserve, reserve_invocation}
use openmate.Pool.Store.Leases.{Balanced, Holds, lease_of}
use openmate.Pool.Requests.{Accepted, validate_invoke_request, validate_for_mode}
use openmate.Pool.Retry.{RetryPolicy, normalized}
use openmate.Pool.Pricing.{FloatOps}
use openmate.Pool.Gateway.{
  GoError, Round, Failure, Turn, done, again, take_turn, use_outcome, loop_from, provider_failed,
  store_failed, Answer, invoke, check_mode_then_invoke, request_error, handle,
  finish_internal_failure, turn_of, invoke_reserved, resolve_retry_policy,
}
use openmate.Pool.Gateway.Turns.{
  Serves, Returns, Goes, goes_on, is_settled, take_turn-Goes, finish_internal_failure-Goes,
  sync_then_reserve-Balanced,
}

abbrev allowed : RetryPolicy → ℕ
allowed policy = pos_part (normalized policy).max_attempts

-- What the loop leaves behind.
abbrev Settles : InvocationReservation → Store → Result Failure InvokeResponse → Store → Type 0
Settles r s answer s' = Balanced s' × Returns r s s' × (is_settled answer ≡ true)

allowed-pos : (policy : RetryPolicy) → 1 ≤ allowed policy
unfolding normalized
allowed-pos policy = ground arith

goes_on-le :
    (policy : RetryPolicy) (attempt : ℕ)
    → goes_on policy attempt ≡ true
    → suc attempt ≤ allowed policy
goes_on-le policy attempt h = ground arith

Turn-cases :
    (t : Turn)
    → ((answer : Result Failure InvokeResponse) × (s : Store) × (t ≡ done answer s))
      ⊎ ((r : InvocationReservation) × (s : Store) × (t ≡ again r s))
Turn-cases (done answer s) = inl (answer, s, refl)
Turn-cases (again r s) = inr (r, s, refl)

-- The tables after a whole invocation have the leases that they had before.
abbrev pub Neutral : Store → Answer → Type 0
Neutral s a = Balanced a.1 × ((id : GoString) → lease_of id (a.1).apis ≡ lease_of id s.apis)

given_back-Neutral :
    (more : Bool) (r : InvocationReservation) (s s₁ : Store) (a : Answer)
    → ((id : GoString)
        → lease_of id s₁.apis ≡ lease_of id s.apis + (if r.api_id =? id then 1 else 0))
    → Goes more r s₁ (turn_of a)
    → Neutral s a
given_back-Neutral more r s s₁ (answer, s') took goes =
    (goes.0, λ id. ground (arith, took id, goes.1 id))

module _ (model_config_hash : ModelConfig → GoString) (describe : StoreError → GoError)
    (ops : FloatOps) where
  loop_from-Settles :
      (policy : RetryPolicy) (config : ModelConfig) (request : InvokeRequest) (rounds : ℕ → Round)
      (fuel attempt : ℕ) (r : InvocationReservation) (s : Store)
      → ((n : ℕ) → Serves (rounds n))
      → Balanced s
      → Holds r s
      → attempt ≤ allowed policy
      → suc (allowed policy) ≤ fuel + attempt
      → (answer : Result Failure InvokeResponse) × (s' : Store) × (loop_from model_config_hash
            describe ops policy config request rounds fuel attempt r s
          ≡ (answer, s'))
        × Settles r s answer s'
  unfolding loop_from
  loop_from-Settles policy config request rounds zero attempt r s serves b h low enough =
      absurd (omega arith)
  loop_from-Settles policy config request rounds (suc fuel) attempt r s serves b h low enough =
      let goes =
        take_turn-Goes model_config_hash describe ops policy config request (rounds attempt) attempt
          r s (serves attempt) b h in
      elim (Turn-cases (
        take_turn model_config_hash describe ops policy config request (rounds attempt) attempt r
          s)) [
            | inl (answer, s', e) ↦
                let settles : Goes (goes_on policy attempt) r s (done answer s') =
                  subst (Goes (goes_on policy attempt) r s) e goes in
                (answer, s', rw (e, loop_from) refl, settles)
            | inr (r', s₁, e) ↦
                let (more, b₁, h₁, leases) : Goes (goes_on policy attempt) r s (again r' s₁) =
                  subst (Goes (goes_on policy attempt) r s) e goes in
                let (answer, s', same, settles) =
                  loop_from-Settles policy config request rounds fuel (suc attempt) r' s₁ serves b₁
                    h₁ (goes_on-le policy attempt more) (omega arith) in
                (
                  answer,
                  s',
                  rw (e, loop_from) same,
                  (settles.0, (λ id. ground (arith, settles.1 id, leases id)), settles.2),
                )
          ]

  -- For balanced tables, a held reservation and a database that serves its transactions, the
  -- loop over the attempts ends within the turns that the retry policy allows, with a success or
  -- with a failure that is recorded; the tables are balanced, and exactly the lease of the
  -- reservation was given back.
  pub invoke_reserved-Balanced :
      (own : Option RetryPolicy) (config : ModelConfig) (request : InvokeRequest)
      (rounds : ℕ → Round) (r : InvocationReservation) (s : Store)
      → ((n : ℕ) → Serves (rounds n))
      → Balanced s
      → Holds r s
      → (answer : Result Failure InvokeResponse) × (s' : Store) × (invoke_reserved model_config_hash
            describe ops own config request rounds r s
          ≡ (answer, s'))
        × (is_settled answer ≡ true)
        × Balanced s'
        × ((id : GoString)
            → lease_of id s'.apis + (if r.api_id =? id then 1 else 0) ≡ lease_of id s.apis)
  unfolding invoke_reserved
  invoke_reserved-Balanced own config request rounds r s serves b h =
      let policy = resolve_retry_policy own config in
      let (answer, s', same, settles) =
        loop_from-Settles policy config request rounds (allowed policy) 1 r s serves b h
          (allowed-pos policy) (omega arith) in
      (answer, s', same, settles.2, settles.0, settles.1)

  checked-Neutral :
      (own : Option RetryPolicy) (config : ModelConfig) (request : InvokeRequest) (start : Round)
      (rounds : ℕ → Round) (r : InvocationReservation) (fits : Accepted) (s s₁ : Store)
      → Serves start
      → ((n : ℕ) → Serves (rounds n))
      → Balanced s₁
      → Holds r s₁
      → ((id : GoString)
          → lease_of id s₁.apis ≡ lease_of id s.apis + (if r.api_id =? id then 1 else 0))
      → Neutral s (
          check_mode_then_invoke model_config_hash describe ops own config request start rounds r
            fits s₁)
  unfolding check_mode_then_invoke
  checked-Neutral own config request start rounds r (err e) s s₁ first serves b h took =
      rw (first.attempt, first.finish)
        (given_back-Neutral true r s s₁
          (finish_internal_failure none none r (request_error e) start.finished_at s₁) took
          (finish_internal_failure-Goes true r (request_error e) start.finished_at s₁ b h))
  checked-Neutral own config request start rounds r (ok u) s s₁ first serves b h took =
      let (answer, s', same, settled, b', gave) =
        invoke_reserved-Balanced own config request rounds r s₁ serves b h in
      rw same (b', λ id. ground (arith, took id, gave id))

  -- For balanced tables and a database that serves its transactions, an invocation, whether its
  -- request is refused, its reservation fails, or its attempts fail or succeed, leaves the
  -- tables balanced and every API with the lease count that it had.
  pub invoke-Neutral :
      (own : Option RetryPolicy) (config : ModelConfig) (request : InvokeRequest) (start : Round)
      (rounds : ℕ → Round) (s : Store)
      → Serves start
      → ((n : ℕ) → Serves (rounds n))
      → Balanced s
      → Neutral s (invoke model_config_hash describe ops own config request start rounds s)
  unfolding invoke reserve_invocation with_immediate_tx handle
  invoke-Neutral own config request start rounds s first serves b =
      elim (Result-cases (validate_invoke_request request)) [
        | inl (e, refused) ↦ rw (refused, invoke) (b, λ id. refl)
        | inr (u, accepted) ↦
            elim (Result-cases
              (sync_then_reserve model_config_hash config request none start.fresh s)) [
                | inl (x, failed) ↦
                    rw (accepted, first.retry, invoke, with_immediate_tx, failed) (b, λ id. refl)
                | inr ((r, s₁), reserved) ↦
                    let (b₁, held, took) =
                      sync_then_reserve-Balanced model_config_hash describe ops config request none
                        start.fresh s r s₁ b reserved in
                    rw (accepted, first.retry, invoke, with_immediate_tx, reserved)
                      (checked-Neutral own config request start rounds r
                        (validate_for_mode request r.api_mode) s s₁ first serves b₁ held took)
              ]
      ]

  refused_turn :
      (policy : RetryPolicy) (config : ModelConfig) (request : InvokeRequest) (round : Round)
      (attempt : ℕ) (r : InvocationReservation) (s : Store) (e : GatewayError) (fault : GoString)
      → round.factory_error ≡ none
      → round.outcome ≡ provider_failed e
      → round.attempt_fault ≡ some fault
      → take_turn model_config_hash describe ops policy config request round attempt r s
        ≡ done (err (store_failed (database_fault fault))) s
  unfolding take_turn use_outcome complete_attempt_failure with_immediate_tx handle
  refused_turn policy config request round attempt r s e fault made failed refused =
      ground (arith, made, failed, refused)

  ends_at_once :
      (policy : RetryPolicy) (config : ModelConfig) (request : InvokeRequest) (rounds : ℕ → Round)
      (fuel attempt : ℕ) (r : InvocationReservation) (s : Store)
      (answer : Result Failure InvokeResponse) (s' : Store)
      → 1 ≤ fuel
      → take_turn model_config_hash describe ops policy config request (rounds attempt) attempt r s
        ≡ done answer s'
      → loop_from model_config_hash describe ops policy config request rounds fuel attempt r s
        ≡ (answer, s')
  unfolding loop_from
  ends_at_once policy config request rounds zero attempt r s answer s' some_fuel e =
      absurd (omega arith)
  ends_at_once policy config request rounds (suc fuel) attempt r s answer s' some_fuel e =
      rw (e, loop_from) refl

  -- When the database refuses to record the failure of the first attempt, after a request that
  -- is accepted and a reservation that succeeds, the invocation ends with the database's error,
  -- its reservation is still held, and its API has one lease more than before.
  pub invoke-keeps_lease :
      (own : Option RetryPolicy) (config : ModelConfig) (request : InvokeRequest) (start : Round)
      (rounds : ℕ → Round) (s s₁ : Store) (r : InvocationReservation) (e : GatewayError)
      (fault : GoString)
      → Serves start
      → Balanced s
      → validate_invoke_request request ≡ ok tt
      → sync_then_reserve model_config_hash config request none start.fresh s ≡ ok (r, s₁)
      → validate_for_mode request r.api_mode ≡ ok tt
      → (rounds 1).factory_error ≡ none
      → (rounds 1).outcome ≡ provider_failed e
      → (rounds 1).attempt_fault ≡ some fault
      → (invoke model_config_hash describe ops own config request start rounds s
          ≡ (err (store_failed (database_fault fault)), s₁))
        × Holds r s₁
        × (lease_of r.api_id s₁.apis ≡ suc (lease_of r.api_id s.apis))
  unfolding invoke reserve_invocation with_immediate_tx handle check_mode_then_invoke
      invoke_reserved
  invoke-keeps_lease own config request start rounds s s₁ r e fault first b accepted reserved fits
        made failed refused =
      let (_, held, took) =
        sync_then_reserve-Balanced model_config_hash describe ops config request none start.fresh s
          r s₁ b reserved in
      let policy = resolve_retry_policy own config in
      let ends =
        ends_at_once policy config request rounds (allowed policy) 1 r s₁
          (err (store_failed (database_fault fault))) s₁ (allowed-pos policy)
          (refused_turn policy config request (rounds 1) 1 r s₁ e fault made failed refused) in
      (
        ground (arith, accepted, first.retry, reserved, fits, ends),
        held,
        ground (arith, took r.api_id),
      )
