-- ===== src/Pool/Store/Leases.antt =====
-- The account of the leases: the lease count of each API is the number of attempts that it serves.
use openmate.Base.{
  ℕ, GoString, ◌=?◌, Option, none, some, List, [], ◌∷◌, Bool, true, false, if◌then◌else◌, ◌≡◌, refl,
  inl, inr, count, arith, ◌+◌, ◌-◌, ◌≤◌, ◌<◌, ap, Option-cases, ok, subst,
}
use openmate.Base.Json.{Fields}
use openmate.Pool.Types.{
  InvocationStatus, InvocationReservation, GatewayError, UsageMetrics, InvokeResponse,
}
use openmate.Pool.Store.{
  ApiRow, InvocationRow, AttemptRow, Store, find_api, find_invocation, update_api,
  update_invocation, update_attempt, is_running, get_offline_failure_threshold,
}
use openmate.Pool.Store.Tables.{
  find_api-update_api, find_invocation-update_invocation, find_attempt, running_on,
  running_on-update_attempt, running_on-pos,
}
use openmate.Pool.Store.Complete.{
  runtime_row, fail_attempt, succeed_attempt, succeed_invocation, release_failure, release_success,
  complete_failure_tx, complete_success_tx,
}
use openmate.Pool.Store.Load.{
  load_invocation_response, load_invocation_record, to_record, to_response,
}

-- The lease count of an API; one that is not in the table has none.
unfoldable pub lease_of : GoString → List ApiRow → ℕ
lease_of id apis = elim (find_api id apis) [ none ↦ 0 | some row ↦ row.lease_count ]

pub record Balanced (s : Store) : Type 0 where
  pub leases : (id : GoString) → lease_of id s.apis ≡ running_on id s.attempts
  pub apis_unique : (id : GoString) → count (λ r. r.api_id =? id) s.apis ≤ 1
  pub attempts_unique : (id : GoString) → count (λ a. a.attempt_id =? id) s.attempts ≤ 1
  pub invocations_unique : (id : GoString) → count (λ i. i.invocation_id =? id) s.invocations ≤ 1

-- A reservation is held: its attempt runs on its API, and its invocation names that API.
pub record Holds (r : InvocationReservation) (s : Store) : Type 0 where
  pub attempt : AttemptRow
  pub attempt_found : find_attempt r.attempt_id s.attempts ≡ some attempt
  pub attempt_runs : is_running attempt.status ≡ true
  pub attempt_api : attempt.api_id ≡ r.api_id
  pub invocation : InvocationRow
  pub invocation_found : find_invocation r.invocation_id s.invocations ≡ some invocation
  pub invocation_api : invocation.api_id ≡ some r.api_id

pub count-update_api :
    (p : ApiRow → Bool) (k : GoString) (f : ApiRow → ApiRow) (rows : List ApiRow)
    → ((row : ApiRow) → p (f row) ≡ p row)
    → count p (update_api k f rows) ≡ count p rows
unfolding update_api
count-update_api p k f [] h = refl
count-update_api p k f (row ∷ rows) h = ground (arith, h row, count-update_api p k f rows h)

pub count-update_attempt :
    (p : AttemptRow → Bool) (k : GoString) (f : AttemptRow → AttemptRow) (rows : List AttemptRow)
    → ((row : AttemptRow) → p (f row) ≡ p row)
    → count p (update_attempt k f rows) ≡ count p rows
unfolding update_attempt
count-update_attempt p k f [] h = refl
count-update_attempt p k f (row ∷ rows) h = ground (arith, h row, count-update_attempt p k f rows h)

pub lease_of-update_api :
    (id k : GoString) (f : ApiRow → ApiRow) (rows : List ApiRow) (row : ApiRow)
    → ((r : ApiRow) → (f r).api_id ≡ r.api_id)
    → find_api k rows ≡ some row
    → lease_of id (update_api k f rows)
      ≡ (if k =? id then (f row).lease_count else lease_of id rows)
unfolding lease_of
lease_of-update_api id k f rows row h e =
    rw (find_api-update_api id k f rows h, lease_of) (ground arith)

pub lease_of_found :
    (id : GoString) (apis : List ApiRow) (row : ApiRow)
    → find_api id apis ≡ some row
    → lease_of id apis ≡ row.lease_count
unfolding lease_of
lease_of_found id apis row e = rw (e, lease_of)

pub count-update_invocation :
    (p : InvocationRow → Bool) (k : GoString) (f : InvocationRow → InvocationRow)
    (rows : List InvocationRow)
    → ((row : InvocationRow) → p (f row) ≡ p row)
    → count p (update_invocation k f rows) ≡ count p rows
unfolding update_invocation
count-update_invocation p k f [] h = refl
count-update_invocation p k f (row ∷ rows) h =
    ground (arith, h row, count-update_invocation p k f rows h)

-- A held reservation has a lease to give back.
pub held_row :
    (r : InvocationReservation) (s : Store)
    → Balanced s
    → Holds r s
    → (row : ApiRow) × (find_api r.api_id s.apis ≡ some row)
      × (runtime_row r.invocation_id s ≡ ok row)
      × (0 < row.lease_count)
unfolding lease_of runtime_row
held_row r s b h =
    let one =
      subst (λ id. 1 ≤ running_on id s.attempts) h.attempt_api
        (running_on-pos r.attempt_id s.attempts h.attempt h.attempt_found h.attempt_runs) in
    elim (Option-cases (find_api r.api_id s.apis)) [
      | inl e ↦ absurd (ground (arith, b.leases r.api_id, one))
      | inr (row, e) ↦ (
        row,
        e,
        ground (arith, h.invocation_found, h.invocation_api, e),
        ground (arith, b.leases r.api_id, one),
      )
    ]

-- What both ends of an attempt do to the account.
released-Balanced :
    (r : InvocationReservation) (s : Store) (row : ApiRow) (f : ApiRow → ApiRow)
    (g : AttemptRow → AttemptRow) (invocations : List InvocationRow)
    → Balanced s
    → Holds r s
    → find_api r.api_id s.apis ≡ some row
    → ((q : ApiRow) → (f q).api_id ≡ q.api_id)
    → (f row).lease_count ≡ row.lease_count - 1
    → ((a : AttemptRow) → is_running (g a).status ≡ false)
    → ((a : AttemptRow) → (g a).attempt_id ≡ a.attempt_id)
    → ((id : GoString) → count (λ i. i.invocation_id =? id) invocations ≤ 1)
    → Balanced (record s {
      attempts = update_attempt r.attempt_id g s.attempts;
      invocations = invocations;
      apis = update_api r.api_id f s.apis;
    })
unfolding lease_of
released-Balanced r s row f g invocations b h e keeps gives stops same distinct = record {
  leases = λ id. ground (
    arith,
    b.leases id,
    b.leases r.api_id,
    lease_of-update_api id r.api_id f s.apis row keeps e,
    gives,
    running_on-update_attempt id r.attempt_id g s.attempts h.attempt stops
        (b.attempts_unique r.attempt_id) h.attempt_found h.attempt_runs,
    h.attempt_api,
    e,
  );
  apis_unique = λ id.
      rw
        (count-update_api (λ q. q.api_id =? id) r.api_id f s.apis
          (λ q. ap (λ k. k =? id) (keeps q)))
        (b.apis_unique id);
  attempts_unique = λ id.
      rw
        (count-update_attempt (λ a. a.attempt_id =? id) r.attempt_id g s.attempts
          (λ a. ap (λ k. k =? id) (same a)))
        (b.attempts_unique id);
  invocations_unique = distinct;
}

-- What a release changes in the lease counts.
returned :
    (r : InvocationReservation) (s : Store) (row : ApiRow) (f : ApiRow → ApiRow)
    → Balanced s
    → Holds r s
    → find_api r.api_id s.apis ≡ some row
    → ((q : ApiRow) → (f q).api_id ≡ q.api_id)
    → (f row).lease_count ≡ row.lease_count - 1
    → 0 < row.lease_count
    → (id : GoString)
    → lease_of id (update_api r.api_id f s.apis) + (if r.api_id =? id then 1 else 0)
      ≡ lease_of id s.apis
unfolding lease_of
returned r s row f b h found keeps gives positive id =
    ground (arith, lease_of-update_api id r.api_id f s.apis row keeps found, gives, found)

-- For tables that are balanced (each API's lease count is the number of running attempts on it,
-- keys are distinct) and a reservation that is held in them, the failure of its attempt is
-- always recorded: the transaction succeeds, leaves the tables balanced and the invocations
-- unchanged, and gives back exactly one lease of the reservation's API.
pub complete_failure_tx-Balanced :
    (r : InvocationReservation) (e : GatewayError) (finished : ℕ) (s : Store)
    → Balanced s
    → Holds r s
    → (s' : Store) × (complete_failure_tx r e finished s ≡ ok (tt, s'))
      × Balanced s'
      × (s'.invocations ≡ s.invocations)
      × ((id : GoString)
          → lease_of id s'.apis + (if r.api_id =? id then 1 else 0) ≡ lease_of id s.apis)
unfolding complete_failure_tx
complete_failure_tx-Balanced r e finished s b h =
    let (row, found, runtime, positive) = held_row r s b h in
    let threshold = get_offline_failure_threshold s in
    let f = release_failure threshold e row in
    (
      record s {
        attempts = update_attempt r.attempt_id (fail_attempt e finished) s.attempts;
        apis = update_api r.api_id f s.apis;
      },
      ground (arith, runtime, positive),
      released-Balanced r s row f (fail_attempt e finished) s.invocations b h found (λ q. refl) refl
          (λ a. refl) (λ a. refl) b.invocations_unique,
      refl,
      returned r s row f b h found (λ q. refl) refl positive,
    )

pub load_response_found :
    (id : GoString) (s : Store) (i : InvocationRow)
    → find_invocation id s.invocations ≡ some i
    → (response : InvokeResponse) × (load_invocation_response id s ≡ ok (response, s))
      × (response.status ≡ i.status)
      × (response.error ≡ i.error)
unfolding load_invocation_response
load_response_found id s i e =
    (to_response (to_record s i), rw (e, load_invocation_record) refl, refl, refl)

-- For balanced tables and a held reservation, the success of its invocation is always recorded:
-- the transaction succeeds with a response whose status is success, leaves the tables balanced,
-- and gives back exactly one lease of the reservation's API.
pub complete_success_tx-Balanced :
    (r : InvocationReservation) (output : Option GoString) (body : Option Fields)
    (usage : UsageMetrics) (finished : ℕ) (s : Store)
    → Balanced s
    → Holds r s
    → (response : InvokeResponse) × (s' : Store) × (complete_success_tx r output body usage finished
          s
        ≡ ok (response, s'))
      × Balanced s'
      × (response.status ≡ InvocationStatus.success)
      × ((id : GoString)
          → lease_of id s'.apis + (if r.api_id =? id then 1 else 0) ≡ lease_of id s.apis)
unfolding complete_success_tx
complete_success_tx-Balanced r output body usage finished s b h =
    let (row, found, runtime, positive) = held_row r s b h in
    let threshold = get_offline_failure_threshold s in
    let f = release_success threshold row in
    let g = succeed_invocation output body usage finished in
    let s' : Store = record s {
      attempts = update_attempt r.attempt_id (succeed_attempt usage finished) s.attempts;
      invocations = update_invocation r.invocation_id g s.invocations;
      apis = update_api r.api_id f s.apis;
    } in
    let here : find_invocation r.invocation_id s'.invocations ≡ some (g h.invocation) = ground (
      arith,
      find_invocation-update_invocation r.invocation_id r.invocation_id g s.invocations (λ q. refl),
      h.invocation_found,
    ) in
    let (response, loaded, status, _) =
      load_response_found r.invocation_id s' (g h.invocation) here in
    (
      response,
      s',
      ground (arith, runtime, positive, loaded),
      released-Balanced r s row f (succeed_attempt usage finished) s'.invocations b h found
          (λ q. refl) refl (λ a. refl) (λ a. refl)
          (λ id.
            rw
              (count-update_invocation (λ i. i.invocation_id =? id) r.invocation_id g s.invocations
                (λ i. refl))
              (b.invocations_unique id)),
      status,
      returned r s row f b h found (λ q. refl) refl positive,
    )
