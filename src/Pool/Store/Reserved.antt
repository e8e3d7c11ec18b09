-- ===== src/Pool/Store/Reserved.antt =====
-- What a reservation does to the tables: it takes one lease, within the limits.
use openmate.Base.{
  if◌then◌else◌, GoString, ◌=?◌, Option, none, some, List, [], ◌∷◌, ◌++◌, Bool, true, false, ◌&&◌,
  ◌≡◌, refl, inl, inr, count, arith, ◌+◌, ◌≤◌, Bool-cases, any, Option-cases, Result-cases, ok,
  Result, count-append, subst,
}
use openmate.Pool.Types.{InvocationReservation, InvokeRequest, ModelConfig, ApiConfig}
use openmate.Pool.Store.{
  ApiRow, InvocationRow, AttemptRow, Store, StoreError, find_api, find_invocation, update_api,
  update_invocation, is_running,
}
use openmate.Pool.Store.Tables.{
  find_api_of_In, find_invocation-update_invocation, find_invocation-append, find_attempt-append,
  running_on,
}
use openmate.Pool.Store.Reserve.{
  Fresh, check_quota, select_api, api_by_id, write_invocation, has_attempt, has_invocation,
  reserve_attempt, lease_row, new_attempt, make_reservation, restart, new_invocation,
}
use openmate.Pool.Store.Selection.{Selects, select_api-Selects}
use openmate.Pool.Store.Leases.{
  Balanced, Holds, lease_of, lease_of_found, lease_of-update_api, count-update_api,
  count-update_invocation,
}

-- The tables after a reservation.
abbrev pub reserved_store : Fresh → GoString → List InvocationRow → ApiRow → Store → Store
reserved_store fresh id rows row s = record s {
  apis = update_api row.api_id (lease_row row) s.apis;
  invocations = rows;
  attempts = s.attempts ++ new_attempt fresh id row.api_id ∷ [];
}

-- The parts of a reservation that succeeded.
pub record Reserved (config : ModelConfig) (request : InvokeRequest) (invocation : Option GoString)
    (fresh : Fresh) (s : Store) (r : InvocationReservation) (s' : Store) : Type 0 where
  pub row : ApiRow
  pub api : ApiConfig
  pub rows : List InvocationRow
  pub id : GoString
  pub quota : check_quota invocation s ≡ ok tt
  pub selected : select_api request.route_api_id s.apis ≡ some row
  pub configured : api_by_id row.api_id config.apis ≡ some api
  pub written : write_invocation invocation request fresh row.api_id s.invocations ≡ ok (id, rows)
  pub new_id : has_attempt fresh.attempt_id s.attempts ≡ false
  pub reservation : r ≡ make_reservation request fresh id row api
  pub tables : s' ≡ reserved_store fresh id rows row s

pub reserve_attempt-Reserved :
    (config : ModelConfig) (request : InvokeRequest) (invocation : Option GoString) (fresh : Fresh)
    (s : Store) (r : InvocationReservation) (s' : Store)
    → reserve_attempt config request invocation fresh s ≡ ok (r, s')
    → Reserved config request invocation fresh s r s'
unfolding reserve_attempt
reserve_attempt-Reserved config request invocation fresh s r s' h =
    elim (Result-cases (check_quota invocation s)) [
      | inl (x, e₁) ↦ absurd (ground (arith, e₁, h))
      | inr (u, e₁) ↦ elim (Option-cases (select_api request.route_api_id s.apis)) [
        | inl e₂ ↦ absurd (ground (arith, e₁, e₂, h))
        | inr (row, e₂) ↦ elim (Option-cases (api_by_id row.api_id config.apis)) [
          | inl e₃ ↦ absurd (ground (arith, e₁, e₂, e₃, h))
          | inr (api, e₃) ↦
              elim (Result-cases
                (write_invocation invocation request fresh row.api_id s.invocations)) [
                  | inl (x, e₄) ↦ absurd (ground (arith, e₁, e₂, e₃, e₄, h))
                  | inr ((id, rows), e₄) ↦
                      elim (Bool-cases (has_attempt fresh.attempt_id s.attempts)) [
                        | inl e₅ ↦ absurd (ground (arith, e₁, e₂, e₃, e₄, e₅, h))
                        | inr e₅ ↦
                            let result : Result StoreError (InvocationReservation × Store) = ok (
                              make_reservation request fresh id row api,
                              reserved_store fresh id rows row s,
                            ) in
                            let made : result ≡ ok (r, s') =
                              ground (arith, e₁, e₂, e₃, e₄, e₅, h) in
                            record {
                              row = row;
                              api = api;
                              rows = rows;
                              id = id;
                              quota = e₁;
                              selected = e₂;
                              configured = e₃;
                              written = e₄;
                              new_id = e₅;
                              reservation = cc;
                              tables = cc;
                            }
                      ]
                ]
        ]
      ]
    ]

none_counted {ℓ} : {A : Type ℓ} (p : A → Bool) (xs : List A) → any p xs ≡ false → count p xs ≡ 0
none_counted p [] h = refl
none_counted p (x ∷ xs) h = ground (arith, none_counted p xs)

none_found :
    (id : GoString) (rows : List InvocationRow)
    → has_invocation id rows ≡ false
    → find_invocation id rows ≡ none
unfolding has_invocation find_invocation
none_found id [] h = refl
none_found id (row ∷ rows) h = ground (arith, none_found id rows)

some_found :
    (id : GoString) (rows : List InvocationRow)
    → has_invocation id rows ≡ true
    → (i : InvocationRow) × (find_invocation id rows ≡ some i)
unfolding has_invocation find_invocation
some_found id [] h = cc
some_found id (row ∷ rows) h = elim (Bool-cases (row.invocation_id =? id)) [
  | inl e ↦ (row, rw e refl)
  | inr e ↦ let (i, found) = some_found id rows (ground (arith, e, h)) in (i, rw e found)
]

-- What a write of the invocation's row leaves: the row, with its API, in a table with distinct keys.
pub record Written (api : GoString) (id : GoString) (old : List InvocationRow)
    (rows : List InvocationRow) : Type 0 where
  pub invocation : InvocationRow
  pub found : find_invocation id rows ≡ some invocation
  pub names : invocation.api_id ≡ some api
  pub distinct : (k : GoString) → count (λ i. i.invocation_id =? k) rows ≤ 1

write_invocation-Written :
    (invocation : Option GoString) (request : InvokeRequest) (fresh : Fresh) (api : GoString)
    (old : List InvocationRow) (id : GoString) (rows : List InvocationRow)
    → ((k : GoString) → count (λ i. i.invocation_id =? k) old ≤ 1)
    → write_invocation invocation request fresh api old ≡ ok (id, rows)
    → Written api id old rows
unfolding write_invocation has_invocation
write_invocation-Written none request fresh api old id rows u h =
    elim (Bool-cases (has_invocation fresh.invocation_id old)) [
      | inl e ↦ absurd (ground (arith, e, h))
      | inr e ↦
          let same : id ≡ fresh.invocation_id = ground (arith, e, h) in
          let new : rows ≡ old ++ new_invocation request fresh api ∷ [] = ground (arith, e, h) in
          record {
            invocation = new_invocation request fresh api;
            found =
                rw (same, new)
                  (find_invocation-append fresh.invocation_id old (new_invocation request fresh api)
                    (none_found fresh.invocation_id old e) refl);
            names = refl;
            distinct = λ k.
                rw
                  (
                    new,
                    count-append (λ (i : InvocationRow). i.invocation_id =? k) old
                        (new_invocation request fresh api ∷ []),
                  )
                  (ground (
                    arith,
                    u k,
                    none_counted (λ (i : InvocationRow). i.invocation_id =? k) old,
                    e,
                  ));
          }
    ]
write_invocation-Written (some wanted) request fresh api old id rows u h =
    elim (Bool-cases (has_invocation wanted old)) [
      | inr e ↦ absurd (ground (arith, e, h))
      | inl e ↦
          let same : id ≡ wanted = ground (arith, e, h) in
          let new : rows ≡ update_invocation wanted (restart api) old = ground (arith, e, h) in
          let (i, found) = some_found wanted old e in
          record {
            invocation = restart api i;
            found = ground (
              arith,
              same,
              new,
              found,
              find_invocation-update_invocation wanted wanted (restart api) old (λ j. refl),
            );
            names = refl;
            distinct = λ k.
                rw
                  (
                    new,
                    count-update_invocation (λ i'. i'.invocation_id =? k) wanted (restart api) old
                        (λ j. refl),
                  )
                  (u k);
          }
    ]

-- The tables after a reservation are balanced when the row is one of the table's.
reserved_store-Balanced :
    (fresh : Fresh) (id : GoString) (rows : List InvocationRow) (row : ApiRow) (s : Store)
    → Balanced s
    → find_api row.api_id s.apis ≡ some row
    → has_attempt fresh.attempt_id s.attempts ≡ false
    → ((k : GoString) → count (λ i. i.invocation_id =? k) rows ≤ 1)
    → Balanced (reserved_store fresh id rows row s)
unfolding running_on has_attempt
reserved_store-Balanced fresh id rows row s b found new_id distinct = record {
  leases = λ k. ground (
    arith,
    b.leases k,
    b.leases row.api_id,
    lease_of-update_api k row.api_id (lease_row row) s.apis row (λ q. refl) found,
    lease_of_found row.api_id s.apis row found,
    count-append (λ (a : AttemptRow). is_running a.status && (a.api_id =? k)) s.attempts
        (new_attempt fresh id row.api_id ∷ []),
  );
  apis_unique = λ k.
      rw (count-update_api (λ q. q.api_id =? k) row.api_id (lease_row row) s.apis (λ q. refl))
        (b.apis_unique k);
  attempts_unique = λ k.
      rw
        (count-append (λ (a : AttemptRow). a.attempt_id =? k) s.attempts
          (new_attempt fresh id row.api_id ∷ []))
        (ground (
          arith,
          b.attempts_unique k,
          none_counted (λ (a : AttemptRow). a.attempt_id =? k) s.attempts,
          new_id,
        ));
  invocations_unique = distinct;
}

-- From balanced tables, a reservation that succeeds, of a new invocation or of a retry, leaves
-- the tables balanced, is held in them, and takes exactly one lease of its API.
pub reserve_attempt-Balanced :
    (config : ModelConfig) (request : InvokeRequest) (invocation : Option GoString) (fresh : Fresh)
    (s : Store) (r : InvocationReservation) (s' : Store)
    → Balanced s
    → reserve_attempt config request invocation fresh s ≡ ok (r, s')
    → Balanced s'
      × Holds r s'
      × ((id : GoString)
          → lease_of id s'.apis ≡ lease_of id s.apis + (if r.api_id =? id then 1 else 0))
unfolding has_attempt lease_of
reserve_attempt-Balanced config request invocation fresh s r s' b h =
    let v = reserve_attempt-Reserved config request invocation fresh s r s' h in
    let chosen : Selects request.route_api_id s.apis (some v.row) =
      subst (Selects request.route_api_id s.apis) v.selected
        (select_api-Selects request.route_api_id s.apis) in
    let found : find_api v.row.api_id s.apis ≡ some v.row =
      find_api_of_In v.row s.apis b.apis_unique chosen.0 in
    let w =
      write_invocation-Written invocation request fresh v.row.api_id s.invocations v.id v.rows
        b.invocations_unique v.written in
    let leases = λ (id : GoString).
      lease_of-update_api id v.row.api_id (lease_row v.row) s.apis v.row (λ q. refl) found in
    rw (v.tables, v.reservation)
      (
        reserved_store-Balanced fresh v.id v.rows v.row s b found v.new_id w.distinct,
        record {
          attempt = new_attempt fresh v.id v.row.api_id;
          attempt_found =
              find_attempt-append fresh.attempt_id s.attempts (new_attempt fresh v.id v.row.api_id)
                v.new_id refl;
          attempt_runs = refl;
          attempt_api = refl;
          invocation = w.invocation;
          invocation_found = w.found;
          invocation_api = w.names;
        },
        λ id. ground (arith, leases id, lease_of_found v.row.api_id s.apis v.row found),
      )
