-- ===== src/Pool/Store/Limits.antt =====
-- store.go, `reserveAttemptTx`: a reservation stays within the limits and takes the least loaded API.
use openmate.Base.{
  ℕ, GoString, ◌=?◌, Option, none, some, List, [], ◌∷◌, ◌++◌, true, ◌≡◌, refl, inl, inr, count, In,
  arith, ◌+◌, ◌≤◌, Bool-cases, ok, count-append, subst,
}
use openmate.Base.Int.{ℤ, pos, ltb_ℤ, ◌≤ℤ◌}
use openmate.Pool.Types.{InvocationReservation, InvokeRequest, ModelConfig}
use openmate.Pool.Store.{ApiRow, InvocationRow, Store, find_api, update_invocation, is_running}
use openmate.Pool.Store.Tables.{find_api_of_In}
use openmate.Pool.Store.Reserve.{
  Fresh, check_quota, write_invocation, has_invocation, reserve_attempt, lease_row, can_lease,
  less_loaded, restart, new_invocation, count_active,
}
use openmate.Pool.Store.Selection.{Selects, select_api-Selects}
use openmate.Pool.Store.Leases.{Balanced, lease_of, lease_of-update_api}
use openmate.Pool.Store.Reserved.{reserve_attempt-Reserved}

-- The invocations that run.
unfoldable pub running_invocations : List InvocationRow → ℕ
running_invocations = count (λ i. is_running i.status)

restarted_count :
    (id api : GoString) (rows : List InvocationRow)
    → count (λ i. i.invocation_id =? id) rows ≤ 1
    → running_invocations (update_invocation id (restart api) rows)
      ≤ count_active (some id) rows + count (λ i. i.invocation_id =? id) rows
unfolding running_invocations update_invocation count_active
restarted_count id api [] u = ground arith
restarted_count id api (row ∷ rows) u = ground (arith, restarted_count id api rows (ground arith))

-- The invocations that run after the write are those that the quota counted and at most one more.
written_count :
    (invocation : Option GoString) (request : InvokeRequest) (fresh : Fresh) (api : GoString)
    (old : List InvocationRow) (id : GoString) (rows : List InvocationRow)
    → ((k : GoString) → count (λ i. i.invocation_id =? k) old ≤ 1)
    → write_invocation invocation request fresh api old ≡ ok (id, rows)
    → running_invocations rows ≤ count_active invocation old + 1
unfolding write_invocation running_invocations count_active
written_count none request fresh api old id rows u h =
    elim (Bool-cases (has_invocation fresh.invocation_id old)) [
      | inl e ↦ absurd (ground (arith, e, h))
      | inr e ↦
          let new : rows ≡ old ++ new_invocation request fresh api ∷ [] = ground (arith, e, h) in
          rw
            (
              new,
              count-append (λ (i : InvocationRow). is_running i.status) old
                  (new_invocation request fresh api ∷ []),
            )
            (ground arith)
    ]
written_count (some wanted) request fresh api old id rows u h =
    elim (Bool-cases (has_invocation wanted old)) [
      | inr e ↦ absurd (ground (arith, e, h))
      | inl e ↦
          let new : rows ≡ update_invocation wanted (restart api) old = ground (arith, e, h) in
          rw new (ground (arith, restarted_count wanted api old (u wanted), u wanted))
    ]

quota_left :
    (invocation : Option GoString) (s : Store) (limit : ℤ)
    → check_quota invocation s ≡ ok tt
    → s.global_limit ≡ some limit
    → pos (count_active invocation s.invocations + 1) ≤ℤ limit
unfolding check_quota
quota_left invocation s limit h set =
    elim (Bool-cases (ltb_ℤ (pos (count_active invocation s.invocations)) limit)) [
      | inl e ↦ ground (arith, e)
      | inr e ↦ absurd (ground (arith, e, h, set))
    ]

-- From balanced tables whose global limit is set, a reservation that succeeds keeps that limit
-- and leaves at most that many invocations running, a retried one counted once.
pub reserve_attempt-within_quota :
    (config : ModelConfig) (request : InvokeRequest) (invocation : Option GoString) (fresh : Fresh)
    (s : Store) (r : InvocationReservation) (s' : Store) (limit : ℤ)
    → Balanced s
    → reserve_attempt config request invocation fresh s ≡ ok (r, s')
    → s.global_limit ≡ some limit
    → (s'.global_limit ≡ some limit) × (pos (running_invocations s'.invocations) ≤ℤ limit)
reserve_attempt-within_quota config request invocation fresh s r s' limit b h set =
    let v = reserve_attempt-Reserved config request invocation fresh s r s' h in
    rw v.tables (
      set,
      ground (
        arith,
        written_count invocation request fresh v.row.api_id s.invocations v.id v.rows
            b.invocations_unique v.written,
        quota_left invocation s limit v.quota set,
      ),
    )

-- From balanced tables, a reservation that succeeds takes an enabled API of the table whose
-- leases, the new one counted, stay within its limit, and which had no more leases than any
-- other API that could be leased on the same route.
pub reserve_attempt-least_loaded :
    (config : ModelConfig) (request : InvokeRequest) (invocation : Option GoString) (fresh : Fresh)
    (s : Store) (r : InvocationReservation) (s' : Store) (other : ApiRow)
    → Balanced s
    → reserve_attempt config request invocation fresh s ≡ ok (r, s')
    → In other s.apis
    → can_lease request.route_api_id other ≡ true
    → (row : ApiRow) × (find_api r.api_id s.apis ≡ some row)
      × (row.enabled ≡ true)
      × (lease_of r.api_id s'.apis ≤ row.max_concurrent)
      × (row.lease_count ≤ other.lease_count)
unfolding can_lease less_loaded
reserve_attempt-least_loaded config request invocation fresh s r s' other b h i fits =
    let v = reserve_attempt-Reserved config request invocation fresh s r s' h in
    let chosen : Selects request.route_api_id s.apis (some v.row) =
      subst (Selects request.route_api_id s.apis) v.selected
        (select_api-Selects request.route_api_id s.apis) in
    let found : find_api v.row.api_id s.apis ≡ some v.row =
      find_api_of_In v.row s.apis b.apis_unique chosen.0 in
    rw (v.tables, v.reservation)
      (
        v.row,
        found,
        ground (arith, chosen.1),
        ground (
          arith,
          lease_of-update_api v.row.api_id v.row.api_id (lease_row v.row) s.apis v.row (λ q. refl)
              found,
          chosen.1,
        ),
        ground (arith, chosen.2 other i fits),
      )
