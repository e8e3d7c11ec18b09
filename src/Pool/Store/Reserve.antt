-- ===== src/Pool/Store/Reserve.antt =====
-- store.go: `reserveAttemptTx` and the two operations that call it. The ids of `newUUID` and the
-- clock are arguments.
use openmate.Base.{
  ℕ, GoString, ◌=?◌, str_ltb, Option, none, some, List, [], ◌∷◌, ◌++◌, Bool, true, false, not,
  if◌then◌else◌, ◌&&◌, ◌||◌, ltb, leb, ◌==◌, any, count, Result, ok, ◌>>=◌, ◌>>◌, guard, or_fail,
  ◌+◌,
}
use openmate.Base.Int.{pos, ltb_ℤ}
use openmate.Pool.Types.{
  ApiStatus, available, leased, offline, InvocationStatus, InvokeRequest, ApiConfig, ModelConfig,
  InvocationReservation,
}
use openmate.Pool.Store.{
  ApiRow, InvocationRow, AttemptRow, Store, StoreError, no_capacity, global_quota,
  constraint_failed, invocation_not_found, api_config_not_found, Tx, with_immediate_tx, update_api,
  update_invocation, is_running,
}
use openmate.Pool.Store.Sync.{sync_config}

pub record Fresh : Type 0 where
  pub invocation_id : GoString
  pub attempt_id : GoString
  pub started_at : ℕ

-- `SELECT COUNT(*) FROM invocations WHERE status = 'running'`, without the invocation retried.
unfoldable pub count_active : Option GoString → List InvocationRow → ℕ
count_active none = count (λ i. is_running i.status)
count_active (some id) = count (λ i. is_running i.status && not (i.invocation_id =? id))

unfoldable pub check_quota : Option GoString → Store → Result StoreError (Unit {0})
unfolding count_active
check_quota invocation s = elim s.global_limit [
  | none ↦ ok tt
  | some limit ↦ guard (ltb_ℤ (pos (count_active invocation s.invocations)) limit) global_quota
]

abbrev pub is_offline : ApiStatus → Bool
is_offline available = false
is_offline leased = false
is_offline offline = true

abbrev routes_to : Option GoString → GoString → Bool
routes_to none id = true
routes_to (some wanted) id = id =? wanted

-- The `WHERE` clause of the selection.
unfoldable pub can_lease : Option GoString → ApiRow → Bool
can_lease route row =
    row.enabled
    && not (is_offline row.status)
    && ltb row.lease_count row.max_concurrent
    && routes_to route row.api_id

-- `ORDER BY lease_count ASC, api_id ASC`
unfoldable pub less_loaded : ApiRow → ApiRow → Bool
less_loaded a b =
    ltb a.lease_count b.lease_count
    || ((a.lease_count == b.lease_count) && str_ltb a.api_id b.api_id)

unfoldable pub better : ApiRow → Option ApiRow → ApiRow
better row none = row
better row (some best) = if less_loaded best row then best else row

-- The first row of the selection.
unfoldable pub select_api : Option GoString → List ApiRow → Option ApiRow
unfolding can_lease better
select_api route [] = none
select_api route (row ∷ rows) =
    let best = select_api route rows in if can_lease route row then some (better row best) else best

-- `APIByID`
unfoldable pub api_by_id : GoString → List ApiConfig → Option ApiConfig
api_by_id id [] = none
api_by_id id (api ∷ apis) = if api.api_id =? id then some api else api_by_id id apis

-- What `UPDATE apis` writes, from the row that was selected.
abbrev pub lease_row : ApiRow → ApiRow → ApiRow
lease_row row target = record target {
  lease_count = row.lease_count + 1;
  status = if leb row.max_concurrent (row.lease_count + 1) then leased else available;
}

abbrev pub new_invocation : InvokeRequest → Fresh → GoString → InvocationRow
new_invocation request fresh api = record {
  invocation_id = fresh.invocation_id;
  request_id = request.request_id;
  node_id = request.node_id;
  api_id = some api;
  request = record request { stream_sink = false };
  status = InvocationStatus.running;
  started_at = fresh.started_at;
  finished_at = none;
  output_text = none;
  raw_response = none;
  usage = none;
  error = none;
}

abbrev pub restart : GoString → InvocationRow → InvocationRow
restart api row = record row {
  api_id = some api;
  status = InvocationStatus.running;
  finished_at = none;
  output_text = none;
  raw_response = none;
  usage = none;
  error = none;
}

unfoldable pub has_invocation : GoString → List InvocationRow → Bool
has_invocation id = any (λ i. i.invocation_id =? id)

-- The row of the invocation: a new one, whose id is a primary key, or the one retried.
unfoldable pub write_invocation :
    Option GoString
    → InvokeRequest
    → Fresh
    → GoString
    → List InvocationRow
    → Result StoreError (GoString × List InvocationRow)
unfolding update_invocation has_invocation
write_invocation none request fresh api rows = do
  guard (not (has_invocation fresh.invocation_id rows)) constraint_failed
  ok (fresh.invocation_id, rows ++ new_invocation request fresh api ∷ [])
write_invocation (some id) request fresh api rows = do
  guard (has_invocation id rows) (invocation_not_found id)
  ok (id, update_invocation id (restart api) rows)

abbrev pub new_attempt : Fresh → GoString → GoString → AttemptRow
new_attempt fresh invocation api = record {
  attempt_id = fresh.attempt_id;
  invocation_id = invocation;
  api_id = api;
  status = InvocationStatus.running;
  started_at = fresh.started_at;
  finished_at = none;
  usage = none;
  error = none;
}

abbrev pub make_reservation :
    InvokeRequest → Fresh → GoString → ApiRow → ApiConfig → InvocationReservation
make_reservation request fresh invocation row api = record {
  invocation_id = invocation;
  attempt_id = fresh.attempt_id;
  request_id = request.request_id;
  node_id = request.node_id;
  api_id = row.api_id;
  provider = row.provider;
  api_mode = api.api_mode;
  model = row.model_class;
  base_url = row.base_url;
  api_key = row.api_key;
  headers = api.headers;
  request_defaults = api.request_defaults;
  pricing = api.pricing;
  started_at = fresh.started_at;
}

unfoldable pub has_attempt : GoString → List AttemptRow → Bool
has_attempt id = any (λ a. a.attempt_id =? id)

-- `reserveAttemptTx`. Attempt ids are unique in their table.
unfoldable pub reserve_attempt :
    ModelConfig → InvokeRequest → Option GoString → Fresh → Tx InvocationReservation
unfolding check_quota select_api update_api api_by_id write_invocation has_attempt
reserve_attempt config request invocation fresh s = do
  check_quota invocation s
  row ← or_fail (select_api request.route_api_id s.apis) no_capacity
  api ← or_fail (api_by_id row.api_id config.apis) (api_config_not_found row.api_id)
  (id, rows) ← write_invocation invocation request fresh row.api_id s.invocations
  guard (not (has_attempt fresh.attempt_id s.attempts)) constraint_failed
  ok (
    make_reservation request fresh id row api,
    record s {
      apis = update_api row.api_id (lease_row row) s.apis;
      invocations = rows;
      attempts = s.attempts ++ new_attempt fresh id row.api_id ∷ [];
    },
  )

module _ (model_config_hash : ModelConfig → GoString) where
  unfoldable pub sync_then_reserve :
      ModelConfig → InvokeRequest → Option GoString → Fresh → Tx InvocationReservation
  unfolding reserve_attempt
  sync_then_reserve config request invocation fresh s =
      sync_config model_config_hash config s >>= λ (_, s').
      reserve_attempt config request invocation fresh s'

  -- `ReserveInvocation`
  unfoldable pub reserve_invocation :
      Option GoString
      → ModelConfig
      → InvokeRequest
      → Fresh
      → Store
      → Result StoreError InvocationReservation × Store
  unfolding sync_then_reserve with_immediate_tx
  reserve_invocation fault config request fresh =
      with_immediate_tx fault (sync_then_reserve config request none fresh)

  -- `ReserveRetryAttempt`
  unfoldable pub reserve_retry_attempt :
      Option GoString
      → ModelConfig
      → GoString
      → InvokeRequest
      → Fresh
      → Store
      → Result StoreError InvocationReservation × Store
  unfolding sync_then_reserve with_immediate_tx
  reserve_retry_attempt fault config invocation request fresh =
      with_immediate_tx fault (sync_then_reserve config request (some invocation) fresh)
