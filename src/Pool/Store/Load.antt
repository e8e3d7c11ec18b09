-- ===== src/Pool/Store/Load.antt =====
-- store.go: reading an invocation with its attempts, the list of records, and the capacity.
use openmate.Base.{
  ℕ, zero, suc, GoString, ◌=?◌, Option, none, some, List, [], ◌∷◌, map, Bool, true, false, not,
  if◌then◌else◌, leb, count, Result, ok, ◌>>=◌, or_fail, ◌+◌, ◌-◌, ◌/◌, keep,
}
use openmate.Base.Int.{ℤ, pos, negsuc, ltb_ℤ}
use openmate.Pool.Types.{
  ApiStatus, available, leased, offline, InvocationTiming, InvocationAttempt, InvokeResponse,
  InvocationRecord, RouteDecision, UsageMetrics, ModelConfig, CapacitySnapshot,
}
use openmate.Pool.Store.{
  ApiRow, InvocationRow, AttemptRow, Store, StoreError, invocation_not_found, Tx, with_immediate_tx,
  find_api, find_invocation, is_running,
}
use openmate.Pool.Store.Sync.{sync_config}

-- -n, as an integer
negated : ℕ → ℤ
negated zero = pos 0
negated (suc n) = negsuc n

-- `int(finishedAt.Sub(startedAt).Milliseconds())`, which rounds towards zero.
unfoldable pub elapsed_ms : ℕ → ℕ → ℤ
unfolding negated
elapsed_ms started finished =
    if leb started finished
    then pos ((finished - started) / 1000000)
    else negated ((started - finished) / 1000000)

usage_latency : Option UsageMetrics → Option ℤ
usage_latency none = none
usage_latency (some usage) = usage.latency_ms

-- `calculateLatency`
unfoldable pub calculate_latency : ℕ → Option ℕ → Option UsageMetrics → Option ℤ
unfolding elapsed_ms usage_latency
calculate_latency started finished usage = elim (usage_latency usage) [
  | some latency ↦ some latency
  | none ↦ elim finished [ none ↦ none | some at ↦ some (elapsed_ms started at) ]
]

timing : ℕ → Option ℕ → Option UsageMetrics → InvocationTiming
unfolding calculate_latency
timing started finished usage = record {
  started_at = started;
  finished_at = finished;
  latency_ms = calculate_latency started finished usage;
}

-- The route of an API, after a LEFT JOIN: an attempt of an API that is gone has an empty provider.
attempt_route : GoString → Option ApiRow → RouteDecision
attempt_route id none = record { api_id = id; provider = []; model = [] }
attempt_route id (some row) = record {
  api_id = id;
  provider = row.provider;
  model = row.model_class;
}

invocation_route : Option GoString → List ApiRow → Option RouteDecision
invocation_route none apis = none
invocation_route (some id) apis = elim (find_api id apis) [
  | none ↦ none
  | some row ↦ some (record { api_id = id; provider = row.provider; model = row.model_class })
]

to_attempt : List ApiRow → AttemptRow → InvocationAttempt
unfolding attempt_route timing
to_attempt apis a = record {
  attempt_id = a.attempt_id;
  route = attempt_route a.api_id (find_api a.api_id apis);
  status = a.status;
  timing = timing a.started_at a.finished_at a.usage;
  usage = a.usage;
  error = a.error;
}

unfoldable pub to_record : Store → InvocationRow → InvocationRecord
unfolding invocation_route to_attempt timing
to_record s i = record {
  invocation_id = i.invocation_id;
  request = i.request;
  status = i.status;
  route = invocation_route i.api_id s.apis;
  response = i.raw_response;
  output_text = i.output_text;
  usage = i.usage;
  timing = timing i.started_at i.finished_at i.usage;
  error = i.error;
  attempts = map (to_attempt s.apis) (keep (λ a. a.invocation_id =? i.invocation_id) s.attempts);
}

-- `loadInvocationRecordTx`
unfoldable pub load_invocation_record : GoString → Tx InvocationRecord
unfolding to_record
load_invocation_record id s =
    or_fail (find_invocation id s.invocations) (invocation_not_found id) >>= λ row.
    ok (to_record s row, s)

unfoldable pub to_response : InvocationRecord → InvokeResponse
to_response r = record {
  invocation_id = r.invocation_id;
  request_id = r.request.request_id;
  node_id = r.request.node_id;
  status = r.status;
  route = r.route;
  response = r.response;
  output_text = r.output_text;
  usage = r.usage;
  timing = r.timing;
  error = r.error;
}

-- `loadInvocationResponseTx`
unfoldable pub load_invocation_response : GoString → Tx InvokeResponse
unfolding load_invocation_record to_response
load_invocation_response id s = load_invocation_record id s >>= λ (r, s'). ok (to_response r, s')

unfoldable pub sum_slots : (ApiRow → ℕ) → List ApiRow → ℕ
sum_slots f [] = 0
sum_slots f (row ∷ rows) = f row + sum_slots f rows

unfoldable pub is_offline : ApiStatus → Bool
is_offline available = false
is_offline leased = false
is_offline offline = true

throttled : Option ℤ → ℕ → Bool
throttled none active = false
throttled (some limit) active = not (ltb_ℤ (pos active) limit)

-- `capacityTx`; `now` is the clock's answer.
unfoldable pub capacity_tx : ℕ → Store → CapacitySnapshot
unfolding sum_slots is_offline throttled
capacity_tx now s = record {
  total_apis = count (λ row. true) s.apis;
  total_slots = sum_slots (λ row. row.max_concurrent) s.apis;
  available_slots =
      sum_slots (λ row. if is_offline row.status then 0 else row.max_concurrent - row.lease_count)
        s.apis;
  leased_slots = sum_slots (λ row. row.lease_count) s.apis;
  offline_apis = count (λ row. is_offline row.status) s.apis;
  throttled = throttled s.global_limit (count (λ i. is_running i.status) s.invocations);
  updated_at = now;
}

module _ (model_config_hash : ModelConfig → GoString) where
  -- `Capacity`
  unfoldable pub capacity :
      Option GoString → ModelConfig → ℕ → Store → Result StoreError CapacitySnapshot × Store
  unfolding with_immediate_tx capacity_tx
  capacity fault config now =
      with_immediate_tx fault
        λ s. sync_config model_config_hash config s >>= λ (_, s'). ok (capacity_tx now s', s')

  -- `Record`
  unfoldable pub read_record :
      Option GoString → ModelConfig → GoString → Store → Result StoreError InvocationRecord × Store
  unfolding with_immediate_tx load_invocation_record
  read_record fault config id =
      with_immediate_tx fault
        λ s. sync_config model_config_hash config s >>= λ (_, s'). load_invocation_record id s'
