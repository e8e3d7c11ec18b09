-- ===== src/Pool/Store/Tests.antt =====
-- A store with one API: it is configured, an invocation is reserved, retried and finished, and each
-- theorem is applied along the way.
use openmate.Base.{
  ◌=?◌, GoString, codes, none, some, [], ◌∷◌, true, false, if◌then◌else◌, ◌≡◌, refl, ok, ◌+◌, ◌≤◌,
  arith, str_dec, ℕ_discrete, inl, All,
}
use openmate.Base.Int.{pos, ◌≤ℤ◌}
use openmate.Base.Json.{empty_fields}
use openmate.Pool.Types.{
  available, ApiConfig, ModelConfig, InvokeRequest, InvokeResponse, InvocationReservation,
  InvocationStatus, UsageMetrics, GatewayError,
}
use openmate.Pool.Store.{
  ApiRow, Store, resolve_api_status, update_api, find_api, update_attempt, find_invocation,
}
use openmate.Pool.Store.Sync.{
  sync_config, same_hash, sync_endpoints, upsert_api, endpoint_row, disable_others, configured,
}
use openmate.Pool.Store.Reserve.{
  Fresh, reserve_attempt, check_quota, count_active, select_api, can_lease, better, less_loaded,
  api_by_id, write_invocation, has_invocation, has_attempt, make_reservation, new_invocation,
  lease_row,
}
use openmate.Pool.Store.Complete.{
  complete_failure_tx, complete_success_tx, fail_attempt, release_failure, counts_toward_offline,
  runtime_row,
}
use openmate.Pool.Store.Load.{capacity_tx}
use openmate.Pool.Store.Slots.{withheld, capacity_tx-total_slots}
use openmate.Pool.Store.Offline.{complete_failure_tx-offline}
use openmate.Pool.Store.Leases.{
  Balanced, Holds, lease_of, complete_failure_tx-Balanced, complete_success_tx-Balanced,
}
use openmate.Pool.Store.Tables.{running_on}
use openmate.Pool.Store.Reserved.{reserved_store, reserve_attempt-Balanced}
use openmate.Pool.Store.Limits.{
  reserve_attempt-within_quota, reserve_attempt-least_loaded, running_invocations,
}
use openmate.Pool.Store.Synced.{sync_config-Balanced, sync_config-idempotent, sync_config-refuses}

abbrev pub hash : ModelConfig → GoString
hash config = codes "h"

abbrev pub api : ApiConfig
api = record {
  api_id = codes "a";
  provider = codes "p";
  api_mode = codes "chat_completions";
  model = codes "m";
  base_url = codes "u";
  api_key = codes "k";
  max_concurrent = 2;
  enabled = true;
  headers = [];
  request_defaults = empty_fields;
  pricing = none;
}

abbrev pub config : ModelConfig
config = record {
  global_max_concurrent = some (pos 1);
  offline_failure_threshold = 3;
  retry_max_attempts = none;
  retry_base_backoff_ms = none;
  apis = api ∷ [];
}

abbrev request : InvokeRequest
request = record {
  request_id = codes "r";
  node_id = codes "n";
  request = empty_fields;
  chat_request = empty_fields;
  timeout_ms = none;
  route_api_id = none;
  stream_sink = false;
}

abbrev pub fresh : Fresh
fresh = record { invocation_id = codes "i"; attempt_id = codes "t"; started_at = 7 }

abbrev pub empty_store : Store
empty_store = record {
  global_limit = none;
  offline_failure_threshold = none;
  config_hash = none;
  apis = [];
  invocations = [];
  attempts = [];
}

abbrev pub row : ApiRow
row = record {
  api_id = codes "a";
  provider = codes "p";
  model_class = codes "m";
  base_url = codes "u";
  api_key = codes "k";
  max_concurrent = 2;
  enabled = true;
  status = available;
  lease_count = 0;
  failure_count = 0;
  last_error = none;
}

abbrev pub synced_store : Store
synced_store = record {
  global_limit = some (pos 1);
  offline_failure_threshold = some 3;
  config_hash = some (codes "h");
  apis = row ∷ [];
  invocations = [];
  attempts = [];
}

pub syncs : sync_config hash config empty_store ≡ ok (tt, synced_store)
unfolding sync_config same_hash sync_endpoints upsert_api endpoint_row disable_others
    resolve_api_status str_dec ℕ_discrete
syncs = refl

pub empty_store-Balanced : Balanced empty_store
unfolding lease_of find_api running_on
empty_store-Balanced = record {
  leases = λ id. refl;
  apis_unique = λ id. ground arith;
  attempts_unique = λ id. ground arith;
  invocations_unique = λ id. ground arith;
}

sync_config-Balanced_example :
    Balanced synced_store × (synced_store.attempts ≡ []) × (synced_store.invocations ≡ [])
sync_config-Balanced_example =
    sync_config-Balanced hash config empty_store synced_store empty_store-Balanced syncs

sync_config-idempotent_example : sync_config hash config synced_store ≡ ok (tt, synced_store)
sync_config-idempotent_example = sync_config-idempotent hash config empty_store synced_store syncs

sync_config-refuses_example :
    All
      (λ r. (if configured config.apis r.api_id then false else can_lease none r) ≡ false)
      synced_store.apis
unfolding same_hash
sync_config-refuses_example =
    sync_config-refuses hash config empty_store synced_store none refl syncs

abbrev pub reservation : InvocationReservation
reservation = make_reservation request fresh (codes "i") row api

abbrev pub reserved : Store
reserved =
    reserved_store fresh (codes "i") (new_invocation request fresh (codes "a") ∷ []) row
      synced_store

reserves : reserve_attempt config request none fresh synced_store ≡ ok (reservation, reserved)
unfolding reserve_attempt check_quota count_active select_api can_lease better less_loaded api_by_id
    write_invocation has_invocation has_attempt update_api str_dec ℕ_discrete
reserves = refl

synced_store-Balanced : Balanced synced_store
synced_store-Balanced =
    (sync_config-Balanced hash config empty_store synced_store empty_store-Balanced syncs).0

reserve_attempt-Balanced_example :
    Balanced reserved
    × Holds reservation reserved
    × ((id : GoString)
        → lease_of id reserved.apis
          ≡ lease_of id synced_store.apis + (if reservation.api_id =? id then 1 else 0))
reserve_attempt-Balanced_example =
    reserve_attempt-Balanced config request none fresh synced_store reservation reserved
      synced_store-Balanced reserves

reserve_attempt-within_quota_example :
    (reserved.global_limit ≡ some (pos 1))
    × (pos (running_invocations reserved.invocations) ≤ℤ pos 1)
reserve_attempt-within_quota_example =
    reserve_attempt-within_quota config request none fresh synced_store reservation reserved (pos 1)
      synced_store-Balanced reserves refl

reserve_attempt-least_loaded_example :
    (r : ApiRow) × (find_api reservation.api_id synced_store.apis ≡ some r)
    × (r.enabled ≡ true)
    × (lease_of reservation.api_id reserved.apis ≤ r.max_concurrent)
    × (r.lease_count ≤ row.lease_count)
unfolding can_lease
reserve_attempt-least_loaded_example =
    reserve_attempt-least_loaded config request none fresh synced_store reservation reserved row
      synced_store-Balanced reserves (inl refl) refl

pub reserved-Balanced : Balanced reserved × Holds reservation reserved
reserved-Balanced =
    let (b, h, _) =
      reserve_attempt-Balanced config request none fresh synced_store reservation reserved
        synced_store-Balanced reserves in
    (b, h)

abbrev pub failure : GatewayError
failure = record {
  code = codes "provider_timeout";
  message = codes "late";
  retryable = true;
  provider_status_code = none;
  details = empty_fields;
}

complete_failure_tx-Balanced_example :
    (s' : Store) × (complete_failure_tx reservation failure 9 reserved ≡ ok (tt, s'))
    × Balanced s'
    × (s'.invocations ≡ reserved.invocations)
    × ((id : GoString)
        → lease_of id s'.apis + (if reservation.api_id =? id then 1 else 0)
          ≡ lease_of id reserved.apis)
complete_failure_tx-Balanced_example =
    complete_failure_tx-Balanced reservation failure 9 reserved reserved-Balanced.0
      reserved-Balanced.1

abbrev usage : UsageMetrics
usage = record {
  input_tokens = some (pos 3);
  output_tokens = none;
  total_tokens = some (pos 3);
  cached_input_tokens = none;
  reasoning_tokens = none;
  latency_ms = some (pos 2);
  cost_usd = none;
}

complete_success_tx-Balanced_example :
    (response : InvokeResponse) × (s' : Store) × (complete_success_tx reservation none none usage 9
        reserved
      ≡ ok (response, s'))
    × Balanced s'
    × (response.status ≡ InvocationStatus.success)
    × ((id : GoString)
        → lease_of id s'.apis + (if reservation.api_id =? id then 1 else 0)
          ≡ lease_of id reserved.apis)
complete_success_tx-Balanced_example =
    complete_success_tx-Balanced reservation none none usage 9 reserved reserved-Balanced.0
      reserved-Balanced.1

capacity_tx-total_slots_example :
    (capacity_tx 5 synced_store).total_slots
    ≡ (capacity_tx 5 synced_store).leased_slots
      + ((capacity_tx 5 synced_store).available_slots + withheld synced_store.apis)
capacity_tx-total_slots_example = capacity_tx-total_slots 5 synced_store (omega arith, tt)

abbrev strict_store : Store
strict_store = record reserved { offline_failure_threshold = some 1 }

strict_store-Holds : Balanced strict_store × Holds reservation strict_store
strict_store-Holds =
    let (b, h) = reserved-Balanced in
    (
      record {
        leases = b.leases;
        apis_unique = b.apis_unique;
        attempts_unique = b.attempts_unique;
        invocations_unique = b.invocations_unique;
      },
      record {
        attempt = h.attempt;
        attempt_found = h.attempt_found;
        attempt_runs = h.attempt_runs;
        attempt_api = h.attempt_api;
        invocation = h.invocation;
        invocation_found = h.invocation_found;
        invocation_api = h.invocation_api;
      },
    )

abbrev failed_once : Store
failed_once = record strict_store {
  attempts = update_attempt (codes "t") (fail_attempt failure 9) strict_store.attempts;
  apis = update_api (codes "a") (release_failure 1 failure (lease_row row row)) strict_store.apis;
}

fails_once : complete_failure_tx reservation failure 9 strict_store ≡ ok (tt, failed_once)
unfolding complete_failure_tx runtime_row find_invocation find_api update_api str_dec ℕ_discrete
fails_once = refl

complete_failure_tx-offline_example :
    (after : ApiRow) × (find_api reservation.api_id failed_once.apis ≡ some after)
    × (after.failure_count ≡ 1)
    × (can_lease none after ≡ false)
unfolding find_api update_api counts_toward_offline str_dec ℕ_discrete
complete_failure_tx-offline_example =
    complete_failure_tx-offline reservation failure 9 strict_store failed_once (lease_row row row)
      none strict_store-Holds.0 strict_store-Holds.1 refl refl (omega arith) fails_once
