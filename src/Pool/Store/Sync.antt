-- ===== src/Pool/Store/Sync.antt =====
-- store.go: `syncConfig`, which writes the configured APIs into the table. The hash of a
-- configuration, SHA-256 of its JSON, is a parameter.
use openmate.Base.{
  ℕ, GoString, ◌=?◌, Option, none, some, List, [], ◌∷◌, Bool, false, not, if◌then◌else◌, ◌==◌, any,
  Result, ok, ◌>>=◌, ◌>>◌, guard,
}
use openmate.Pool.Types.{offline, ApiConfig, ModelConfig}
use openmate.Pool.Store.{
  ApiRow, Store, StoreError, constraint_failed, Tx, with_immediate_tx, resolve_api_status,
}

-- Whether an optional hash is this one.
unfoldable pub same_hash : Option GoString → GoString → Bool
same_hash none hash = false
same_hash (some existing) hash = existing =? hash

-- The row that an endpoint inserts, with the counters of the row it finds.
unfoldable pub endpoint_row : ApiConfig → ℕ → Option ApiRow → ApiRow
endpoint_row e threshold none = record {
  api_id = e.api_id;
  provider = e.provider;
  model_class = e.model;
  base_url = e.base_url;
  api_key = e.api_key;
  max_concurrent = e.max_concurrent;
  enabled = e.enabled;
  status = resolve_api_status e.enabled 0 e.max_concurrent 0 threshold;
  lease_count = 0;
  failure_count = 0;
  last_error = none;
}
endpoint_row e threshold (some row) = record row {
  provider = e.provider;
  model_class = e.model;
  base_url = e.base_url;
  api_key = e.api_key;
  max_concurrent = e.max_concurrent;
  enabled = e.enabled;
  status =
      resolve_api_status e.enabled row.lease_count e.max_concurrent row.failure_count threshold;
}

-- `INSERT … ON CONFLICT(api_id) DO UPDATE`
unfoldable pub upsert_api : ApiConfig → ℕ → List ApiRow → List ApiRow
unfolding endpoint_row
upsert_api e threshold [] = endpoint_row e threshold none ∷ []
upsert_api e threshold (row ∷ rows) =
    if row.api_id =? e.api_id
    then endpoint_row e threshold (some row) ∷ rows
    else row ∷ upsert_api e threshold rows

-- The loop over the endpoints. The table's CHECK refuses a `max_concurrent` that is not positive.
unfoldable pub sync_endpoints : ℕ → List ApiConfig → List ApiRow → Result StoreError (List ApiRow)
unfolding upsert_api
sync_endpoints threshold [] rows = ok rows
sync_endpoints threshold (e ∷ es) rows = do
  guard (not (e.max_concurrent == 0)) constraint_failed
  sync_endpoints threshold es (upsert_api e threshold rows)

abbrev pub configured : List ApiConfig → GoString → Bool
configured es id = any (λ e. e.api_id =? id) es

-- `UPDATE apis SET enabled = 0, status = 'offline' WHERE api_id NOT IN (…)`
unfoldable pub disable_others : List ApiConfig → List ApiRow → List ApiRow
disable_others es [] = []
disable_others es (row ∷ rows) =
    (if configured es row.api_id then row else record row { enabled = false; status = offline })
    ∷ disable_others es rows

module _ (model_config_hash : ModelConfig → GoString) where
  unfoldable pub sync_config : ModelConfig → Tx (Unit {0})
  unfolding same_hash sync_endpoints disable_others
  sync_config config s =
      if same_hash s.config_hash (model_config_hash config)
      then ok (tt, s)
      else (sync_endpoints config.offline_failure_threshold config.apis s.apis >>= λ rows. ok (
        tt,
        record s {
          global_limit = config.global_max_concurrent;
          offline_failure_threshold = some config.offline_failure_threshold;
          config_hash = some (model_config_hash config);
          apis = disable_others config.apis rows;
        },
      ))

  -- `SyncFromModelConfig`
  unfoldable pub sync_from_model_config :
      Option GoString → ModelConfig → Store → Result StoreError (Unit {0}) × Store
  unfolding sync_config with_immediate_tx
  sync_from_model_config fault config = with_immediate_tx fault (sync_config config)
