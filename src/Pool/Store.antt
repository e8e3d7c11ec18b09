-- ===== src/Pool/Store.antt =====
-- internal/poolgateway/store.go: the tables as lists of rows, in the order of their row ids, and each
-- transaction as a function of the tables. A row is the decoded form of its JSON columns.
pub mod Sync
pub mod Reserve
pub mod Load
pub mod Complete
pub mod Tables
pub mod Leases
pub mod Selection
pub mod Reserved
pub mod Limits
pub mod Synced
pub mod Slots
pub mod Offline
pub mod Tests
use openmate.Base.{
  ℕ, zero, suc, GoString, ◌=?◌, str_ltb, Option, none, some, List, [], ◌∷◌, Bool, true, false, not,
  if◌then◌else◌, ◌&&◌, ◌||◌, ltb, leb, ◌==◌, any, Result, ok, err, ◌+◌,
}
use openmate.Base.Int.{ℤ, pos, ltb_ℤ}
use openmate.Base.Json.{Fields}
use openmate.Pool.Types.{
  ApiStatus, available, leased, offline, InvocationStatus, InvokeRequest, UsageMetrics,
  GatewayError, ApiConfig, ModelConfig,
}

pub record ApiRow : Type 0 where
  pub api_id : GoString
  pub provider : GoString
  pub model_class : GoString
  pub base_url : GoString
  pub api_key : GoString
  pub max_concurrent : ℕ
  pub enabled : Bool
  pub status : ApiStatus
  pub lease_count : ℕ
  pub failure_count : ℕ
  pub last_error : Option GoString

pub record InvocationRow : Type 0 where
  pub invocation_id : GoString
  pub request_id : GoString
  pub node_id : GoString
  pub api_id : Option GoString
  pub request : InvokeRequest
  pub status : InvocationStatus
  pub started_at : ℕ
  pub finished_at : Option ℕ
  pub output_text : Option GoString
  pub raw_response : Option Fields
  pub usage : Option UsageMetrics
  pub error : Option GatewayError

pub record AttemptRow : Type 0 where
  pub attempt_id : GoString
  pub invocation_id : GoString
  pub api_id : GoString
  pub status : InvocationStatus
  pub started_at : ℕ
  pub finished_at : Option ℕ
  pub usage : Option UsageMetrics
  pub error : Option GatewayError

-- The `meta` table, by its three keys: a global limit that is absent or "" is `none`.
pub record Store : Type 0 where
  pub global_limit : Option ℤ
  pub offline_failure_threshold : Option ℕ
  pub config_hash : Option GoString
  pub apis : List ApiRow
  pub invocations : List InvocationRow
  pub attempts : List AttemptRow

pub data StoreError : Type 0 where
  no_capacity global_quota constraint_failed : StoreError
  invocation_not_found lease_underflow api_config_not_found database_fault : GoString → StoreError

-- What a transaction's function returns: an error, or a result and the tables that it has written.
abbrev pub Tx : Type 0 → Type 0
Tx A = Store → Result StoreError (A × Store)

-- `withImmediateTx`: a commit, or a rollback after an error. `fault` is what the database answers if
-- it does not serve the transaction: it is cancelled, or stays busy or broken.
unfoldable pub with_immediate_tx :
    {A : Type 0} → Option GoString → Tx A → Store → Result StoreError A × Store
with_immediate_tx (some fault) tx s = (err (database_fault fault), s)
with_immediate_tx none tx s = elim (tx s) [ ok (a, s') ↦ (ok a, s') | err e ↦ (err e, s) ]

unfoldable pub resolve_api_status : Bool → ℕ → ℕ → ℕ → ℕ → ApiStatus
resolve_api_status enabled lease_count max_concurrent failure_count threshold =
    if not enabled
    then offline
    else if leb threshold failure_count
    then offline
    else if leb max_concurrent lease_count
    then leased
    else available

-- `getOfflineFailureThreshold`
abbrev pub get_offline_failure_threshold : Store → ℕ
get_offline_failure_threshold s = elim s.offline_failure_threshold [ none ↦ 3 | some n ↦ n ]

unfoldable pub find_api : GoString → List ApiRow → Option ApiRow
find_api id [] = none
find_api id (row ∷ rows) = if row.api_id =? id then some row else find_api id rows

unfoldable pub find_invocation : GoString → List InvocationRow → Option InvocationRow
find_invocation id [] = none
find_invocation id (row ∷ rows) =
    if row.invocation_id =? id then some row else find_invocation id rows

-- `UPDATE … WHERE api_id = ?`, and likewise for the other tables.
unfoldable pub update_api : GoString → (ApiRow → ApiRow) → List ApiRow → List ApiRow
update_api id f [] = []
update_api id f (row ∷ rows) = (if row.api_id =? id then f row else row) ∷ update_api id f rows

unfoldable pub update_invocation :
    GoString → (InvocationRow → InvocationRow) → List InvocationRow → List InvocationRow
update_invocation id f [] = []
update_invocation id f (row ∷ rows) =
    (if row.invocation_id =? id then f row else row) ∷ update_invocation id f rows

unfoldable pub update_attempt :
    GoString → (AttemptRow → AttemptRow) → List AttemptRow → List AttemptRow
update_attempt id f [] = []
update_attempt id f (row ∷ rows) =
    (if row.attempt_id =? id then f row else row) ∷ update_attempt id f rows

abbrev pub is_running : InvocationStatus → Bool
is_running InvocationStatus.running = true
is_running InvocationStatus.success = false
is_running InvocationStatus.failure = false
