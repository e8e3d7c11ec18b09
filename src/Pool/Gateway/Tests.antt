-- ===== src/Pool/Gateway/Tests.antt =====
-- An invocation of the store's one API whose attempts time out, and each theorem of the loop at it.
use openmate.Base.{
  ℕ, suc, GoString, ◌=?◌, codes, Option, none, some, [], ◌∷◌, true, false, if◌then◌else◌, ◌≡◌, refl,
  Result, ok, err, ◌+◌, str_dec, ℕ_discrete, trim_space,
}
use openmate.Base.Json.{Json, empty_fields, field, empty_items, item, lookup_field}
use openmate.Pool.Types.{bits, InvokeRequest, InvokeResponse, InvocationReservation}
use openmate.Pool.Store.{Store, StoreError, database_fault, update_api}
use openmate.Pool.Store.Leases.{Balanced, Holds, lease_of}
use openmate.Pool.Store.Reserve.{
  Fresh, sync_then_reserve, reserve_attempt, make_reservation, check_quota, count_active,
  select_api, can_lease, better, less_loaded, api_by_id, write_invocation, has_invocation,
  has_attempt, new_invocation,
}
use openmate.Pool.Store.Reserved.{reserved_store}
use openmate.Pool.Store.Tests.{
  hash, config, empty_store, empty_store-Balanced, reservation, reserved, reserved-Balanced,
  synced_store, failure, row, api, syncs,
}
use openmate.Pool.Pricing.{FloatOps}
use openmate.Pool.Requests.{
  validate_invoke_request, validate_for_mode, validate_chat_completions, allow_fields,
  has_non_empty_messages, is_chat_mode,
}
use openmate.Pool.Gateway.{
  GoError, Round, Failure, provider_failed, store_failed, invoke, invoke_reserved,
}
use openmate.Pool.Gateway.Turns.{Serves, is_settled}
use openmate.Pool.Gateway.Invoked.{
  Neutral, invoke_reserved-Balanced, invoke-Neutral, invoke-keeps_lease,
}

abbrev describe : StoreError → GoError
describe x = record { message = codes "store"; is_deadline_exceeded = false; is_canceled = false }

abbrev ops : FloatOps
ops = record { of_int = λ n. bits 0; plus = λ a b. a; times = λ a b. a; over = λ a b. a }

abbrev chat : InvokeRequest
chat = record {
  request_id = codes "r";
  node_id = codes "n";
  request = empty_fields;
  chat_request =
      field (codes "messages") (Json.array (item (Json.text (codes "hi")) empty_items))
        empty_fields;
  timeout_ms = none;
  route_api_id = none;
  stream_sink = false;
}

abbrev round_with : Option GoString → ℕ → Round
round_with fault n = record {
  factory_error = none;
  outcome = provider_failed failure;
  finished_at = n;
  attempt_fault = fault;
  finish_fault = none;
  sleep = λ delay. none;
  retry_fault = none;
  fresh = record { invocation_id = codes "i"; attempt_id = n ∷ []; started_at = n };
  given_up_at = n;
}

abbrev rounds : ℕ → Round
rounds = round_with none

abbrev cancelled_rounds : ℕ → Round
cancelled_rounds = round_with (some (codes "context canceled"))

rounds-Serves : (n : ℕ) → Serves (rounds n)
rounds-Serves n = record { attempt = refl; finish = refl; retry = refl }

invoke_reserved-Balanced_example :
    (answer : Result Failure InvokeResponse) × (s' : Store) × (invoke_reserved hash describe ops
        none config chat rounds reservation reserved
      ≡ (answer, s'))
    × (is_settled answer ≡ true)
    × Balanced s'
    × ((id : GoString)
        → lease_of id s'.apis + (if reservation.api_id =? id then 1 else 0)
          ≡ lease_of id reserved.apis)
invoke_reserved-Balanced_example =
    invoke_reserved-Balanced hash describe ops none config chat rounds reservation reserved
      rounds-Serves reserved-Balanced.0 reserved-Balanced.1

invoke-Neutral_example :
    Neutral empty_store (invoke hash describe ops none config chat (rounds 0) rounds empty_store)
invoke-Neutral_example =
    invoke-Neutral hash describe ops none config chat (rounds 0) rounds empty_store
      (rounds-Serves 0) rounds-Serves empty_store-Balanced

abbrev chat_fresh : Fresh
chat_fresh = (rounds 0).fresh

abbrev chat_reservation : InvocationReservation
chat_reservation = make_reservation chat chat_fresh (codes "i") row api

abbrev chat_reserved : Store
chat_reserved =
    reserved_store chat_fresh (codes "i") (new_invocation chat chat_fresh (codes "a") ∷ []) row
      synced_store

chat_valid : validate_invoke_request chat ≡ ok tt
unfolding validate_invoke_request validate_chat_completions allow_fields has_non_empty_messages
    lookup_field trim_space str_dec ℕ_discrete
chat_valid = refl

chat_fits : validate_for_mode chat chat_reservation.api_mode ≡ ok tt
unfolding validate_for_mode is_chat_mode validate_chat_completions allow_fields
    has_non_empty_messages lookup_field trim_space str_dec ℕ_discrete
chat_fits = refl

reserves_chat :
    reserve_attempt config chat none chat_fresh synced_store ≡ ok (chat_reservation, chat_reserved)
unfolding reserve_attempt check_quota count_active select_api can_lease better less_loaded api_by_id
    write_invocation has_invocation has_attempt update_api str_dec ℕ_discrete
reserves_chat = refl

chat_reserves :
    sync_then_reserve hash config chat none chat_fresh empty_store
    ≡ ok (chat_reservation, chat_reserved)
unfolding sync_then_reserve
chat_reserves = rw syncs reserves_chat

invoke-keeps_lease_example :
    (invoke hash describe ops none config chat (rounds 0) cancelled_rounds empty_store
      ≡ (err (store_failed (database_fault (codes "context canceled"))), chat_reserved))
    × Holds chat_reservation chat_reserved
    × (lease_of chat_reservation.api_id chat_reserved.apis
        ≡ suc (lease_of chat_reservation.api_id empty_store.apis))
invoke-keeps_lease_example =
    invoke-keeps_lease hash describe ops none config chat (rounds 0) cancelled_rounds empty_store
      chat_reserved chat_reservation failure (codes "context canceled") (rounds-Serves 0)
      empty_store-Balanced chat_valid chat_reserves chat_fits refl refl refl
