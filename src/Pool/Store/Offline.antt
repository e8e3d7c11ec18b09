-- ===== src/Pool/Store/Offline.antt =====
-- An API that fails too often is taken out of service.
use openmate.Base.{ℕ, GoString, Option, some, true, false, ok, ◌≡◌, refl, ◌+◌, ◌≤◌, arith}
use openmate.Pool.Types.{GatewayError, InvocationReservation}
use openmate.Pool.Store.{
  ApiRow, Store, find_api, resolve_api_status, get_offline_failure_threshold, update_api,
}
use openmate.Pool.Store.Tables.{find_api-update_api}
use openmate.Pool.Store.Leases.{Balanced, Holds, held_row}
use openmate.Pool.Store.Reserve.{can_lease}
use openmate.Pool.Store.Complete.{counts_toward_offline, release_failure, complete_failure_tx}

-- From balanced tables and a held reservation, recording a failure that counts and brings the
-- API to the threshold leaves it with one failure more and not to be leased on any route.
pub complete_failure_tx-offline :
    (r : InvocationReservation) (e : GatewayError) (finished : ℕ) (s s' : Store) (row : ApiRow)
    (route : Option GoString)
    → Balanced s
    → Holds r s
    → find_api r.api_id s.apis ≡ some row
    → counts_toward_offline e ≡ true
    → get_offline_failure_threshold s ≤ row.failure_count + 1
    → complete_failure_tx r e finished s ≡ ok (tt, s')
    → (after : ApiRow) × (find_api r.api_id s'.apis ≡ some after)
      × (after.failure_count ≡ row.failure_count + 1)
      × (can_lease route after ≡ false)
unfolding complete_failure_tx can_lease resolve_api_status
complete_failure_tx-offline r e finished s s' row route b h found counts reached done_ =
    let (row', found', runtime, positive) = held_row r s b h in
    let same : row ≡ row' = ground (arith, found, found') in
    let f = release_failure (get_offline_failure_threshold s) e row' in
    let tables : update_api r.api_id f s.apis ≡ s'.apis =
      ground (arith, runtime, positive, done_) in
    (
      f row',
      ground (arith, find_api-update_api r.api_id r.api_id f s.apis (λ q. refl), found', tables),
      ground (arith, same, counts),
      ground (arith, same, counts, reached),
    )
