-- ===== src/Pool/Store/Synced.antt =====
-- What writing a configuration does to the tables: the leases stay with their APIs, and an API that
-- is not configured can no longer be leased.
use openmate.Base.{
  ℕ, GoString, ◌=?◌, Option, some, List, [], ◌∷◌, false, if◌then◌else◌, ◌==◌, ◌≡◌, refl, count, ok,
  arith, ◌≤◌, Bool-cases, Result-cases, inl, inr, sym, All,
}
use openmate.Pool.Types.{ApiConfig, ModelConfig}
use openmate.Pool.Store.{ApiRow, Store, find_api}
use openmate.Pool.Store.Leases.{Balanced, lease_of}
use openmate.Pool.Store.Reserve.{can_lease}
use openmate.Pool.Store.Sync.{
  upsert_api, sync_endpoints, configured, disable_others, sync_config, endpoint_row, same_hash,
}

-- The lease count of an API and the number of its rows, in two tables.
pub record Agree (rows rows' : List ApiRow) : Type 0 where
  pub leases : (id : GoString) → lease_of id rows' ≡ lease_of id rows
  pub distinct : (id : GoString) → count (λ r. r.api_id =? id) rows' ≤ 1

lease_of-upsert_api :
    (id : GoString) (e : ApiConfig) (threshold : ℕ) (rows : List ApiRow)
    → lease_of id (upsert_api e threshold rows) ≡ lease_of id rows
unfolding lease_of upsert_api find_api endpoint_row
lease_of-upsert_api id e threshold [] = ground arith
lease_of-upsert_api id e threshold (row ∷ rows) =
    ground (arith, lease_of-upsert_api id e threshold rows)

count-upsert_api :
    (k : GoString) (e : ApiConfig) (threshold : ℕ) (rows : List ApiRow)
    → (e.api_id =? k) ≡ false
    → count (λ r. r.api_id =? k) (upsert_api e threshold rows) ≡ count (λ r. r.api_id =? k) rows
unfolding upsert_api endpoint_row
count-upsert_api k e threshold [] h = ground arith
count-upsert_api k e threshold (row ∷ rows) h =
    ground (arith, count-upsert_api k e threshold rows h)

upsert_api-distinct :
    (k : GoString) (e : ApiConfig) (threshold : ℕ) (rows : List ApiRow)
    → count (λ r. r.api_id =? k) rows ≤ 1
    → count (λ r. r.api_id =? k) (upsert_api e threshold rows) ≤ 1
unfolding upsert_api endpoint_row
upsert_api-distinct k e threshold [] u = ground arith
upsert_api-distinct k e threshold (row ∷ rows) u = ground (
  arith,
  upsert_api-distinct k e threshold rows (ground arith),
  count-upsert_api k e threshold rows,
)

sync_endpoints-Agree :
    (threshold : ℕ) (es : List ApiConfig) (rows rows' : List ApiRow)
    → ((id : GoString) → count (λ r. r.api_id =? id) rows ≤ 1)
    → sync_endpoints threshold es rows ≡ ok rows'
    → Agree rows rows'
unfolding sync_endpoints
sync_endpoints-Agree threshold [] rows rows' u h =
    let same : rows ≡ rows' = cc in rw (sym same) (record { leases = λ id. refl; distinct = u })
sync_endpoints-Agree threshold (e ∷ es) rows rows' u h = elim (Bool-cases (e.max_concurrent == 0)) [
  | inl z ↦ absurd (ground (arith, z, h))
  | inr z ↦
      let rest =
        sync_endpoints-Agree threshold es (upsert_api e threshold rows) rows'
          (λ id. upsert_api-distinct id e threshold rows (u id)) (ground (arith, z, h)) in
      record {
        leases = λ id. ground (arith, rest.leases id, lease_of-upsert_api id e threshold rows);
        distinct = rest.distinct;
      }
]

lease_of-disable_others :
    (id : GoString) (es : List ApiConfig) (rows : List ApiRow)
    → lease_of id (disable_others es rows) ≡ lease_of id rows
unfolding lease_of disable_others find_api
lease_of-disable_others id es [] = refl
lease_of-disable_others id es (row ∷ rows) = ground (arith, lease_of-disable_others id es rows)

count-disable_others :
    (id : GoString) (es : List ApiConfig) (rows : List ApiRow)
    → count (λ r. r.api_id =? id) (disable_others es rows) ≡ count (λ r. r.api_id =? id) rows
unfolding disable_others
count-disable_others id es [] = refl
count-disable_others id es (row ∷ rows) = ground (arith, count-disable_others id es rows)

disable_others-refuses :
    (es : List ApiConfig) (route : Option GoString) (rows : List ApiRow)
    → All
        (λ row. (if configured es row.api_id then false else can_lease route row) ≡ false)
        (disable_others es rows)
unfolding disable_others can_lease
disable_others-refuses es route [] = tt
disable_others-refuses es route (row ∷ rows) = (ground arith, disable_others-refuses es route rows)

module _ (model_config_hash : ModelConfig → GoString) where
  -- Writing a model configuration keeps balanced tables balanced and leaves the attempts and the
  -- invocations unchanged.
  pub sync_config-Balanced :
      (config : ModelConfig) (s s' : Store)
      → Balanced s
      → sync_config model_config_hash config s ≡ ok (tt, s')
      → Balanced s' × (s'.attempts ≡ s.attempts) × (s'.invocations ≡ s.invocations)
  unfolding sync_config
  sync_config-Balanced config s s' b h =
      elim (Bool-cases (same_hash s.config_hash (model_config_hash config))) [
        | inl e ↦ let same : s ≡ s' = ground (arith, e, h) in rw (sym same) (b, refl, refl)
        | inr e ↦
            elim (Result-cases
              (sync_endpoints config.offline_failure_threshold config.apis s.apis)) [
                | inl (x, e₁) ↦ absurd (ground (arith, e, e₁, h))
                | inr (rows, e₁) ↦
                    let a =
                      sync_endpoints-Agree config.offline_failure_threshold config.apis s.apis rows
                        b.apis_unique e₁ in
                    let new : Store = record s {
                      global_limit = config.global_max_concurrent;
                      offline_failure_threshold = some config.offline_failure_threshold;
                      config_hash = some (model_config_hash config);
                      apis = disable_others config.apis rows;
                    } in
                    let same : new ≡ s' = ground (arith, e, e₁, h) in
                    rw (sym same) (
                      record {
                        leases = λ id. ground (
                          arith,
                          lease_of-disable_others id config.apis rows,
                          a.leases id,
                          b.leases id,
                        );
                        apis_unique =
                            λ id. rw (count-disable_others id config.apis rows) (a.distinct id);
                        attempts_unique = b.attempts_unique;
                        invocations_unique = b.invocations_unique;
                      },
                      refl,
                      refl,
                    )
              ]
      ]

  -- Writing a model configuration that was just written changes nothing.
  pub sync_config-idempotent :
      (config : ModelConfig) (s s' : Store)
      → sync_config model_config_hash config s ≡ ok (tt, s')
      → sync_config model_config_hash config s' ≡ ok (tt, s')
  unfolding sync_config same_hash
  sync_config-idempotent config s s' h =
      elim (Bool-cases (same_hash s.config_hash (model_config_hash config))) [
        | inl e ↦ let same : s ≡ s' = ground (arith, e, h) in ground (arith, e, same)
        | inr e ↦
            elim (Result-cases
              (sync_endpoints config.offline_failure_threshold config.apis s.apis)) [
                | inl (x, e₁) ↦ absurd (ground (arith, e, e₁, h))
                | inr (rows, e₁) ↦
                    let new : some (model_config_hash config) ≡ s'.config_hash =
                      ground (arith, e, e₁, h) in
                    ground (arith, sym new)
              ]
      ]

  -- Once a configuration that was not the stored one is written, no API outside it can be
  -- leased, on any route.
  pub sync_config-refuses :
      (config : ModelConfig) (s s' : Store) (route : Option GoString)
      → same_hash s.config_hash (model_config_hash config) ≡ false
      → sync_config model_config_hash config s ≡ ok (tt, s')
      → All
          (λ row.
            (if configured config.apis row.api_id then false else can_lease route row) ≡ false)
          s'.apis
  unfolding sync_config
  sync_config-refuses config s s' route e h =
      elim (Result-cases (sync_endpoints config.offline_failure_threshold config.apis s.apis)) [
        | inl (x, e₁) ↦ absurd (ground (arith, e, e₁, h))
        | inr (rows, e₁) ↦
            let new : disable_others config.apis rows ≡ s'.apis = ground (arith, e, e₁, h) in
            rw (sym new) (disable_others-refuses config.apis route rows)
      ]
