-- ===== src/Pool/Store/Slots.antt =====
-- How the capacity adds up.
use openmate.Base.{ℕ, List, [], ◌∷◌, if◌then◌else◌, ◌≡◌, refl, ◌+◌, ◌-◌, ◌≤◌, arith, All}
use openmate.Pool.Store.{ApiRow, Store}
use openmate.Pool.Store.Load.{sum_slots, is_offline, capacity_tx}

-- The free slots of the APIs that are offline.
abbrev pub withheld : List ApiRow → ℕ
withheld =
    sum_slots (λ row. if is_offline row.status then row.max_concurrent - row.lease_count else 0)

slots_add_up :
    (rows : List ApiRow)
    → All (λ row. row.lease_count ≤ row.max_concurrent) rows
    → sum_slots (λ row. row.max_concurrent) rows
      ≡ sum_slots (λ row. row.lease_count) rows
        + (sum_slots
              (λ row. if is_offline row.status then 0 else row.max_concurrent - row.lease_count)
              rows
            + withheld rows)
unfolding sum_slots
slots_add_up [] fits = refl
slots_add_up (row ∷ rows) fits = ground (arith, fits.0, slots_add_up rows fits.1)

-- Where no API has more leases than slots, the total slots of the capacity are the leased ones,
-- the available ones, and the free ones of APIs that are offline.
pub capacity_tx-total_slots :
    (now : ℕ) (s : Store)
    → All (λ row. row.lease_count ≤ row.max_concurrent) s.apis
    → (capacity_tx now s).total_slots
      ≡ (capacity_tx now s).leased_slots + ((capacity_tx now s).available_slots + withheld s.apis)
unfolding capacity_tx
capacity_tx-total_slots now s fits = slots_add_up s.apis fits
