-- ===== src/Pool/Store/Selection.antt =====
-- Which API a reservation takes: the least loaded of those that may be leased.
use openmate.Base.{
  GoString, str_ltb_irrefl, str_ltb_trans, str_ltb_total, Option, none, some, List, [], ◌∷◌, true,
  false, ◌≡◌, refl, inl, inr, In, arith, ap, Bool-cases, ◌∙◌, All, subst,
}
use openmate.Pool.Store.{ApiRow}
use openmate.Pool.Store.Reserve.{can_lease, less_loaded, better, select_api}

less_loaded_cotrans :
    (a b c : ApiRow) → less_loaded a b ≡ false → less_loaded c a ≡ false → less_loaded c b ≡ false
unfolding less_loaded
less_loaded_cotrans a b c h k =
    ground (arith, str_ltb_total a.api_id b.api_id, str_ltb_trans c.api_id b.api_id a.api_id)

less_loaded_asym : (a b : ApiRow) → less_loaded a b ≡ true → less_loaded b a ≡ false
unfolding less_loaded
less_loaded_asym a b h =
    ground (arith, str_ltb_trans a.api_id b.api_id a.api_id, str_ltb_irrefl a.api_id)

-- What the selection returns over some rows.
abbrev pub Selects : Option GoString → List ApiRow → Option ApiRow → Type 0
Selects route rows none = All (λ row. can_lease route row ≡ false) rows
Selects route rows (some best) =
    In best rows
    × (can_lease route best ≡ true)
    × ((other : ApiRow)
        → In other rows
        → can_lease route other ≡ true
        → less_loaded other best ≡ false)

Selects-skip :
    (route : Option GoString) (row : ApiRow) (rows : List ApiRow) (o : Option ApiRow)
    → can_lease route row ≡ false
    → Selects route rows o
    → Selects route (row ∷ rows) o
Selects-skip route row rows none e s = (e, s)
Selects-skip route row rows (some best) e (i, fits, least) = (inr i, fits, only)
  where
    only :
        (other : ApiRow)
        → In other (row ∷ rows)
        → can_lease route other ≡ true
        → less_loaded other best ≡ false
    only other (inl q) f = absurd (ground (arith, ap (can_lease route) q))
    only other (inr m) f = least other m f

All-refused :
    (route : Option GoString) (rows : List ApiRow) (other : ApiRow)
    → All (λ row. can_lease route row ≡ false) rows
    → In other rows
    → can_lease route other ≡ false
All-refused route [] other a h = absurd h
All-refused route (row ∷ rows) other a (inl q) = ap (can_lease route) q ∙ a.0
All-refused route (row ∷ rows) other a (inr m) = All-refused route rows other a.1 m

less_loaded_irrefl : (a : ApiRow) → less_loaded a a ≡ false
unfolding less_loaded
less_loaded_irrefl a = ground (arith, str_ltb_irrefl a.api_id)

Selects-take :
    (route : Option GoString) (row : ApiRow) (rows : List ApiRow) (o : Option ApiRow)
    → can_lease route row ≡ true
    → Selects route rows o
    → Selects route (row ∷ rows) (some (better row o))
unfolding better
Selects-take route row rows none e s = (inl refl, e, only)
  where
    only :
        (other : ApiRow)
        → In other (row ∷ rows)
        → can_lease route other ≡ true
        → less_loaded other row ≡ false
    only other (inl q) f = ap (λ k. less_loaded k row) q ∙ less_loaded_irrefl row
    only other (inr m) f = absurd (ground (arith, All-refused route rows other s m))
Selects-take route row rows (some best) e (i, fits, least) =
    elim (Bool-cases (less_loaded best row)) [
      | inl lt ↦
          let same : best ≡ better row (some best) = ground arith in
          subst (λ (b : ApiRow). Selects route (row ∷ rows) (some b)) same (inr i, fits, keeps lt)
      | inr ge ↦
          let same : row ≡ better row (some best) = ground arith in
          subst (λ (b : ApiRow). Selects route (row ∷ rows) (some b)) same (inl refl, e, takes ge)
    ]
  where
    keeps :
        less_loaded best row ≡ true
        → (other : ApiRow) → In other (row ∷ rows)
        → can_lease route other ≡ true
        → less_loaded other best ≡ false
    keeps lt other (inl q) f = ap (λ k. less_loaded k best) q ∙ less_loaded_asym best row lt
    keeps lt other (inr m) f = least other m f

    takes :
        less_loaded best row ≡ false
        → (other : ApiRow) → In other (row ∷ rows)
        → can_lease route other ≡ true
        → less_loaded other row ≡ false
    takes ge other (inl q) f = ap (λ k. less_loaded k row) q ∙ less_loaded_irrefl row
    takes ge other (inr m) f = less_loaded_cotrans best row other ge (least other m f)

-- The selection finds nothing exactly when no row may be leased, and otherwise a row that may be
-- leased and that no other such row comes before.
pub select_api-Selects :
    (route : Option GoString) (rows : List ApiRow) → Selects route rows (select_api route rows)
unfolding select_api
select_api-Selects route [] = tt
select_api-Selects route (row ∷ rows) = elim (Bool-cases (can_lease route row)) [
  | inl e ↦
      rw e (Selects-take route row rows (select_api route rows) e (select_api-Selects route rows))
  | inr e ↦
      rw e (Selects-skip route row rows (select_api route rows) e (select_api-Selects route rows))
]
