-- ===== src/Vos/Tree/Maps.antt =====
-- Lookups after a change of the map.
use openmate.Base.{
  GoString, ◌=?◌, none, some, List, [], ◌∷◌, ◌++◌, Bool, false, not, ◌≡◌, refl, if◌then◌else◌, ◌&&◌,
  ◌||◌, arith, Bool-cases, inl, inr, any-append,
}
use openmate.Schedule.Types.{has}
use openmate.Vos.Types.{lookup, update, remove}
use openmate.Vos.Tree.{remove_child}

abbrev pub map_at : {A : Type 0} → Bool → (A → A) → A → A
map_at b f a = if b then f a else a

module _ {A : Type 0} where
  pub lookup-update :
      (key : GoString) (f : A → A) (k : GoString) (entries : List (GoString × A)) (a : A)
      → lookup k entries ≡ some a
      → lookup k (update key f entries) ≡ some (map_at (key =? k) f a)
  unfolding lookup update
  lookup-update key f k [] a h = absurd (ground (arith, h))
  lookup-update key f k ((j, b) ∷ entries) a h = ground (arith, h, lookup-update key f k entries a)

  pub lookup-update_back :
      (key : GoString) (f : A → A) (k : GoString) (entries : List (GoString × A)) (b : A)
      → lookup k (update key f entries) ≡ some b
      → (a : A) × (lookup k entries ≡ some a) × (b ≡ map_at (key =? k) f a)
  unfolding lookup update
  lookup-update_back key f k [] b h = absurd (ground (arith, h))
  lookup-update_back key f k ((j, c) ∷ entries) b h = elim (Bool-cases (j =? k)) [
    | inl e ↦ (c, rw e refl, ground (arith, h, e))
    | inr e ↦ rw e (lookup-update_back key f k entries b (ground (arith, h, e)))
  ]

  pub lookup-remove :
      (key k : GoString) (entries : List (GoString × A))
      → (key =? k) ≡ false
      → lookup k (remove key entries) ≡ lookup k entries
  unfolding lookup remove
  lookup-remove key k [] h = refl
  lookup-remove key k ((j, b) ∷ entries) h = ground (arith, h, lookup-remove key k entries h)

  pub lookup-removed :
      (key : GoString) (entries : List (GoString × A)) → lookup key (remove key entries) ≡ none
  unfolding lookup remove
  lookup-removed key [] = refl
  lookup-removed key ((j, b) ∷ entries) = ground (arith, lookup-removed key entries)

pub has-remove_child :
    (k id : GoString) (children : List GoString)
    → has k (remove_child children id) ≡ (has k children && not (k =? id))
unfolding remove_child
has-remove_child k id [] = refl
has-remove_child k id (c ∷ children) = ground (arith, has-remove_child k id children)

pub has-append :
    (k id : GoString) (children : List GoString)
    → has k (children ++ id ∷ []) ≡ (has k children || (id =? k))
has-append k id children = ground (arith, any-append (λ c. c =? k) children (id ∷ []))
