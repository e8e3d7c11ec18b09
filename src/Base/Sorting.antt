-- ===== src/Base/Sorting.antt =====
-- `sort.Slice` with a strict weak order, and the first item that passes a test.
use mathlib.Core.Path.{◌≡◌, refl, subst, ap, ◌∙◌}
use mathlib.Core.Logic.{◌⊎◌, inl, inr}
use mathlib.Core.Bool.{Bool, true, false, ◌||◌}
use mathlib.Core.Option.{Option, none, some}
use mathlib.Core.List.{List, [], ◌∷◌}
use native.Mathlib.Omega.{arith}
use openmate.Base.Tests.{if◌then◌else◌, Bool-cases}
use openmate.Base.Lists.{In, All, any}

module _ {A : Type 0} where
  unfoldable pub insert_by : (A → A → Bool) → A → List A → List A
  insert_by less x [] = x ∷ []
  insert_by less x (y ∷ ys) = if less y x then y ∷ insert_by less x ys else x ∷ y ∷ ys

  unfoldable pub sort_by : (A → A → Bool) → List A → List A
  unfolding insert_by
  sort_by less [] = []
  sort_by less (x ∷ xs) = insert_by less x (sort_by less xs)

  unfoldable pub first_with : (A → Bool) → List A → Option A
  first_with p [] = none
  first_with p (x ∷ xs) = if p x then some x else first_with p xs

  -- No later item is less than an earlier one.
  abbrev pub IsSorted : (A → A → Bool) → List A → Type 0
  IsSorted less [] = Unit
  IsSorted less (x ∷ xs) = All (λ y. less y x ≡ false) xs × IsSorted less xs

module _ {A : Type 0} (less : A → A → Bool) (asym : (x y : A) → less x y ≡ true → less y x ≡ false)
    (weak : (x y z : A) → less x z ≡ true → (less x y ≡ true) ⊎ (less y z ≡ true)) where
  later : (x y z : A) → less y x ≡ false → less z y ≡ false → less z x ≡ false
  later x y z h k = ground (arith, weak z y x)

  All-later :
      (x y : A) (zs : List A)
      → less y x ≡ false
      → All (λ z. less z y ≡ false) zs
      → All (λ z. less z x ≡ false) zs
  All-later x y [] h a = tt
  All-later x y (z ∷ zs) h a = (later x y z h a.0, All-later x y zs h a.1)

  All-insert :
      (x y : A) (zs : List A)
      → less x y ≡ false
      → All (λ z. less z y ≡ false) zs
      → All (λ z. less z y ≡ false) (insert_by less x zs)
  unfolding insert_by
  All-insert x y [] h a = (h, tt)
  All-insert x y (z ∷ zs) h a = ground (arith, All-insert x y zs h a.1)

  insert_by-IsSorted :
      (x : A) (ys : List A) → IsSorted less ys → IsSorted less (insert_by less x ys)
  unfolding insert_by
  insert_by-IsSorted x [] s = (tt, tt)
  insert_by-IsSorted x (y ∷ ys) s =
      ground (arith, insert_by-IsSorted x ys s.1, All-insert x y ys, All-later x y ys, asym y x)

  pub sort_by-IsSorted : (xs : List A) → IsSorted less (sort_by less xs)
  unfolding sort_by
  sort_by-IsSorted [] = tt
  sort_by-IsSorted (x ∷ xs) = insert_by-IsSorted x (sort_by less xs) (sort_by-IsSorted xs)

  irrefl : (x : A) → less x x ≡ false
  irrefl x = elim (Bool-cases (less x x)) [ inl t ↦ asym x x t | inr f ↦ f ]

  All-weaken :
      (p : A → Bool) (x : A) (ys : List A)
      → All (λ y. less y x ≡ false) ys
      → All (λ y. p y ≡ true → less y x ≡ false) ys
  All-weaken p x [] a = tt
  All-weaken p x (y ∷ ys) a = (λ _. a.0, All-weaken p x ys a.1)

  found :
      (p : A → Bool) (x y : A) (ys : List A) → first_with p (y ∷ ys) ≡ some x → p y ≡ true → y ≡ x
  unfolding first_with
  found p x y ys e t = ground (arith, e, t)

  -- No item that passes is less than the first one that does.
  pub first_with-least :
      (p : A → Bool) (x : A) (ys : List A)
      → IsSorted less ys
      → first_with p ys ≡ some x
      → All (λ y. p y ≡ true → less y x ≡ false) ys
  unfolding first_with
  first_with-least p x [] s e = tt
  first_with-least p x (y ∷ ys) s e = elim (Bool-cases (p y)) [
    | inl t ↦
        subst (λ z. All (λ w. p w ≡ true → less w z ≡ false) (y ∷ ys)) (found p x y ys e t)
          (λ _. irrefl y, All-weaken p y ys s.0)
    | inr f ↦ (ground (arith, f), first_with-least p x ys s.1 (ground (arith, e, f)))
  ]

module _ {A : Type 0} (less : A → A → Bool) (p : A → Bool) where
  any_insert : (x : A) (ys : List A) → any p (insert_by less x ys) ≡ (p x || any p ys)
  unfolding insert_by
  any_insert x [] = refl
  any_insert x (y ∷ ys) = ground (arith, any_insert x ys)

  pub any-sort_by : (xs : List A) → any p (sort_by less xs) ≡ any p xs
  unfolding sort_by
  any-sort_by [] = refl
  any-sort_by (x ∷ xs) = ground (arith, any-sort_by xs, any_insert x (sort_by less xs))

  pub first_with-none : (xs : List A) → first_with p xs ≡ none → any p xs ≡ false
  unfolding first_with
  first_with-none [] e = refl
  first_with-none (x ∷ xs) e = ground (arith, first_with-none xs)

  first_step :
      (P : A → Type 0) (x y : A) (xs : List A) (b : Bool)
      → p y ≡ b
      → P y
      → (if b then some y else first_with p xs) ≡ some x
      → (first_with p xs ≡ some x → (p x ≡ true) × P x)
      → (p x ≡ true) × P x
  first_step P x y xs true e h k rec =
      let same : y ≡ x = ground (arith, k) in (subst (λ z. p z ≡ true) same e, subst P same h)
  first_step P x y xs false e h k rec = rec k

  -- The first item that passes does pass, and is one of them.
  pub first_with-found :
      (P : A → Type 0) (x : A) (xs : List A)
      → All P xs
      → first_with p xs ≡ some x
      → (p x ≡ true) × P x
  unfolding first_with
  first_with-found P x [] a e = absurd (ground (arith, e))
  first_with-found P x (y ∷ ys) a e =
      first_step P x y ys (p y) refl a.0 e (first_with-found P x ys a.1)

module _ {A : Type 0} (less : A → A → Bool) where
  back_step :
      (P : A → Type 0) (x y : A) (ys : List A) (b : Bool)
      → All P (if b then y ∷ insert_by less x ys else x ∷ y ∷ ys)
      → (All P (insert_by less x ys) → P x × All P ys)
      → P x × All P (y ∷ ys)
  back_step P x y ys true a rec = let both = rec a.1 in (both.0, (a.0, both.1))
  back_step P x y ys false a rec = a

  All-insert_back :
      (P : A → Type 0) (x : A) (ys : List A) → All P (insert_by less x ys) → P x × All P ys
  unfolding insert_by
  All-insert_back P x [] a = a
  All-insert_back P x (y ∷ ys) a = back_step P x y ys (less y x) a (All-insert_back P x ys)

  pub All-sort_back : (P : A → Type 0) (xs : List A) → All P (sort_by less xs) → All P xs
  unfolding sort_by
  All-sort_back P [] a = tt
  All-sort_back P (x ∷ xs) a =
      let both = All-insert_back P x (sort_by less xs) a in (both.0, All-sort_back P xs both.1)

  All-insert_to :
      (P : A → Type 0) (x : A) (ys : List A) → P x → All P ys → All P (insert_by less x ys)
  unfolding insert_by
  All-insert_to P x [] h a = (h, tt)
  All-insert_to P x (y ∷ ys) h a = ground (arith, All-insert_to P x ys h a.1)

  pub All-sort : (P : A → Type 0) (xs : List A) → All P xs → All P (sort_by less xs)
  unfolding sort_by
  All-sort P [] a = tt
  All-sort P (x ∷ xs) a = All-insert_to P x (sort_by less xs) a.0 (All-sort P xs a.1)

module _ {A : Type 0} where
  All-tail : (P Q : A → Type 0) (f : (x : A) → P x → Q x) (xs : List A) → All P xs → All Q xs
  All-tail P Q f [] a = tt
  All-tail P Q f (x ∷ xs) a = (f x a.0, All-tail P Q f xs a.1)

  pub All-self : (xs : List A) → All (λ x. In x xs) xs
  All-self [] = tt
  All-self (x ∷ xs) =
      (inl refl, All-tail (λ y. In y xs) (λ y. In y (x ∷ xs)) (λ y h. inr h) xs (All-self xs))

-- Two orders that agree on the items sort them alike.
module _ {A : Type 0} (less other : A → A → Bool) (good : A → Bool)
    (agree : (x y : A) → good x ≡ true → good y ≡ true → less x y ≡ other x y) where
  insert_agree :
      (x : A) (ys : List A)
      → good x ≡ true
      → All (λ y. good y ≡ true) ys
      → insert_by less x ys ≡ insert_by other x ys
  unfolding insert_by
  insert_agree x [] h a = refl
  insert_agree x (y ∷ ys) h a = ground (arith, agree y x a.0 h, insert_agree x ys h a.1)

  pub sort_agree : (xs : List A) → All (λ y. good y ≡ true) xs → sort_by less xs ≡ sort_by other xs
  unfolding sort_by
  sort_agree [] a = refl
  sort_agree (x ∷ xs) a =
      insert_agree x (sort_by less xs) a.0 (All-sort less (λ y. good y ≡ true) xs a.1)
      ∙ ap (insert_by other x) (sort_agree xs a.1)
