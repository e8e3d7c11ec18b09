-- ===== src/Base/Lists.antt =====
-- Lists measured by native numbers, predicates and tests on lists, under the library's names.
use Prim.Native.Nat.{ℕ, suc, ◌+◌, ◌≤◌}
use mathlib.Core.Path.{◌≡◌, refl, ap, ◌∙◌}
use mathlib.Core.Logic.{◌⊎◌, inl, inr}
use mathlib.Core.Bool.{Bool, true, false, ◌||◌}
use mathlib.Core.List.{List, [], ◌∷◌, ◌++◌}
use native.Mathlib.Omega.{arith}
use openmate.Base.Tests.{if◌then◌else◌}

module _ {ℓ} {A : Type ℓ} where
  abbrev pub length : List A → ℕ
  length [] = 0
  length (x ∷ xs) = suc (length xs)

  abbrev pub keep : (A → Bool) → List A → List A
  keep p [] = []
  keep p (x ∷ xs) = if p x then x ∷ keep p xs else keep p xs

  abbrev pub any : (A → Bool) → List A → Bool
  any p [] = false
  any p (x ∷ xs) = p x || any p xs

  -- how many items pass the test
  abbrev pub count : (A → Bool) → List A → ℕ
  count p [] = 0
  count p (x ∷ xs) = if p x then suc (count p xs) else count p xs

  abbrev pub All {κ} : (A → Type κ) → List A → Type κ
  All P [] = Unit
  All P (x ∷ xs) = P x × All P xs

  pub length-append : (xs ys : List A) → length (xs ++ ys) ≡ length xs + length ys
  length-append [] ys = omega arith
  length-append (x ∷ xs) ys = omega (arith, length-append xs ys)

  pub length-keep : (p : A → Bool) (xs : List A) → length (keep p xs) ≡ count p xs
  length-keep p [] = refl
  length-keep p (x ∷ xs) = ground (arith, length-keep p xs)

  pub count-le : (p : A → Bool) (xs : List A) → count p xs ≤ length xs
  count-le p [] = omega arith
  count-le p (x ∷ xs) = ground (arith, count-le p xs)

  pub count-append : (p : A → Bool) (xs ys : List A) → count p (xs ++ ys) ≡ count p xs + count p ys
  count-append p [] ys = omega arith
  count-append p (x ∷ xs) ys = ground (arith, count-append p xs ys)

  pub any-append : (p : A → Bool) (xs ys : List A) → any p (xs ++ ys) ≡ (any p xs || any p ys)
  any-append p [] ys = refl
  any-append p (x ∷ xs) ys = ground (arith, any-append p xs ys)

-- Membership with the position kept, so that a member can be taken apart into data.
module _ {A : Type 0} where
  abbrev pub In : A → List A → Type 0
  In x [] = ⊥
  In x (y ∷ ys) = (x ≡ y) ⊎ In x ys

  keep_step :
      (p : A → Bool) (x y : A) (ys : List A) (b : Bool)
      → p y ≡ b
      → In x (if b then y ∷ keep p ys else keep p ys)
      → (In x (keep p ys) → In x ys × (p x ≡ true))
      → In x (y ∷ ys) × (p x ≡ true)
  keep_step p x y ys true e (inl q) rec = (inl q, ap p q ∙ e)
  keep_step p x y ys true e (inr m) rec = (inr (rec m).0, (rec m).1)
  keep_step p x y ys false e m rec = (inr (rec m).0, (rec m).1)

  pub In-keep : (p : A → Bool) (x : A) (xs : List A) → In x (keep p xs) → In x xs × (p x ≡ true)
  In-keep p x [] h = absurd h
  In-keep p x (y ∷ ys) h = keep_step p x y ys (p y) refl h (In-keep p x ys)

  pub In-keep_intro : (p : A → Bool) (x : A) (xs : List A) → In x xs → p x ≡ true → In x (keep p xs)
  In-keep_intro p x [] h e = h
  In-keep_intro p x (y ∷ ys) (inl h) e = ground arith
  In-keep_intro p x (y ∷ ys) (inr h) e = ground (arith, In-keep_intro p x ys h e)

  pub All-In : (P : A → Type 0) (x : A) (xs : List A) → All P xs → In x xs → P x
  All-In P x [] a h = absurd h
  All-In P x (y ∷ ys) a (inl h) = rw h a.0
  All-In P x (y ∷ ys) a (inr h) = All-In P x ys a.1 h
