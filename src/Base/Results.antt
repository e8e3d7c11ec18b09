-- ===== src/Base/Results.antt =====
-- Results with an error: what a Go function returns as a value beside an `error`.
use mathlib.Core.Path.{◌≡◌, refl}
use mathlib.Core.Bool.{Bool, true, false}
use mathlib.Core.Option.{Option, none, some}
use mathlib.Core.Logic.{◌⊎◌, inl, inr}

pub data Result {ℓ κ} (E : Type ℓ) (A : Type κ) : Type (ℓ ⊔ κ) where
  ok : A → Result E A
  err : E → Result E A

-- The error of a lookup that finds nothing.
abbrev pub or_fail {ℓ κ} : {E : Type ℓ} {A : Type κ} → Option A → E → Result E A
or_fail none e = err e
or_fail (some a) e = ok a

infixl 5 ◌>>=◌
abbrev pub ◌>>=◌ {ℓ κ μ} :
    {E : Type ℓ} {A : Type κ} {B : Type μ} (first : Result E A) (next : A → Result E B) → Result E B
err failure >>= next = err failure
ok value >>= next = next value

-- `if !test { return failure }`
abbrev pub guard {ℓ} : {E : Type ℓ} (test : Bool) (failure : E) → Result E (Unit {0})
guard false failure = err failure
guard true failure = ok tt

pub Result-cases {ℓ κ} :
    {E : Type ℓ} {A : Type κ} (m : Result E A) → ((e : E) × (m ≡ err e)) ⊎ ((a : A) × (m ≡ ok a))
Result-cases (ok a) = inr (a, refl)
Result-cases (err e) = inl (e, refl)

infixl 5 ◌>>◌
abbrev pub ◌>>◌ {ℓ κ} :
    {E : Type ℓ} {B : Type κ} (check : Result E (Unit {0})) (next : Result E B) → Result E B
check >> next = check >>= λ _. next
