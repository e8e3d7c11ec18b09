-- ===== src/Base/Strings.antt =====
-- Go strings, as lists of code points: equality, and the order of `<`, which on valid UTF-8 is the
-- order of the code points.
use Prim.Native.Char.{code}
use Prim.Native.String.{String}
use Prim.Native.Nat.{ℕ}
use mathlib.Core.Path.{◌≡◌, refl}
use mathlib.Core.Logic.{◌⊎◌, inl, inr}
use mathlib.Core.Bool.{Bool, true, false, ◌&&◌, ◌||◌}
use mathlib.Core.List.{List, [], ◌∷◌, reverse}
use native.Mathlib.Omega.{arith}
use native.Mathlib.Decide.{ℕ_discrete}
use openmate.Base.Tests.{ltb, leb, ◌==◌, if◌then◌else◌, test}

abbrev pub GoString : Type 0
GoString = List ℕ

-- A literal of the source.
abbrev pub codes : String → GoString
codes String.[] = []
codes (String.◌∷◌ c s) = code c ∷ codes s

unfoldable pub str_dec : Discrete GoString
unfolding ℕ_discrete
str_dec = hlevel ℕ_discrete

infix 50 ◌=?◌
abbrev pub ◌=?◌ : GoString → GoString → Bool
s =? t = test (str_dec s t)

abbrev pub is_empty : GoString → Bool
is_empty [] = true
is_empty (c ∷ s) = false

-- `s < t`
unfoldable pub str_ltb : GoString → GoString → Bool
str_ltb s [] = false
str_ltb [] (d ∷ t) = true
str_ltb (c ∷ s) (d ∷ t) = if ltb c d then true else (c == d) && str_ltb s t

pub str_ltb_irrefl : (s : GoString) → str_ltb s s ≡ false
unfolding str_ltb
str_ltb_irrefl [] = refl
str_ltb_irrefl (c ∷ s) = ground (arith, str_ltb_irrefl s)

pub str_ltb_trans :
    (r s t : GoString) → str_ltb r s ≡ true → str_ltb s t ≡ true → str_ltb r t ≡ true
unfolding str_ltb
str_ltb_trans r [] t h k = ground arith
str_ltb_trans r (d ∷ s) [] h k = ground arith
str_ltb_trans [] (d ∷ s) (e ∷ t) h k = refl
str_ltb_trans (c ∷ r) (d ∷ s) (e ∷ t) h k = ground (arith, str_ltb_trans r s t)

pub str_ltb_total : (s t : GoString) → (str_ltb s t ≡ true) ⊎ ((s ≡ t) ⊎ (str_ltb t s ≡ true))
unfolding str_ltb
str_ltb_total [] [] = inr (inl refl)
str_ltb_total [] (d ∷ t) = inl refl
str_ltb_total (c ∷ s) [] = inr (inr refl)
str_ltb_total (c ∷ s) (d ∷ t) = ground (arith, str_ltb_total s t)

-- `unicode.IsSpace`
unfoldable pub is_space : ℕ → Bool
is_space c =
    (leb 9 c && leb c 13)
    || (c == 32)
    || (c == 0x85)
    || (c == 0xa0)
    || (c == 0x1680)
    || (leb 0x2000 c && leb c 0x200a)
    || (c == 0x2028)
    || (c == 0x2029)
    || (c == 0x202f)
    || (c == 0x205f)
    || (c == 0x3000)

unfoldable pub trim_left : GoString → GoString
trim_left [] = []
trim_left (c ∷ s) = if is_space c then trim_left s else c ∷ s

-- `strings.TrimSpace`
unfoldable pub trim_space : GoString → GoString
unfolding trim_left is_space
trim_space s = reverse (trim_left (reverse (trim_left s)))

str_test1 : (codes "ready" =? codes "ready") ≡ true
unfolding str_dec ℕ_discrete
str_test1 = refl

str_test2 : (codes "ready" =? codes "read") ≡ false
unfolding str_dec ℕ_discrete
str_test2 = refl

trim_test : trim_space (codes "  a b ") ≡ codes "a b"
unfolding trim_space
trim_test = refl
