-- ===== src/Base/Decimal/Digits.antt =====
-- A number printed in decimal spells that number.
use honey_mind.Base.Decimal.{decimal, digits}
use honey_mind.Base.Text.{number_of, is_digit}
use honey_mind.Base.Lists.{Bytes, all}
use honey_mind.Base.Tests.{ltb, Bool-cases}
use Prim.Native.Nat.{ℕ, zero, suc, ◌+◌, ◌-◌, ◌*◌, ◌/◌, ◌%◌, ◌<◌}
use mathlib.Core.List.{[], ◌∷◌, ◌++◌}
use mathlib.Core.Logic.{inl, inr}
use mathlib.Core.Bool.{true}
use mathlib.Core.Path.{◌≡◌, refl, ◌∙◌}
use native.Mathlib.Omega.{arith}

number_of-append :
    (n d : ℕ) (xs : Bytes) → number_of n (xs ++ d ∷ []) ≡ number_of n xs * 10 + (d - 48)
unfolding number_of
number_of-append n d [] = refl
number_of-append n d (x ∷ xs) = number_of-append (n * 10 + (x - 48)) d xs

number_of-digits : (f n : ℕ) → n < f → number_of 0 (digits f n) ≡ n
unfolding digits
number_of-digits zero n h = absurd (omega arith)
number_of-digits (suc f) n h = elim (Bool-cases (ltb n 10)) [
  | inl e ↦ rw e (unfold number_of in omega arith)
  | inr e ↦ rw e (
      number_of-append 0 (48 + n % 10) (digits f (n / 10))
      ∙ ground (arith, number_of-digits f (n / 10)))
]

pub number_of-decimal : (n : ℕ) → number_of 0 (decimal n) ≡ n
unfolding decimal
number_of-decimal n = number_of-digits (suc n) n (omega arith)

all_digits-append :
    (d : ℕ) (xs : Bytes)
    → all is_digit xs ≡ true
    → is_digit d ≡ true
    → all is_digit (xs ++ d ∷ []) ≡ true
all_digits-append d [] h k = ground arith
all_digits-append d (x ∷ xs) h k = ground (arith, all_digits-append d xs)

digits_lem : (f n : ℕ) → all is_digit (digits f n) ≡ true
unfolding digits
digits_lem zero n = refl
digits_lem (suc f) n = elim (Bool-cases (ltb n 10)) [
  | inl e ↦ rw e (ground arith)
  | inr e ↦
      rw e
        (all_digits-append (48 + n % 10) (digits f (n / 10)) (digits_lem f (n / 10)) (ground arith))
]

-- It is of digits only.
pub all-decimal : (n : ℕ) → all is_digit (decimal n) ≡ true
unfolding decimal
all-decimal n = digits_lem (suc n) n
