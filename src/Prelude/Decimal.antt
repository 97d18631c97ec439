-- ===== src/Prelude/Decimal.antt =====
-- `String(n)` of a number: its decimal digits, the most significant first.
use Prim.Native.Nat.{ℕ, zero, suc, ◌+◌, ◌-◌, ◌*◌, ◌/◌, ◌%◌, ◌<◌}
use mathlib.Core.Path.{◌≡◌, refl, ◌∙◌}
use mathlib.Core.Logic.{inl, inr}
use mathlib.Core.Bool.{true}
use mathlib.Core.List.{[], ◌∷◌, ◌++◌}
use native.Mathlib.Omega.{arith}
use drasken_labs_communicati.Prelude.Tests.{ltb, Bool-cases, if◌then◌else◌}
use drasken_labs_communicati.Prelude.Strings.{Text, is_digit}
use drasken_labs_communicati.Prelude.Lists.{all}

unfoldable pub decimal_from : ℕ → ℕ → Text
decimal_from zero n = []
decimal_from (suc f) n =
    let more = decimal_from f (n / 10) ++ (b'0' + n % 10) ∷ [] in
    if ltb n 10 then (b'0' + n) ∷ [] else more

-- A number has fewer digits than one more than itself, so the fuel is enough.
unfoldable pub decimal : ℕ → Text
unfolding decimal_from
decimal n = decimal_from (suc n) n

-- The number that digits stand for.
unfoldable pub value_from : ℕ → Text → ℕ
value_from acc [] = acc
value_from acc (c ∷ s) = value_from (acc * 10 + (c - b'0')) s

value_from-append :
    (acc : ℕ) (s : Text) (c : ℕ) → value_from acc (s ++ c ∷ []) ≡ value_from acc s * 10 + (c - b'0')
unfolding value_from
value_from-append acc [] c = refl
value_from-append acc (d ∷ s) c = value_from-append (acc * 10 + (d - b'0')) s c

value_from-decimal_from : (f n : ℕ) → n < f → value_from 0 (decimal_from f n) ≡ n
unfolding decimal_from value_from
value_from-decimal_from zero n h = absurd (omega arith)
value_from-decimal_from (suc f) n h = elim (Bool-cases (ltb n 10)) [
  | inl small ↦ rw small (ground arith)
  | inr large ↦ rw large (
      value_from-append 0 (decimal_from f (n / 10)) (b'0' + n % 10)
      ∙ ground (arith, value_from-decimal_from f (n / 10)))
]

-- The digits of a number stand for that number.
pub value_from-decimal : (n : ℕ) → value_from 0 (decimal n) ≡ n
unfolding decimal
value_from-decimal n = value_from-decimal_from (suc n) n (omega arith)

all-append_digit :
    (s : Text) (c : ℕ)
    → all is_digit s ≡ true
    → is_digit c ≡ true
    → all is_digit (s ++ c ∷ []) ≡ true
all-append_digit [] c h k = ground arith
all-append_digit (d ∷ s) c h k = ground (arith, all-append_digit s c)

all_digits_from : (f n : ℕ) → all is_digit (decimal_from f n) ≡ true
unfolding decimal_from
all_digits_from zero n = refl
all_digits_from (suc f) n = elim (Bool-cases (ltb n 10)) [
  | inl small ↦ rw small (ground arith)
  | inr large ↦ rw large (
      all-append_digit (decimal_from f (n / 10)) (b'0' + n % 10) (all_digits_from f (n / 10))
        (ground arith))
]

pub all-decimal : (n : ℕ) → all is_digit (decimal n) ≡ true
unfolding decimal
all-decimal n = all_digits_from (suc n) n
