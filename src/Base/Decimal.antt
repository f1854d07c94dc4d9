-- ===== src/Base/Decimal.antt =====
-- Python's `str` of a number, as code points.
use Prim.Native.Nat.{ℕ, zero, suc, ◌+◌, ◌-◌, ◌*◌, ◌/◌, ◌%◌, ◌<◌, ◌≤◌}
use mathlib.Core.Path.{◌≡◌, sym, ap, ◌∙◌}
use mathlib.Core.List.{List, [], ◌∷◌}
use mathlib.Core.Logic.{inl, inr}
use native.Mathlib.Omega.{arith}
use mama_gift.Base.Lists.{All}
use mama_gift.Base.Tests.{ltb, if◌then◌else◌, Bool-cases}

decimal_from : ℕ → ℕ → List ℕ → List ℕ
decimal_from zero n acc = acc
decimal_from (suc fuel) n acc =
    let rest = decimal_from fuel (n / 10) ((48 + n % 10) ∷ acc) in
    if ltb n 10 then (48 + n) ∷ acc else rest

-- The fuel is above the number, so it does not run out: `value-decimal`.
unfoldable pub decimal : ℕ → List ℕ
unfolding decimal_from
decimal n = decimal_from (suc n) n []

pub value : ℕ → List ℕ → ℕ
value acc [] = acc
value acc (d ∷ ds) = value (acc * 10 + (d - 48)) ds

value-decimal_from :
    (fuel n : ℕ) (acc : List ℕ) → n < fuel → value 0 (decimal_from fuel n acc) ≡ value n acc
unfolding decimal_from value
value-decimal_from zero n acc h = absurd (omega arith)
value-decimal_from (suc fuel) n acc h = elim (Bool-cases (ltb n 10)) [
  | inl small ↦ rw small (ap (λ k. value k acc) (omega arith))
  | inr big ↦ rw big (
      value-decimal_from fuel (n / 10) ((48 + n % 10) ∷ acc) (ground arith)
      ∙ ap (λ k. value k acc) (omega arith))
]

pub value-decimal : (n : ℕ) → value 0 (decimal n) ≡ n
unfolding decimal value
value-decimal n = value-decimal_from (suc n) n [] (omega arith)

-- Two numbers with the same digits are equal.
pub decimal-injective : (m n : ℕ) → decimal m ≡ decimal n → m ≡ n
decimal-injective m n h = sym (value-decimal m) ∙ ap (value 0) h ∙ value-decimal n

-- The code points of the digits from 0 to 9.
abbrev pub AreDigits : List ℕ → Type 0
AreDigits ds = All (λ d. (48 ≤ d) × (d < 58)) ds

decimal_from-AreDigits :
    (fuel n : ℕ) (acc : List ℕ) → AreDigits acc → AreDigits (decimal_from fuel n acc)
unfolding decimal_from
decimal_from-AreDigits zero n acc a = a
decimal_from-AreDigits (suc fuel) n acc a = elim (Bool-cases (ltb n 10)) [
  | inl small ↦ rw small (ground arith, a)
  | inr big ↦ rw big (decimal_from-AreDigits fuel (n / 10) ((48 + n % 10) ∷ acc) (omega arith, a))
]

pub decimal-AreDigits : (n : ℕ) → AreDigits (decimal n)
unfolding decimal
decimal-AreDigits n = decimal_from-AreDigits (suc n) n [] tt
