-- ===== src/Base/Text.antt =====
-- Texts that the program prints: a number in decimal.
use Prim.Native.Nat.{ℕ, zero, suc, ◌/◌, ◌%◌, ◌^◌, ◌<◌}
use mathlib.Core.Path.{◌≡◌, refl}
use mathlib.Core.Logic.{inl, inr}
use native.Mathlib.Nat.{pow-succ'}
use native.Mathlib.Omega.{arith}
use Prim.Native.String.{String, ◌++◌}
use fin_amor_s_ideal_udp_fiu.Base.Tests.{ltb, lt→ltb, Bool-cases, if◌then◌else◌}

-- The digit of a number below ten.
digit : ℕ → String
digit zero = "0"
digit (suc zero) = "1"
digit (suc (suc zero)) = "2"
digit (suc (suc (suc zero))) = "3"
digit (suc (suc (suc (suc zero)))) = "4"
digit (suc (suc (suc (suc (suc zero))))) = "5"
digit (suc (suc (suc (suc (suc (suc zero)))))) = "6"
digit (suc (suc (suc (suc (suc (suc (suc zero))))))) = "7"
digit (suc (suc (suc (suc (suc (suc (suc (suc zero)))))))) = "8"
digit _ = "9"

-- The fuel bounds the number of digits.
decimal_onto : ℕ → ℕ → String → String
decimal_onto zero n rest = rest
decimal_onto (suc fuel) n rest =
    let more = decimal_onto fuel (n / 10) (digit (n % 10) ++ rest) in
    if ltb n 10 then digit n ++ rest else more

-- `{}` at an unsigned number of at most 20 digits.
unfoldable pub decimal : ℕ → String
unfolding decimal_onto digit
decimal n = decimal_onto 20 n ""

tenth_lt : (fuel n : ℕ) → n < 10 ^ suc (suc fuel) → n / 10 < 10 ^ suc fuel
tenth_lt fuel n h = omega (arith, h, pow-succ' 10 (suc fuel))

-- More fuel than there are digits changes nothing.
decimal_onto-enough :
    (fuel n : ℕ) (rest : String)
    → n < 10 ^ suc fuel
    → decimal_onto (suc (suc fuel)) n rest ≡ decimal_onto (suc fuel) n rest
unfolding decimal_onto
decimal_onto-enough zero n rest h =
    let one_digit = lt→ltb n 10 (omega (arith, h)) in rw one_digit refl
decimal_onto-enough (suc fuel) n rest h = elim (Bool-cases (ltb n 10)) [
  | inl one_digit ↦ rw one_digit refl
  | inr more_digits ↦
      rw more_digits
        (decimal_onto-enough fuel (n / 10) (digit (n % 10) ++ rest) (tenth_lt fuel n h))
]
