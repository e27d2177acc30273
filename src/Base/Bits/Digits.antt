-- ===== src/Base/Bits/Digits.antt =====
-- The native bit operations recur on binary digits with fuel; here is the equation of the lowest
-- digit, with no fuel.
use Prim.Native.Nat.{ℕ, zero, suc, ◌+◌, ◌-◌, ◌*◌, ◌/◌, ◌%◌, ◌≤◌, min, max, bit_and, bit_or, bit_xor}
use Prim.Native.Nat.{digits, bitwise, differ, bit_and-bitwise, bit_or-bitwise, bit_xor-bitwise}
use mathlib.Core.Path.{◌≡◌, refl}
use native.Mathlib.Nat.{le_refl}
use native.Mathlib.Omega.{arith}

module _ (at_end : ℕ → ℕ) (on_digits : ℕ → ℕ → ℕ) where
  abbrev go : ℕ → ℕ → ℕ → ℕ
  go n a b = digits at_end on_digits n a b

  -- Fuel beyond the number itself changes nothing.
  enough_fuel : (n m a b : ℕ) → a ≤ n → a ≤ m → go n a b ≡ go m a b
  enough_fuel n m zero b p q = no_digits n m
    where
      no_digits : (n m : ℕ) → go n zero b ≡ go m zero b
      no_digits zero zero = refl
      no_digits zero (suc m) = refl
      no_digits (suc n) zero = refl
      no_digits (suc n) (suc m) = refl
  enough_fuel zero m (suc a) b p q = absurd (omega arith)
  enough_fuel (suc n) zero (suc a) b p q = absurd (omega arith)
  enough_fuel (suc n) (suc m) (suc a) b p q =
      rw (enough_fuel n m (suc a / 2) (b / 2) (omega arith) (omega arith))

  low_digit :
      (a b : ℕ)
      → bitwise at_end on_digits (suc a) b
        ≡ bitwise at_end on_digits (suc a / 2) (b / 2) * 2 + on_digits (suc a % 2) (b % 2)
  low_digit a b =
      omega (arith, enough_fuel a (suc a / 2) (suc a / 2) (b / 2) (omega arith) (le_refl _))

pub bit_or_zero : (b : ℕ) → bit_or 0 b ≡ b
bit_or_zero b = bit_or-bitwise 0 b

pub bit_xor_zero : (b : ℕ) → bit_xor 0 b ≡ b
bit_xor_zero b = bit_xor-bitwise 0 b

pub bit_and-low_digit : (a b : ℕ) → bit_and a b ≡ bit_and (a / 2) (b / 2) * 2 + min (a % 2) (b % 2)
bit_and-low_digit zero b = simp bit_and-bitwise (omega arith)
bit_and-low_digit (suc a) b = simp bit_and-bitwise (low_digit (λ y. 0) min a b)

pub bit_or-low_digit : (a b : ℕ) → bit_or a b ≡ bit_or (a / 2) (b / 2) * 2 + max (a % 2) (b % 2)
bit_or-low_digit zero b = simp bit_or-bitwise (omega arith)
bit_or-low_digit (suc a) b = simp bit_or-bitwise (low_digit (λ y. y) max a b)

differ_lem : (x y : ℕ) → differ x y ≡ (x - y) + (y - x)
differ_lem zero y = omega arith
differ_lem (suc x) zero = omega arith
differ_lem (suc x) (suc y) = omega (arith, differ_lem x y)

pub bit_xor-low_digit : (a b : ℕ) → bit_xor a b ≡ bit_xor (a / 2) (b / 2) * 2 + (a % 2 + b % 2) % 2
bit_xor-low_digit zero b = simp bit_xor-bitwise (omega arith)
bit_xor-low_digit (suc a) b =
    simp bit_xor-bitwise
      (omega (arith, low_digit (λ y. y) differ a b, differ_lem (suc a % 2) (b % 2)))

and_no_digits : (n a : ℕ) → digits (λ b. 0) min n a 0 ≡ 0
and_no_digits zero zero = refl
and_no_digits zero (suc a) = refl
and_no_digits (suc n) zero = refl
and_no_digits (suc n) (suc a) = omega (arith, and_no_digits n (suc a / 2))

pub bit_and-zero : (a : ℕ) → bit_and a 0 ≡ 0
bit_and-zero a = simp bit_and-bitwise (and_no_digits a a)

or_no_digits : (n a : ℕ) → a ≤ n → digits (λ b. b) max n a 0 ≡ a
or_no_digits zero zero h = refl
or_no_digits zero (suc a) h = absurd (omega arith)
or_no_digits (suc n) zero h = refl
or_no_digits (suc n) (suc a) h = omega (arith, or_no_digits n (suc a / 2) (omega arith))

pub bit_or-zero : (a : ℕ) → bit_or a 0 ≡ a
bit_or-zero a = simp bit_or-bitwise (or_no_digits a a (le_refl a))

xor_no_digits : (n a : ℕ) → a ≤ n → digits (λ b. b) differ n a 0 ≡ a
xor_no_digits zero zero h = refl
xor_no_digits zero (suc a) h = absurd (omega arith)
xor_no_digits (suc n) zero h = refl
xor_no_digits (suc n) (suc a) h =
    omega (arith, xor_no_digits n (suc a / 2) (omega arith), differ_lem (suc a % 2) 0)

pub bit_xor-zero : (a : ℕ) → bit_xor a 0 ≡ a
bit_xor-zero a = simp bit_xor-bitwise (xor_no_digits a a (le_refl a))
