-- ===== src/Base/Bits.antt =====
-- `&`, `|` and `^` of C on unsigned words, as arithmetic.
mod Digits
use Prim.Native.Nat.{ℕ, zero, suc, ◌+◌, ◌-◌, ◌*◌, ◌/◌, ◌%◌, ◌^◌, ◌<◌, bit_and, bit_or, bit_xor}
use mathlib.Core.Path.{◌≡◌, refl, ap}
use native.Mathlib.Nat.{pow-suc, one-le-pow, mul_comm, div-add-mod', div-div-eq-div-mul}
use native.Mathlib.Omega.{arith}
pub use Digits.{bit_xor-zero}
use Digits.{
  bit_and-low_digit, bit_or-low_digit, bit_xor-low_digit, bit_and-zero, bit_or_zero, bit_or-zero,
  bit_xor_zero,
}

-- The shifted word one digit further.
shift_digit : (q k : ℕ) → q * 2 ^ suc k ≡ 2 * (q * 2 ^ k)
shift_digit q k = omega (arith, ap (λ (t : ℕ). q * t) (pow-suc 2 k))

mod_low_digit : (a p : ℕ) → a % (p * 2) ≡ a / 2 % p * 2 + a % 2
mod_low_digit a p = rw (mul_comm p 2) (
    omega (
      arith,
      div-add-mod' a (2 * p),
      div-add-mod' (a / 2) p,
      ap (λ (t : ℕ). t * p) (div-div-eq-div-mul a 2 p),
    ))

-- A mask of `k` ones takes the remainder.
pub bit_and_mask : (k a : ℕ) → bit_and a (2 ^ k - 1) ≡ a % 2 ^ k
bit_and_mask zero a = omega (arith, bit_and-zero a)
bit_and_mask (suc k) a =
    let half_mask : (2 ^ suc k - 1) / 2 ≡ 2 ^ k - 1 = omega (arith, pow-suc 2 k, one-le-pow k 2) in
    rw (bit_and-low_digit, half_mask, bit_and_mask k (a / 2), pow-suc 2 k)
      (omega (arith, mod_low_digit a (2 ^ k), one-le-pow k 2 (omega arith)))

-- A mask of one digit.
pub bit_and_power : (k a : ℕ) → bit_and a (2 ^ k) ≡ a / 2 ^ k % 2 * 2 ^ k
bit_and_power zero a = rw (bit_and_mask 1 a) (omega arith)
bit_and_power (suc k) a =
    let half_power : 2 ^ suc k / 2 ≡ 2 ^ k = omega (arith, pow-suc 2 k) in
    let quotient : a / 2 / 2 ^ k ≡ a / 2 ^ suc k =
      rw (pow-suc 2 k, mul_comm (2 ^ k) 2) (div-div-eq-div-mul a 2 (2 ^ k)) in
    rw (bit_and-low_digit, half_power, bit_and_power k (a / 2), quotient)
      (omega (arith, pow-suc 2 k, ap (λ (t : ℕ). a / 2 ^ suc k % 2 * t) (pow-suc 2 k)))

-- A word below `2 ^ k` and one shifted to the left by `k` share no digit: `|` adds them.
pub bit_or_disjoint : (k r q : ℕ) → r < 2 ^ k → bit_or r (q * 2 ^ k) ≡ r + q * 2 ^ k
bit_or_disjoint zero zero q h = omega (arith, bit_or_zero (q * 2 ^ 0))
bit_or_disjoint zero (suc r) q h = absurd (omega arith)
bit_or_disjoint (suc k) r q h = omega (
  arith,
  bit_or-low_digit r (q * 2 ^ suc k),
  shift_digit q k,
  pow-suc 2 k,
  ap (bit_or (r / 2)) (halved q k),
  bit_or_disjoint k (r / 2) q (omega (arith, pow-suc 2 k)),
)
  where
    halved : (q k : ℕ) → q * 2 ^ suc k / 2 ≡ q * 2 ^ k
    halved q k = omega (arith, shift_digit q k)

pub bit_or_disjoint_right : (k q r : ℕ) → r < 2 ^ k → bit_or (q * 2 ^ k) r ≡ q * 2 ^ k + r
bit_or_disjoint_right zero q zero h = omega (arith, bit_or-zero (q * 2 ^ 0))
bit_or_disjoint_right zero q (suc r) h = absurd (omega arith)
bit_or_disjoint_right (suc k) q r h =
    let halved : q * 2 ^ suc k / 2 ≡ q * 2 ^ k = omega (arith, shift_digit q k) in
    rw (bit_or-low_digit, halved, bit_or_disjoint_right k q (r / 2) (omega (arith, pow-suc 2 k)))
      (omega (arith, shift_digit q k))

pub bit_or-lt : (k a b : ℕ) → a < 2 ^ k → b < 2 ^ k → bit_or a b < 2 ^ k
bit_or-lt zero zero b ha hb = omega (arith, bit_or_zero b)
bit_or-lt zero (suc a) b ha hb = absurd (omega arith)
bit_or-lt (suc k) a b ha hb = omega (
  arith,
  bit_or-low_digit a b,
  pow-suc 2 k,
  bit_or-lt k (a / 2) (b / 2) (omega (arith, pow-suc 2 k)) (omega (arith, pow-suc 2 k)),
)

-- Against `k` ones `^` is the complement.
pub bit_xor_mask : (k a : ℕ) → a < 2 ^ k → bit_xor a (2 ^ k - 1) ≡ 2 ^ k - 1 - a
bit_xor_mask zero zero h = bit_xor_zero 0
bit_xor_mask zero (suc a) h = absurd (omega arith)
bit_xor_mask (suc k) a h =
    let half_mask : (2 ^ suc k - 1) / 2 ≡ 2 ^ k - 1 = omega (arith, pow-suc 2 k, one-le-pow k 2) in
    rw (bit_xor-low_digit, half_mask, bit_xor_mask k (a / 2) (omega (arith, pow-suc 2 k)))
      (omega (arith, pow-suc 2 k, one-le-pow k 2))
