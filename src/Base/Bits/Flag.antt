-- ===== src/Base/Bits/Flag.antt =====
-- Masks of one bit.
use Prim.Native.Nat.{ℕ, zero, suc, ◌-◌, ◌*◌, ◌/◌, ◌%◌, ◌^◌, ◌<◌, bit_and, bit_or}
use mathlib.Core.Path.{◌≡◌, refl}
use native.Mathlib.Nat.{one-le-pow}
use native.Mathlib.Omega.{arith}
use emylathor.Base.Tests.{◌==◌, if◌then◌else◌}
use emylathor.Base.Bits.{digit, digits_ext, digit_bound, digit-zero, digit-bit_and, digit-bit_or}
use emylathor.Base.Bits.Shift.{
  digit-mul_two_pow, digit-complement, digit_above, lt_of_digits, div-two_pow_suc,
}

digit-one : (k : ℕ) → digit k 1 ≡ (if k == 0 then 1 else 0)
unfolding digit
digit-one zero = refl
digit-one (suc k) = ground (arith, digit-zero k)

pub digit-two_pow : (k j : ℕ) → digit j (2 ^ k) ≡ (if j == k then 1 else 0)
digit-two_pow k j = ground (arith, digit-mul_two_pow k j 1, digit-one (j - k))

pub digit-digit : (j k x : ℕ) → digit j (digit k x) ≡ (if j == 0 then digit k x else 0)
unfolding digit
digit-digit zero k x = ground (arith, digit_bound k x)
digit-digit (suc j) k x =
    let e : digit k x / 2 ≡ 0 = omega (arith, digit_bound k x) in
    rw e (ground (arith, digit-zero j))

two_pow-lt : (k : ℕ) → k < 32 → 2 ^ k < 2 ^ 32
two_pow-lt k h = lt_of_digits 32 (2 ^ k) λ j p. ground (arith, digit-two_pow k j)

-- Masking by one bit leaves that digit at its place.
bit_and-two_pow : (k x : ℕ) → bit_and x (2 ^ k) ≡ digit k x * 2 ^ k
bit_and-two_pow k x = digits_ext (bit_and x (2 ^ k)) (digit k x * 2 ^ k) λ j. ground (
  arith,
  digit-bit_and j x (2 ^ k),
  digit-two_pow k j,
  digit-mul_two_pow k j (digit k x),
  digit-digit (j - k) k x,
  digit_bound j x,
)

-- x & (1 << k), as a condition.
pub bit_and-two_pow_ne : (k x : ℕ) → (bit_and x (2 ^ k) == 0) ≡ (digit k x == 0)
bit_and-two_pow_ne k x = ground (arith, bit_and-two_pow k x, digit_bound k x, one-le-pow k 2)

-- x | (1 << k) and x & ~(1 << k)
pub digit-set_bit : (k j x : ℕ) → digit j (bit_or x (2 ^ k)) ≡ (if j == k then 1 else digit j x)
digit-set_bit k j x = ground (arith, digit-bit_or j x (2 ^ k), digit-two_pow k j, digit_bound j x)

pub digit-clear_bit :
    (k j x : ℕ)
    → k < 32
    → x < 2 ^ 32
    → digit j (bit_and x (2 ^ 32 - 1 - 2 ^ k)) ≡ (if j == k then 0 else digit j x)
digit-clear_bit k j x hk hx = ground (
  arith,
  digit-bit_and j x (2 ^ 32 - 1 - 2 ^ k),
  digit-complement 32 j (2 ^ k) (two_pow-lt k hk),
  digit-two_pow k j,
  digit_bound j x,
  digit_above 32 j x hx,
)

-- A digit as arithmetic.
pub digit_lem : (k x : ℕ) → digit k x ≡ x / 2 ^ k % 2
unfolding digit
digit_lem zero x = omega arith
digit_lem (suc k) x = rw (digit_lem k (x / 2), div-two_pow_suc)
