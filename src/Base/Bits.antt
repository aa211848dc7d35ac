-- ===== src/Base/Bits.antt =====
-- Binary digits: the native bit operations act digit by digit, and a number is determined by
-- its digits.
pub mod Shift
pub mod Field
pub mod Flag
use Prim.Native.Nat.{min, max, digits, differ}
use Prim.Native.Nat.{bit_and-bitwise, bit_or-bitwise, bit_xor-bitwise}
use Prim.Native.Nat.{ℕ, zero, suc, ◌+◌, ◌-◌, ◌*◌, ◌/◌, ◌%◌, ◌^◌, ◌≤◌, ◌<◌, bit_and, bit_or, bit_xor}
use mathlib.Core.Path.{◌≡◌, refl}
use native.Mathlib.Nat.{two-pow-succ}
use native.Mathlib.Omega.{arith}
use emylathor.Base.Tests.{◌==◌, if◌then◌else◌}

-- The `k`-th binary digit.
pub digit : ℕ → ℕ → ℕ
digit zero x = x % 2
digit (suc k) x = digit k (x / 2)

pub digit_bound : (k x : ℕ) → digit k x ≤ 1
unfolding digit
digit_bound zero x = omega arith
digit_bound (suc k) x = digit_bound k (x / 2)

pub digit-zero : (k : ℕ) → digit k 0 ≡ 0
unfolding digit
digit-zero zero = refl
digit-zero (suc k) = digit-zero k

-- The recursion behind the native operations: digit by digit it is the operation `f`, where `z`
-- is what is left once the first number has run out.
module _ (z : ℕ → ℕ) (f : ℕ → ℕ → ℕ) (rest : (k b : ℕ) → digit k (z b) ≡ f 0 (digit k b))
    (bit : (x y : ℕ) → x ≤ 1 → y ≤ 1 → f x y ≤ 1) where
  digit-digits : (n k a b : ℕ) → a ≤ n → digit k (digits z f n a b) ≡ f (digit k a) (digit k b)
  unfolding digit
  digit-digits zero k zero b h = rw digit-zero (rest k b)
  digit-digits zero k (suc a) b h = absurd (omega arith)
  digit-digits (suc n) k zero b h = rw digit-zero (rest k b)
  digit-digits (suc n) zero (suc a) b h =
      omega (arith, bit (suc a % 2) (b % 2) (omega arith) (omega arith))
  digit-digits (suc n) (suc k) (suc a) b h =
      let low = bit (suc a % 2) (b % 2) (omega arith) (omega arith) in
      let half : (digits z f n (suc a / 2) (b / 2) * 2 + f (suc a % 2) (b % 2)) / 2
          ≡ digits z f n (suc a / 2) (b / 2) =
        omega arith in
      rw half (digit-digits n k (suc a / 2) (b / 2) (omega arith))

pub digit-bit_and : (k a b : ℕ) → digit k (bit_and a b) ≡ min (digit k a) (digit k b)
digit-bit_and k a b = rw bit_and-bitwise (
    digit-digits (λ _. 0) min (λ k b. rw digit-zero (omega arith)) (λ x y p q. omega arith) a k a b
      (omega arith))

pub digit-bit_or : (k a b : ℕ) → digit k (bit_or a b) ≡ max (digit k a) (digit k b)
digit-bit_or k a b =
    rw bit_or-bitwise (
      digit-digits (λ c. c) max (λ k b. omega arith) (λ x y p q. omega arith) a k a b (omega arith))

differ_bit : (x y : ℕ) → x ≤ 1 → y ≤ 1 → differ x y ≤ 1
differ_bit zero y p q = q
differ_bit (suc x) zero p q = p
differ_bit (suc x) (suc y) p q = differ_bit x y (omega arith) (omega arith)

differ_bits : (x y : ℕ) → x ≤ 1 → y ≤ 1 → differ x y ≡ (if x == y then 0 else 1)
differ_bits zero zero p q = refl
differ_bits zero (suc y) p q = ground arith
differ_bits (suc x) zero p q = ground arith
differ_bits (suc x) (suc y) p q = rw (differ_bits x y (omega arith) (omega arith)) (ground arith)

pub digit-bit_xor : (k a b : ℕ) → digit k (bit_xor a b) ≡ (if digit k a == digit k b then 0 else 1)
digit-bit_xor k a b =
    rw (bit_xor-bitwise, ← differ_bits _ _ (digit_bound k a) (digit_bound k b))
      (digit-digits (λ c. c) differ (λ k b. refl) differ_bit a k a b (omega arith))

-- Two numbers with the same digits are equal.
digits_ext_below : (w x y : ℕ) → x < 2 ^ w → y < 2 ^ w → ((k : ℕ) → digit k x ≡ digit k y) → x ≡ y
unfolding digit
digits_ext_below zero x y hx hy e = omega arith
digits_ext_below (suc w) x y hx hy e =
    let halves =
      digits_ext_below w (x / 2) (y / 2) (omega (arith, two-pow-succ w))
        (omega (arith, two-pow-succ w)) (λ k. e (suc k)) in
    omega (arith, e 0)

pub lt-two-pow : (n : ℕ) → n < 2 ^ n
lt-two-pow zero = omega arith
lt-two-pow (suc n) = omega (arith, lt-two-pow n, two-pow-succ n)

pub digits_ext : (x y : ℕ) → ((k : ℕ) → digit k x ≡ digit k y) → x ≡ y
digits_ext x y e =
    digits_ext_below (x + y) x y (omega (arith, lt-two-pow (x + y)))
      (omega (arith, lt-two-pow (x + y))) e
