-- ===== src/Base/Bits/Shift.antt =====
-- The digits of shifted, masked and complemented numbers.
use Prim.Native.Nat.add
use Prim.Native.Nat.{ℕ, zero, suc, ◌+◌, ◌-◌, ◌*◌, ◌/◌, ◌%◌, ◌^◌, ◌≤◌, ◌<◌, bit_and, bit_or, bit_xor}
use mathlib.Core.Path.{◌≡◌, ap, ◌∙◌}
use native.Mathlib.Nat.{
  two-pow-succ, one-le-pow, div-div-eq-div-mul, pow-succ', div-add-mod', mod-lt,
}
use native.Mathlib.Omega.{arith}
use emylathor.Base.Tests.{ltb, if◌then◌else◌}
use emylathor.Base.Bits.{
  digit, digit-zero, digit_bound, digits_ext, digit-bit_and, digit-bit_or, digit-bit_xor,
}

-- One more place of a power of two, in products, quotients and remainders.
mul-two_pow_suc : (x s : ℕ) → x * 2 ^ suc s ≡ 2 * (x * 2 ^ s)
mul-two_pow_suc x s = omega (arith, ap (λ (t : ℕ). x * t) (two-pow-succ s))

pub div-two_pow_suc : (x s : ℕ) → x / 2 ^ suc s ≡ x / 2 / 2 ^ s
div-two_pow_suc x s = rw (div-div-eq-div-mul, ← pow-succ')

mod-two_pow_suc : (x s : ℕ) → x % 2 ^ suc s ≡ 2 * (x / 2 % 2 ^ s) + x % 2
mod-two_pow_suc x s = omega (
  arith,
  div-add-mod' x (2 ^ suc s),
  div-add-mod' (x / 2) (2 ^ s),
  ap (λ (t : ℕ). t * 2 ^ suc s) (div-two_pow_suc x s),
  mul-two_pow_suc (x / 2 / 2 ^ s) s,
)

-- x << s
pub digit-mul_two_pow : (s k x : ℕ) → digit k (x * 2 ^ s) ≡ (if ltb k s then 0 else digit (k - s) x)
unfolding digit
digit-mul_two_pow zero k x = ground arith
digit-mul_two_pow (suc s) zero x = ground (arith, mul-two_pow_suc x s)
digit-mul_two_pow (suc s) (suc k) x =
    let half : x * 2 ^ suc s / 2 ≡ x * 2 ^ s = omega (arith, mul-two_pow_suc x s) in
    rw half (digit-mul_two_pow s k x ∙ ground arith)

-- x >> s
pub digit-div_two_pow : (s k x : ℕ) → digit k (x / 2 ^ s) ≡ digit (s + k) x
unfolding digit
digit-div_two_pow zero k x = ground arith
digit-div_two_pow (suc s) k x = rw (div-two_pow_suc, add.suc) (digit-div_two_pow s k (x / 2))

-- Above the width all digits are 0.
pub digit_above : (w k x : ℕ) → x < 2 ^ w → w ≤ k → digit k x ≡ 0
unfolding digit
digit_above zero k x h p = let e : x ≡ 0 = omega arith in rw (e, digit-zero)
digit_above (suc w) zero x h p = absurd (omega arith)
digit_above (suc w) (suc k) x h p =
    digit_above w k (x / 2) (omega (arith, two-pow-succ w)) (omega arith)

-- The remainder by `2 ^ w`.
pub digit-mod_two_pow : (w k x : ℕ) → digit k (x % 2 ^ w) ≡ (if ltb k w then digit k x else 0)
unfolding digit
digit-mod_two_pow zero k x = ground (arith, digit-zero k)
digit-mod_two_pow (suc w) zero x = ground (arith, mod-two_pow_suc x w)
digit-mod_two_pow (suc w) (suc k) x =
    let half : x % 2 ^ suc w / 2 ≡ x / 2 % 2 ^ w = omega (arith, mod-two_pow_suc x w) in
    rw half (digit-mod_two_pow w k (x / 2) ∙ ground arith)

-- ~x on `w` bits.
pub digit-complement :
    (w k x : ℕ) → x < 2 ^ w → digit k (2 ^ w - 1 - x) ≡ (if ltb k w then 1 - digit k x else 0)
unfolding digit
digit-complement zero k x h = ground (arith, digit-zero k)
digit-complement (suc w) zero x h = ground (arith, two-pow-succ w)
digit-complement (suc w) (suc k) x h =
    let half : (2 ^ suc w - 1 - x) / 2 ≡ 2 ^ w - 1 - x / 2 = omega (arith, two-pow-succ w) in
    rw half (digit-complement w k (x / 2) (omega (arith, two-pow-succ w)) ∙ ground arith)

-- The digits of a mask of `w` ones.
pub digit-mask : (w k : ℕ) → digit k (2 ^ w - 1) ≡ (if ltb k w then 1 else 0)
digit-mask w k = ground (arith, digit-complement w k 0 (one-le-pow w 2 (omega arith)), digit-zero k)

-- The native operations stay below a power of two.
pub lt_of_digits : (w x : ℕ) → ((k : ℕ) → w ≤ k → digit k x ≡ 0) → x < 2 ^ w
lt_of_digits w x h = rw same (mod-lt x (one-le-pow w 2 (omega arith)))
  where
    same : x ≡ x % 2 ^ w
    same = digits_ext x (x % 2 ^ w) (λ k. ground (arith, h k, digit-mod_two_pow w k x))

pub bit_or-lt : (w a b : ℕ) → a < 2 ^ w → b < 2 ^ w → bit_or a b < 2 ^ w
bit_or-lt w a b p q =
    lt_of_digits w (bit_or a b)
      λ k h. omega (arith, digit-bit_or k a b, digit_above w k a p h, digit_above w k b q h)

pub bit_and-lt : (w a b : ℕ) → a < 2 ^ w → bit_and a b < 2 ^ w
bit_and-lt w a b p =
    lt_of_digits w (bit_and a b) λ k h. omega (arith, digit-bit_and k a b, digit_above w k a p h)

pub bit_xor-lt : (w a b : ℕ) → a < 2 ^ w → b < 2 ^ w → bit_xor a b < 2 ^ w
bit_xor-lt w a b p q =
    lt_of_digits w (bit_xor a b)
      λ k h. ground (arith, digit-bit_xor k a b, digit_above w k a p h, digit_above w k b q h)

-- A mask of `w` ones takes the remainder, and `|` of fields that do not meet is a sum.
pub bit_and-mask : (w x : ℕ) → bit_and x (2 ^ w - 1) ≡ x % 2 ^ w
bit_and-mask w x = digits_ext (bit_and x (2 ^ w - 1)) (x % 2 ^ w) λ k.
    ground (
      arith,
      digit-bit_and k x (2 ^ w - 1),
      digit-mask w k,
      digit-mod_two_pow w k x,
      digit_bound k x,
    )

split_at :
    (s k q r : ℕ)
    → r < 2 ^ s
    → digit k (q * 2 ^ s + r) ≡ (if ltb k s then digit k r else digit (k - s) q)
unfolding digit
split_at zero k q r h = ground arith
split_at (suc s) zero q r h = ground (arith, mul-two_pow_suc q s)
split_at (suc s) (suc k) q r h =
    let half : (q * 2 ^ suc s + r) / 2 ≡ q * 2 ^ s + r / 2 = omega (arith, mul-two_pow_suc q s) in
    rw half (split_at s k q (r / 2) (omega (arith, two-pow-succ s)) ∙ ground arith)

pub bit_or-add : (s q r : ℕ) → r < 2 ^ s → bit_or (q * 2 ^ s) r ≡ q * 2 ^ s + r
bit_or-add s q r h = digits_ext (bit_or (q * 2 ^ s) r) (q * 2 ^ s + r) λ k. ground (
  arith,
  digit-bit_or k (q * 2 ^ s) r,
  digit-mul_two_pow s k q,
  split_at s k q r h,
  digit_above s k r h,
)
