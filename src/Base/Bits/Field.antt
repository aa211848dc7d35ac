-- ===== src/Base/Bits/Field.antt =====
-- A field of `m` bits at place `s` of a dword: what masking and shifting read from it and write
-- into it.
use emylathor.Base.Tests.{ltb, if◌then◌else◌}
use Prim.Native.Nat.{ℕ, ◌+◌, ◌-◌, ◌*◌, ◌/◌, ◌%◌, ◌^◌, ◌≤◌, ◌<◌, bit_and, bit_or}
use mathlib.Core.Path.{◌≡◌}
use mathlib.Core.Logic.{◌⊎◌}
use native.Mathlib.Nat.{one-le-pow}
use native.Mathlib.Omega.{arith}
use emylathor.Base.Bits.{digit, digits_ext, digit_bound, digit-bit_and, digit-bit_or}
use emylathor.Base.Bits.Shift.{
  digit-mul_two_pow, digit-div_two_pow, digit_above, digit-complement, digit-mask, bit_and-lt,
  bit_or-lt, lt_of_digits, bit_and-mask,
}

-- (x >> s) & (2^m - 1)
abbrev pub get_field : ℕ → ℕ → ℕ → ℕ
get_field m s x = bit_and (x / 2 ^ s) (2 ^ m - 1)

-- (x & ~((2^m - 1) << s)) | (v << s)
abbrev pub set_field : ℕ → ℕ → ℕ → ℕ → ℕ
set_field m s x v = bit_or (bit_and x (2 ^ 32 - 1 - (2 ^ m - 1) * 2 ^ s)) (v * 2 ^ s)

pub get_field_lem : (m s x : ℕ) → get_field m s x ≡ x / 2 ^ s % 2 ^ m
get_field_lem m s x = bit_and-mask m (x / 2 ^ s)

digit-get_field :
    (m s k x : ℕ) → digit k (get_field m s x) ≡ (if ltb k m then digit (s + k) x else 0)
digit-get_field m s k x = ground (
  arith,
  digit-bit_and k (x / 2 ^ s) (2 ^ m - 1),
  digit-mask m k,
  digit-div_two_pow s k x,
  digit_bound (s + k) x,
)

pub shifted-lt : (m s y : ℕ) → s + m ≤ 32 → y < 2 ^ m → y * 2 ^ s < 2 ^ 32
shifted-lt m s y fits h =
    lt_of_digits 32 (y * 2 ^ s)
      λ k p. ground (arith, digit-mul_two_pow s k y, digit_above m (k - s) y h)

module _ (m s x v : ℕ) (fits : s + m ≤ 32) (dword : x < 2 ^ 32) (small : v < 2 ^ m) where
  digit-set_field :
      (k : ℕ)
      → digit k (set_field m s x v)
        ≡ (if ltb k s then digit k x else if ltb k (s + m) then digit (k - s) v else digit k x)
  digit-set_field k = ground (
    arith,
    digit-bit_or k (bit_and x (2 ^ 32 - 1 - (2 ^ m - 1) * 2 ^ s)) (v * 2 ^ s),
    digit-bit_and k x (2 ^ 32 - 1 - (2 ^ m - 1) * 2 ^ s),
    digit-complement 32 k ((2 ^ m - 1) * 2 ^ s)
        (shifted-lt m s (2 ^ m - 1) fits (omega (arith, one-le-pow m 2))),
    digit-mul_two_pow s k (2 ^ m - 1),
    digit-mul_two_pow s k v,
    digit-mask m (k - s),
    digit_above m (k - s) v,
    digit_above 32 k x dword,
    digit_bound k x,
  )

  pub set_field-lt : set_field m s x v < 2 ^ 32
  set_field-lt =
      bit_or-lt 32 (bit_and x (2 ^ 32 - 1 - (2 ^ m - 1) * 2 ^ s)) (v * 2 ^ s)
        (bit_and-lt 32 x (2 ^ 32 - 1 - (2 ^ m - 1) * 2 ^ s) dword) (shifted-lt m s v fits small)

  pub get_field-set_field : get_field m s (set_field m s x v) ≡ v
  get_field-set_field = digits_ext (get_field m s (set_field m s x v)) v λ k. ground (
    arith,
    digit-get_field m s k (set_field m s x v),
    digit-set_field (s + k),
    digit_above m k v small,
  )

  pub get_field-set_field_ne :
      (t : ℕ) → (t + m ≤ s) ⊎ (s + m ≤ t) → get_field m t (set_field m s x v) ≡ get_field m t x
  get_field-set_field_ne t apart =
      digits_ext (get_field m t (set_field m s x v)) (get_field m t x) λ k. ground (
        arith,
        digit-get_field m t k (set_field m s x v),
        digit-get_field m t k x,
        digit-set_field (t + k),
      )
