-- ===== src/Base/Word.antt =====
-- The fixed widths of `src/common/types.h` and the casts of `src/common/macros.h`: a byte, word
-- or dword is a number below 2 ^ 8, 2 ^ 16 or 2 ^ 32, and a cast is a remainder.
use Prim.Native.Nat.{ℕ, ◌-◌, ◌*◌, ◌/◌, ◌%◌, ◌^◌, ◌<◌}
use mathlib.Core.Path.{◌≡◌}
use native.Mathlib.Omega.{arith}
use emylathor.Base.Tests.{ltb, if◌then◌else◌}
use emylathor.Base.Int.{ℤ, pos, negsuc, ◌≤ℤ◌}

abbrev pub u8 : ℕ → ℕ
u8 n = n % 2 ^ 8

abbrev pub u16 : ℕ → ℕ
u16 n = n % 2 ^ 16

abbrev pub u32 : ℕ → ℕ
u32 n = n % 2 ^ 32

infixl 75 ◌<<<◌ ◌>>>◌
abbrev pub ◌<<<◌ : ℕ → ℕ → ℕ
x <<< k = x * 2 ^ k

abbrev pub ◌>>>◌ : ℕ → ℕ → ℕ
x >>> k = x / 2 ^ k

abbrev pub dword_max : ℕ
dword_max = 0xffff_ffff

-- ~x on 32 bits.
abbrev pub not32 : ℕ → ℕ
not32 x = dword_max - x

-- SIGNED32: the integer that a dword stands for.
abbrev pub signed32 : ℕ → ℤ
signed32 x = if ltb x (2 ^ 31) then pos x else negsuc (dword_max - x)

-- SIGNED16 of a word, and SIGNED8 of a byte.
abbrev pub signed16 : ℕ → ℤ
signed16 x = if ltb x (2 ^ 15) then pos x else negsuc (2 ^ 16 - 1 - x)

abbrev pub signed8 : ℕ → ℤ
signed8 x = if ltb x (2 ^ 7) then pos x else negsuc (2 ^ 8 - 1 - x)

-- UNSIGNED32, and any conversion of an integer to a dword: two's complement.
abbrev pub unsigned32 : ℤ → ℕ
unsigned32 (pos n) = u32 n
unsigned32 (negsuc n) = dword_max - u32 n

pub unsigned32-lt : (z : ℤ) → unsigned32 z < 2 ^ 32
unsigned32-lt (pos n) = omega arith
unsigned32-lt (negsuc n) = omega arith

-- A dword survives the way through the signed integers.
pub unsigned32-signed32 : (x : ℕ) → x < 2 ^ 32 → unsigned32 (signed32 x) ≡ x
unsigned32-signed32 x h = ground arith

-- Where an integer fits 32 bits, its bit pattern stands for it.
pub signed32-unsigned32 :
    (z : ℤ) → negsuc (2 ^ 31 - 1) ≤ℤ z → z ≤ℤ pos (2 ^ 31 - 1) → signed32 (unsigned32 z) ≡ z
signed32-unsigned32 (pos n) lo hi = ground arith
signed32-unsigned32 (negsuc n) lo hi = ground arith
