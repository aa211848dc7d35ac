-- ===== src/Assembler/Numbers.antt =====
-- The numbers that `src/assembler/vasm.l` hands to the parser.
use Prim.Native.String.{String}
use emylathor.Base.{
  ℕ, ℤ, pos, negsuc, ◌+◌, ◌-◌, ◌*◌, ◌^◌, ◌<◌, ◌≤◌, ◌≡◌, ◌⊎◌, arith, signed16, signed32,
}
use emylathor.Base.Int.{◌≤ℤ◌}
use emylathor.Base.Bits.Shift.{bit_or-add}
use emylathor.Lookup.{get_reg_for_name}
use emylathor.Emit.{Emitted, emitted, exited}
use emylathor.Assembler.Tokens.{
  hex_to_dec, hex_to_dec32, to16_bit_int, to32_bit_int, reg_range_to16bit_int,
}
use emylathor.Assembler.Names.{get_reg_for_name-lt}

-- The number that a call gives is in range and stands for a value.
abbrev pub Gives : ℕ → (ℕ → Type 0) → Emitted ℕ → Type 0
Gives w StandsFor r = (m : ℕ) × (r ≡ emitted m) × (m < 2 ^ w) × StandsFor m

to16_lem :
    (z : ℤ)
    → (negsuc (2 ^ 15 - 1) ≤ℤ z
        → z ≤ℤ pos (2 ^ 15 - 1)
        → Gives 16 (λ m. signed16 m ≡ z) (to16_bit_int z))
      × ((z ≤ℤ negsuc (2 ^ 15)) ⊎ (pos (2 ^ 15) ≤ℤ z) → to16_bit_int z ≡ exited 1)
unfolding to16_bit_int
to16_lem (pos n) = (λ lo hi. (n, ground arith, omega arith, ground arith), λ h. ground arith)
to16_lem (negsuc n) =
    (λ lo hi. (2 ^ 16 - 1 - n, ground arith, omega arith, ground arith), λ h. ground arith)

to32_lem :
    (z : ℤ)
    → (negsuc (2 ^ 31 - 1) ≤ℤ z
        → z ≤ℤ pos (2 ^ 31 - 1)
        → Gives 32 (λ m. signed32 m ≡ z) (to32_bit_int z))
      × ((z ≤ℤ negsuc (2 ^ 31)) ⊎ (pos (2 ^ 31) ≤ℤ z) → to32_bit_int z ≡ exited 1)
unfolding to32_bit_int
to32_lem (pos n) = (λ lo hi. (n, ground arith, omega arith, ground arith), λ h. ground arith)
to32_lem (negsuc n) =
    (λ lo hi. (2 ^ 32 - 1 - n, ground arith, omega arith, ground arith), λ h. ground arith)

-- A decimal number of INT or INT32 becomes the pattern of 16 or 32 bits that stands for it as a signed
-- number; a number that has none ends the assembler with the status 1.
pub decimal_numbers :
    (z : ℤ)
    → (negsuc (2 ^ 15 - 1) ≤ℤ z
        → z ≤ℤ pos (2 ^ 15 - 1)
        → Gives 16 (λ m. signed16 m ≡ z) (to16_bit_int z))
      × ((z ≤ℤ negsuc (2 ^ 15)) ⊎ (pos (2 ^ 15) ≤ℤ z) → to16_bit_int z ≡ exited 1)
      × (negsuc (2 ^ 31 - 1) ≤ℤ z
          → z ≤ℤ pos (2 ^ 31 - 1)
          → Gives 32 (λ m. signed32 m ≡ z) (to32_bit_int z))
      × ((z ≤ℤ negsuc (2 ^ 31)) ⊎ (pos (2 ^ 31) ≤ℤ z) → to32_bit_int z ≡ exited 1)
decimal_numbers z = ((to16_lem z).0, (to16_lem z).1, (to32_lem z).0, (to32_lem z).1)

-- A hexadecimal number of INT or INT32 is given as it is if it has 16 or 32 bits, and otherwise ends the
-- assembler with the status 1; a range of registers is a byte with the two numbers in its halves.
pub hexadecimal_numbers :
    (n : ℕ) (first last : String)
    → (n < 2 ^ 16 → hex_to_dec n ≡ emitted n)
      × (2 ^ 16 ≤ n → hex_to_dec n ≡ exited 1)
      × (n < 2 ^ 32 → hex_to_dec32 n ≡ emitted n)
      × (2 ^ 32 ≤ n → hex_to_dec32 n ≡ exited 1)
      × (reg_range_to16bit_int first last ≡ get_reg_for_name first * 16 + get_reg_for_name last)
      × (reg_range_to16bit_int first last < 2 ^ 8)
unfolding hex_to_dec hex_to_dec32 reg_range_to16bit_int
hexadecimal_numbers n first last =
    let h = get_reg_for_name-lt first in
    let k = get_reg_for_name-lt last in
    let joined = bit_or-add 4 (get_reg_for_name first) (get_reg_for_name last) k in
    let zero_or = bit_or-add 4 0 (get_reg_for_name first) h in
    let same : reg_range_to16bit_int first last
        ≡ get_reg_for_name first * 16 + get_reg_for_name last =
      ground (arith, zero_or, joined) in
    (
      λ l. ground arith,
      λ l. ground arith,
      λ l. ground arith,
      λ l. ground arith,
      same,
      omega (arith, same),
    )
