-- ===== src/Registers.antt =====
-- The byte and word registers of `src/cpu/cpu.c`: each dword register R0-R3 is four byte registers,
-- and each of R0-R7 is two word registers. A shift of an `int` into its sign bit is taken to keep
-- the bit pattern, as gcc does.
pub mod Laws
use emylathor.Base.{ℕ, ◌*◌, ◌/◌, ◌%◌, bit_and, bit_or, u8, u16, u32, not32, ◌<<<◌, ◌>>>◌}
use emylathor.Machine.{store}

pub cpu_get_byte_reg : ℕ → (ℕ → ℕ) → ℕ
cpu_get_byte_reg reg regs = u8 (bit_and (regs (reg / 4) >>> (reg % 4 * 8)) 0xff)

pub cpu_set_byte_reg : ℕ → ℕ → (ℕ → ℕ) → ℕ → ℕ
cpu_set_byte_reg reg val regs =
    let s = reg % 4 * 8 in
    let i = bit_and (regs (reg / 4)) (not32 (u32 (0xff <<< s))) in
    store regs (reg / 4) (bit_or i (u32 (val <<< s)))

pub cpu_get_word_reg : ℕ → (ℕ → ℕ) → ℕ
cpu_get_word_reg reg regs = u16 (bit_and (regs (reg / 2) >>> (reg % 2 * 16)) 0xffff)

pub cpu_set_word_reg : ℕ → ℕ → (ℕ → ℕ) → ℕ → ℕ
cpu_set_word_reg reg val regs =
    let s = reg % 2 * 16 in
    let i = bit_and (regs (reg / 2)) (not32 (u32 (0xffff <<< s))) in
    store regs (reg / 2) (bit_or i (u32 (val <<< s)))
