-- ===== src/Cpu/Logic/Laws.antt =====
-- The bitwise instructions digit by digit, the shifts as products and quotients, and the sign
-- extension as the same signed number in more bits.
use emylathor.Base.{
  ℕ, ◌-◌, ◌*◌, ◌/◌, ◌%◌, ◌^◌, ◌≤◌, ◌<◌, ◌≡◌, ◌≢◌, refl, ◌==◌, leb, not, if◌then◌else◌, arith,
  signed32, unsigned32, unsigned32-lt, bit_and,
}
use Prim.Native.Nat.{min, max}
use native.Mathlib.Nat.{div-add-mod', one-le-pow}
use emylathor.Base.Int.{shr_ℤ}
use emylathor.Base.Bits.{digit, digit-bit_and, digit-bit_or, digit-bit_xor}
use emylathor.Base.Bits.Shift.{digit-complement}
use emylathor.Base.Bits.Flag.{bit_and-two_pow_ne, digit_lem}
use emylathor.Machine.{AreDwords, EmulatorContext, Instruction}
use emylathor.Cpu.Flags.{cpu_reg_flgs}
use emylathor.Cpu.Flags.Laws.{flag}
use emylathor.Cpu.Effect.{AluEffect, AluEffect-congr, carry_first-AluEffect}
use emylathor.Cpu.Operand.{operand_b}
use emylathor.Cpu.Logic.{ins_and, ins_or, ins_xor, ins_not, ins_shl, ins_shr, ins_sar}

-- AND, OR and XOR combine their operands digit by digit, and NOT inverts each of the 32 digits of
-- its second operand into its first.
pub bitwise_lem :
    (ins : Instruction) (e : EmulatorContext) (k : ℕ)
    → AreDwords e.regs
    → k < 32
    → let x = digit k (e.regs ins.opa) in
      let y = digit k (operand_b ins e) in
      (digit k ((ins_and ins e).regs ins.dst) ≡ min x y)
      × (digit k ((ins_or ins e).regs ins.dst) ≡ max x y)
      × (digit k ((ins_xor ins e).regs ins.dst) ≡ (if x == y then 0 else 1))
      × (digit k ((ins_not ins e).regs ins.opa) ≡ 1 - digit k (e.regs ins.opb))
unfolding ins_and ins_or ins_xor ins_not
bitwise_lem ins e k he hk =
    let a = e.regs ins.opa in
    let b = operand_b ins e in
    (
      ground (arith, digit-bit_and k a b),
      ground (arith, digit-bit_or k a b),
      ground (arith, digit-bit_xor k a b),
      ground (arith, digit-complement 32 k (e.regs ins.opb) (he ins.opb)),
    )

quotient-le : (m n : ℕ) → m / n ≤ m
quotient-le m n = grind (arith, div-add-mod' m n)

shr_ℤ_exact :
    (a b : ℕ) → a < 2 ^ 32 → signed32 (unsigned32 (shr_ℤ (signed32 a) b)) ≡ shr_ℤ (signed32 a) b
unfolding shr_ℤ
shr_ℤ_exact a b h =
    ground (arith, one-le-pow b 2, quotient-le a (2 ^ b), quotient-le (0xffff_ffff - a) (2 ^ b))

-- With the shift count taken modulo 32, SHL leaves the product by that power of two modulo 2^32 and
-- the old top digit in C; SHR leaves the quotient, and SAR the signed quotient rounded down, both
-- with the old lowest digit in C. Nothing else changes in the registers and flags. (The
-- destination is not the flags register.)
pub shifts_lem :
    (ins : Instruction) (e : EmulatorContext)
    → AreDwords e.regs
    → ins.dst ≢ cpu_reg_flgs
    → let a = e.regs ins.opa in
      let s = operand_b ins e % 32 in
      AluEffect ins.dst (a * 2 ^ s % 2 ^ 32) (flag 2 e) (leb (2 ^ 31) a) e (ins_shl ins e)
      × AluEffect ins.dst (a / 2 ^ s) (flag 2 e) (a % 2 == 1) e (ins_shr ins e)
      × AluEffect ins.dst
          (unsigned32 (shr_ℤ (signed32 a) s))
          (flag 2 e)
          (a % 2 == 1)
          e
          (ins_sar ins e)
      × (signed32 ((ins_sar ins e).regs ins.dst) ≡ shr_ℤ (signed32 a) s)
unfolding ins_shl ins_shr ins_sar
shifts_lem ins e he ne =
    let a = e.regs ins.opa in
    let s = operand_b ins e % 32 in
    let top : not (bit_and a 0x8000_0000 == 0) ≡ leb (2 ^ 31) a =
      ground (arith, bit_and-two_pow_ne 31 a, digit_lem 31 a, he ins.opa) in
    let low : not (bit_and a 1 == 0) ≡ (a % 2 == 1) =
      ground (arith, bit_and-two_pow_ne 0 a, digit_lem 0 a) in
    let sar = unsigned32 (shr_ℤ (signed32 a) s) in
    (
      AluEffect-congr refl refl top (
          carry_first-AluEffect ins.dst (a * 2 ^ s % 2 ^ 32) e ne he (omega arith)
            (not (bit_and a 0x8000_0000 == 0))),
      AluEffect-congr refl refl low (
          carry_first-AluEffect ins.dst (a / 2 ^ s) e ne he
            (omega (arith, quotient-le a (2 ^ s), he ins.opa)) (not (bit_and a 1 == 0))),
      AluEffect-congr refl refl low (
          carry_first-AluEffect ins.dst sar e ne he (unsigned32-lt (shr_ℤ (signed32 a) s))
            (not (bit_and a 1 == 0))),
      ground (arith, shr_ℤ_exact a s (he ins.opa)),
    )
