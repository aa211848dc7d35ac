-- ===== src/Cpu/Logic.antt =====
-- The bitwise and shift instructions of `src/cpu/cpu.c`, and the sign extension.
pub mod Laws
pub mod Valid
pub mod Frame
use emylathor.Base.{
  ℕ, ◌%◌, Bool, not, ◌==◌, if◌then◌else◌, u32, not32, bit_and, bit_or, bit_xor, signed32,
  unsigned32, ◌<<<◌, ◌>>>◌,
}
use emylathor.Base.Int.{shr_ℤ}
use emylathor.Machine.{EmulatorContext, Instruction, set_reg}
use emylathor.Cpu.Flags.{assign_flag, flgs_c}
use emylathor.Cpu.Operand.{operand_b, prefix_byte, prefix_word}

pub ins_and : Instruction → EmulatorContext → EmulatorContext
ins_and ins e = set_reg e ins.dst (bit_and (e.regs ins.opa) (operand_b ins e))

pub ins_or : Instruction → EmulatorContext → EmulatorContext
ins_or ins e = set_reg e ins.dst (bit_or (e.regs ins.opa) (operand_b ins e))

pub ins_xor : Instruction → EmulatorContext → EmulatorContext
ins_xor ins e = set_reg e ins.dst (bit_xor (e.regs ins.opa) (operand_b ins e))

pub ins_not : Instruction → EmulatorContext → EmulatorContext
ins_not ins e = set_reg e ins.opa (not32 (e.regs ins.opb))

pub ins_shl : Instruction → EmulatorContext → EmulatorContext
ins_shl ins e =
    let a = e.regs ins.opa in
    let b = operand_b ins e % 32 in
    set_reg (assign_flag flgs_c (not (bit_and a 0x8000_0000 == 0)) e) ins.dst (u32 (a <<< b))

pub ins_shr : Instruction → EmulatorContext → EmulatorContext
ins_shr ins e =
    let a = e.regs ins.opa in
    let b = operand_b ins e % 32 in
    set_reg (assign_flag flgs_c (not (bit_and a 1 == 0)) e) ins.dst (a >>> b)

-- `>>` on a negative `sdword` shifts in the sign, as gcc does.
pub ins_sar : Instruction → EmulatorContext → EmulatorContext
ins_sar ins e =
    let a = e.regs ins.opa in
    let b = operand_b ins e % 32 in
    set_reg (assign_flag flgs_c (not (bit_and a 1 == 0)) e) ins.dst
      (unsigned32 (shr_ℤ (signed32 a) b))

pub ins_sex : Instruction → EmulatorContext → EmulatorContext
ins_sex ins e =
    let unmasked = e.regs ins.opb in
    let low8 = bit_and unmasked 0x0000_00ff in
    let low16 = bit_and unmasked 0x0000_ffff in
    let value =
      if ins.prefix == prefix_byte
      then (if bit_and low8 0x80 == 0 then low8 else bit_or 0xffff_ff00 low8)
      else if ins.prefix == prefix_word
      then (if bit_and low16 0x8000 == 0 then low16 else bit_or 0xffff_0000 low16)
      else e.regs ins.opa in
    set_reg e ins.opa value
