-- ===== src/Cpu/Compare.antt =====
-- `ins_cmp` and `ins_test` of `src/cpu/cpu.c`: the instructions that set flags alone.
pub mod Laws
pub mod Valid
pub mod Frame
use emylathor.Base.{
  ℕ, zero, suc, ◌+◌, ◌/◌, ◌%◌, Bool, not, ◌==◌, ltb, if◌then◌else◌, bit_and, signed32,
}
use emylathor.Base.Int.{ltb_ℤ}
use emylathor.Machine.{EmulatorContext, Instruction}
use emylathor.Cpu.Flags.{assign_flag, flgs_z, flgs_c, flgs_s, flgs_e, flgs_p}
use emylathor.Cpu.Operand.{operand_b, prefix_imm}

pub ins_cmp : Instruction → EmulatorContext → EmulatorContext
ins_cmp ins e =
    let a = e.regs ins.opa in
    let b = operand_b ins e in
    assign_flag flgs_s (ltb_ℤ (signed32 a) (signed32 b))
      (assign_flag flgs_c (ltb a b) (assign_flag flgs_z (a == b) e))

-- `for (int i = 0; i < 32; i++) { if (val & 1u) bits++; val >>= 1; }`, with `n` rounds left.
pub count_bits : ℕ → ℕ → ℕ → ℕ
count_bits zero val bits = bits
count_bits (suc n) val bits = count_bits n (val / 2) (if bit_and val 1 == 0 then bits else bits + 1)

pub ins_test : Instruction → EmulatorContext → EmulatorContext
ins_test ins e =
    let val = if ins.prefix == prefix_imm then ins.imm16 else e.regs ins.dst in
    let e₁ = assign_flag flgs_z (val == 0) e in
    let e₂ = assign_flag flgs_s (not (bit_and val 0x8000_0000 == 0)) e₁ in
    let e₃ = assign_flag flgs_e (bit_and val 1 == 0) e₂ in
    assign_flag flgs_p (count_bits 32 val 0 % 2 == 1) e₃
