-- ===== src/Cpu/Move.antt =====
-- The instructions of `src/cpu/cpu.c` that move values between registers, load immediate data, jump
-- or use an I/O port.
pub mod Laws
pub mod Valid
pub mod Frame
use emylathor.Base.{
  ℕ, ◌+◌, Option, some, ◌==◌, if◌then◌else◌, u8, u32, bit_and, signed16, unsigned32,
}
use emylathor.Machine.{EmulatorContext, Instruction, store, set_reg, ◌>>=◌}
use emylathor.Registers.{cpu_get_byte_reg, cpu_set_byte_reg, cpu_get_word_reg, cpu_set_word_reg}
use emylathor.Pio.{pio_read, pio_write}
use emylathor.Cpu.Operand.{prefix_dword, prefix_word, prefix_byte, prefix_imm}

abbrev pub cpu_reg_rc : ℕ
cpu_reg_rc = 0x0c

-- `cctx->pos += SIGNED16(ins->imm16)`
pub relative_pos : Instruction → EmulatorContext → ℕ
relative_pos ins e = u32 (e.pos + unsigned32 (signed16 ins.imm16))

unfoldable pub ins_call : Instruction → EmulatorContext → EmulatorContext
unfolding relative_pos
ins_call ins e =
    let e₁ = set_reg e cpu_reg_rc e.pos in
    record e₁ { pos = if ins.prefix == prefix_imm then relative_pos ins e₁ else e₁.regs ins.dst }

unfoldable pub ins_jmp : Instruction → EmulatorContext → EmulatorContext
unfolding relative_pos
ins_jmp ins e = record e {
  pos = if ins.prefix == prefix_imm then relative_pos ins e else e.regs ins.dst;
}

pub ins_loadi : Instruction → EmulatorContext → EmulatorContext
ins_loadi ins e = record e {
  regs =
      if ins.prefix == prefix_byte
      then cpu_set_byte_reg ins.dst (bit_and ins.imm16 0x00ff) e.regs
      else cpu_set_word_reg ins.dst ins.imm16 e.regs;
}

pub ins_mov : Instruction → EmulatorContext → EmulatorContext
ins_mov ins e = record e {
  regs =
      if ins.prefix == prefix_imm
      then store e.regs ins.opa ins.imm12
      else if ins.prefix == prefix_dword
      then store e.regs ins.opa (e.regs ins.opb)
      else if ins.prefix == prefix_word
      then cpu_set_word_reg ins.opa (cpu_get_word_reg ins.opb e.regs) e.regs
      else if ins.prefix == prefix_byte
      then cpu_set_byte_reg ins.opa (cpu_get_byte_reg ins.opb e.regs) e.regs
      else e.regs;
}

pub ins_movfc : Instruction → EmulatorContext → EmulatorContext
ins_movfc ins e = set_reg e ins.opa (e.cregs ins.opb)

pub ins_movtc : Instruction → EmulatorContext → EmulatorContext
ins_movtc ins e = record e { cregs = store e.cregs ins.opa (e.regs ins.opb) }

pub ins_xchg : Instruction → EmulatorContext → EmulatorContext
ins_xchg ins e =
    let temp = e.regs ins.opa in
    record e { regs = store (store e.regs ins.opa (e.regs ins.opb)) ins.opb temp }

pub ins_xchgc : Instruction → EmulatorContext → EmulatorContext
ins_xchgc ins e =
    let temp = e.regs ins.opa in
    record e { regs = store e.regs ins.opa (e.cregs ins.opb); cregs = store e.cregs ins.opb temp }

-- The mask is applied to the number of the register, and not to the port number in it.
pub ins_in : Instruction → EmulatorContext → Option EmulatorContext
ins_in ins e = do
  (v, e₁) ← pio_read (u8 (e.regs (bit_and ins.opb 0x7f))) e
  some (set_reg e₁ ins.opa v)

pub ins_out : Instruction → EmulatorContext → Option EmulatorContext
ins_out ins e = pio_write (u8 (bit_and (e.regs ins.opa) 0x7f)) (e.regs ins.opb) e
