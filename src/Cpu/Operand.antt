-- ===== src/Cpu/Operand.antt =====
-- The prefixes of `src/common/rawdefs.h`, and the choice of the second operand that the arithmetic
-- and logic instructions of `src/cpu/cpu.c` make.
use emylathor.Base.{ℕ, ◌==◌, if◌then◌else◌}
use emylathor.Machine.{EmulatorContext, Instruction}

abbrev pub prefix_dword : ℕ
prefix_dword = 0x00

abbrev pub prefix_word : ℕ
prefix_word = 0x01

abbrev pub prefix_byte : ℕ
prefix_byte = 0x02

abbrev pub prefix_imm : ℕ
prefix_imm = 0x03

-- `if (ins->prefix == PREFIX_IMM) b = ins->imm12; else b = cctx->regs[ins->opb];`
abbrev pub operand_b : Instruction → EmulatorContext → ℕ
operand_b ins e = if ins.prefix == prefix_imm then ins.imm12 else e.regs ins.opb
