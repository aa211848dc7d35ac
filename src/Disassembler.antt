-- ===== src/Disassembler.antt =====
-- `vasmdis_bytes_to_instruction` of `src/disassembler/lib_vasmdis.c`, which the disassembler decodes
-- with, and its agreement with the emulator's decoder.
pub mod Arguments
pub mod Program
use emylathor.Base.{ℕ, ◌%◌, ◌<◌, ◌^◌, ◌≡◌, arith, bit_and, bit_or, u16, ◌<<<◌, ◌>>>◌}
use emylathor.Base.Bits.Shift.{bit_or-add, bit_and-mask}
use emylathor.Machine.{Instruction}
use emylathor.Decode.{decode_bytes}
use emylathor.Decode.Laws.{decode_bytes-eq}

-- `instruction` of `lib_vasmdis.h`.
pub record DisassembledInstruction : Type 0 where
  pub opcode : ℕ
  pub prefix : ℕ
  pub condition : ℕ
  pub destination : ℕ
  pub operand_a : ℕ
  pub operand_b : ℕ
  pub imm16 : ℕ
  pub imm12 : ℕ

pub vasmdis_bytes_to_instruction : ℕ → ℕ → ℕ → ℕ → DisassembledInstruction
vasmdis_bytes_to_instruction b0 b1 b2 b3 =
    let operand_b = bit_and b2 0x0f in
    record {
      opcode = bit_and b0 0x3f;
      prefix = b0 >>> 6;
      condition = b1 >>> 4;
      destination = bit_and b1 0x0f;
      operand_a = b2 >>> 4;
      operand_b = operand_b;
      imm16 = u16 (bit_or (b3 <<< 8) b2);
      imm12 = u16 (bit_or (operand_b <<< 8) b3);
    }

-- The fields of an instruction of the emulator under the disassembler's names.
abbrev pub as_disassembled : Instruction → DisassembledInstruction
as_disassembled ins = record {
  opcode = ins.opcode;
  prefix = ins.prefix;
  condition = ins.condition;
  destination = ins.dst;
  operand_a = ins.opa;
  operand_b = ins.opb;
  imm16 = ins.imm16;
  imm12 = ins.imm12;
}

-- On every four bytes the disassembler sees the fields that the emulator executes.
pub vasmdis_bytes_to_instruction-decode_bytes :
    (b0 b1 b2 b3 : ℕ)
    → b0 < 2 ^ 8
    → b1 < 2 ^ 8
    → b2 < 2 ^ 8
    → b3 < 2 ^ 8
    → vasmdis_bytes_to_instruction b0 b1 b2 b3 ≡ as_disassembled (decode_bytes b0 b1 b2 b3)
unfolding vasmdis_bytes_to_instruction
vasmdis_bytes_to_instruction-decode_bytes b0 b1 b2 b3 h0 h1 h2 h3 = grind (
  arith,
  decode_bytes-eq b0 b1 b2 b3 h2 h3,
  bit_and-mask 6 b0,
  bit_and-mask 4 b1,
  bit_and-mask 4 b2,
  bit_or-add 8 (b2 % 2 ^ 4) b3 h3,
  bit_or-add 8 b3 b2 h2,
)
