-- ===== src/Disassembler/Arguments.antt =====
-- The arguments that `src/disassembler/lib_vasmdis.c` writes for an instruction, and the instruction as
-- text. What is passed to `snprintf` of the C library is kept in place of the text that it writes: the
-- buffers of 256 bytes hold every such text.
pub mod Laws
use Prim.Native.String.{String}
use emylathor.Base.{ℕ, Bool, true, false, List, [], ◌∷◌, ◌==◌, ◌||◌, if◌then◌else◌}
use emylathor.Lookup.{
  get_name_of_op, get_name_of_cond, get_name_of_reg, get_name_of_reg16, get_name_of_reg8,
  get_name_of_creg,
}
use emylathor.Disassembler.{DisassembledInstruction, vasmdis_bytes_to_instruction}

-- The formats of `lib_vasmdis.h` with their arguments, and MSG_INVALID_ARGS.
pub data Arguments : Type 0 where
  fmt_reg_reg_reg : String → String → String → Arguments
  fmt_reg_reg : String → String → Arguments
  fmt_reg_reg_imm12 : String → String → ℕ → Arguments
  fmt_reg : String → Arguments
  fmt_reg_imm12 : String → ℕ → Arguments
  fmt_reg_imm16 : String → ℕ → Arguments
  fmt_imm16 : ℕ → Arguments
  fmt_none : Arguments
  msg_invalid_args : Arguments

-- The labels of a case.
abbrev pub any_of : List ℕ → ℕ → Bool
any_of [] op = false
any_of (x ∷ rest) op = op == x || any_of rest op

-- The operations of the case with three registers.
abbrev pub three_registers : List ℕ
three_registers =
    0x2a ∷ 0x21 ∷ 0x2d ∷ 0x22 ∷ 0x15 ∷ 0x2c ∷ 0x1f ∷ 0x11 ∷ 0x24 ∷ 0x25 ∷ 0x10 ∷ 0x2b ∷ 0x23 ∷ 0x27
    ∷ 0x29 ∷ 0x1b ∷ []

unfoldable pub decode_dword_prefix_ops : DisassembledInstruction → Arguments
decode_dword_prefix_ops i =
    let op = i.opcode in
    if any_of (0x00 ∷ 0x04 ∷ []) op
    then fmt_none
    else if any_of three_registers op
    then fmt_reg_reg_reg (get_name_of_reg i.destination) (get_name_of_reg i.operand_a)
        (get_name_of_reg i.operand_b)
    else if any_of (0x0c ∷ 0x0b ∷ 0x16 ∷ 0x0e ∷ 0x0d ∷ []) op
    then fmt_reg (get_name_of_reg i.destination)
    else if any_of (0x18 ∷ 0x19 ∷ 0x12 ∷ 0x2e ∷ 0x20 ∷ 0x1a ∷ []) op
    then fmt_reg_reg (get_name_of_reg i.operand_a) (get_name_of_reg i.operand_b)
    else if any_of (0x26 ∷ 0x28 ∷ []) op
    then fmt_reg_reg_imm12 (get_name_of_reg i.destination) (get_name_of_reg i.operand_a) i.imm12
    else if op == 0x1d
    then fmt_reg_reg (get_name_of_creg i.operand_a) (get_name_of_reg i.operand_b)
    else if any_of (0x2f ∷ 0x1e ∷ []) op
    then fmt_reg_reg (get_name_of_reg i.operand_a) (get_name_of_creg i.operand_b)
    else msg_invalid_args

unfoldable pub decode_word_prefix_ops : DisassembledInstruction → Arguments
decode_word_prefix_ops i =
    let op = i.opcode in
    if op == 0x06
    then fmt_reg_imm16 (get_name_of_reg16 i.destination) i.imm16
    else if op == 0x26
    then fmt_reg_reg_imm12 (get_name_of_reg16 i.destination) (get_name_of_reg i.operand_a) i.imm12
    else if op == 0x27
    then fmt_reg_reg_reg (get_name_of_reg16 i.destination) (get_name_of_reg i.operand_a)
        (get_name_of_reg i.operand_b)
    else if op == 0x1a
    then fmt_reg_reg (get_name_of_reg16 i.operand_a) (get_name_of_reg16 i.operand_b)
    else if op == 0x14
    then fmt_reg_reg (get_name_of_reg i.operand_a) (get_name_of_reg16 i.operand_b)
    else if op == 0x28
    then fmt_reg_reg_imm12 (get_name_of_reg i.destination) (get_name_of_reg16 i.operand_a) i.imm12
    else if op == 0x29
    then fmt_reg_reg_reg (get_name_of_reg i.destination) (get_name_of_reg16 i.operand_a)
        (get_name_of_reg i.operand_b)
    else msg_invalid_args

unfoldable pub decode_byte_prefix_ops : DisassembledInstruction → Arguments
decode_byte_prefix_ops i =
    let op = i.opcode in
    if op == 0x06
    then fmt_reg_imm16 (get_name_of_reg8 i.destination) i.imm16
    else if op == 0x26
    then fmt_reg_reg_imm12 (get_name_of_reg8 i.destination) (get_name_of_reg i.operand_a) i.imm12
    else if op == 0x27
    then fmt_reg_reg_reg (get_name_of_reg8 i.destination) (get_name_of_reg i.operand_a)
        (get_name_of_reg i.operand_b)
    else if op == 0x1a
    then fmt_reg_reg (get_name_of_reg8 i.operand_a) (get_name_of_reg8 i.operand_b)
    else if op == 0x14
    then fmt_reg_reg (get_name_of_reg i.operand_a) (get_name_of_reg8 i.operand_b)
    else if op == 0x28
    then fmt_reg_reg_imm12 (get_name_of_reg i.destination) (get_name_of_reg8 i.operand_a) i.imm12
    else if op == 0x29
    then fmt_reg_reg_reg (get_name_of_reg i.destination) (get_name_of_reg8 i.operand_a)
        (get_name_of_reg i.operand_b)
    else msg_invalid_args

-- The operations of the case with two registers and immediate data.
abbrev pub two_registers_imm12 : List ℕ
two_registers_imm12 =
    0x2a ∷ 0x21 ∷ 0x2d ∷ 0x22 ∷ 0x15 ∷ 0x2c ∷ 0x1f ∷ 0x11 ∷ 0x24 ∷ 0x25 ∷ 0x10 ∷ 0x2b ∷ 0x23 ∷ []

unfoldable pub decode_immediate_prefix_ops : DisassembledInstruction → Arguments
decode_immediate_prefix_ops i =
    let op = i.opcode in
    if any_of two_registers_imm12 op
    then fmt_reg_reg_imm12 (get_name_of_reg i.destination) (get_name_of_reg i.operand_a) i.imm12
    else if op == 0x18
    then fmt_reg_imm12 (get_name_of_reg i.operand_a) i.imm12
    else if any_of (0x0c ∷ 0x01 ∷ 0x0a ∷ 0x0b ∷ 0x16 ∷ []) op
    then fmt_imm16 i.imm16
    else if op == 0x09
    then fmt_reg_imm16 (get_name_of_reg i.destination) i.imm16
    else if op == 0x08
    then fmt_reg_imm16 (get_name_of_reg i.destination) i.imm16
    else msg_invalid_args

-- The prefix has two bits.
unfoldable pub decode_instruction_arguments : DisassembledInstruction → Arguments
unfolding decode_dword_prefix_ops decode_word_prefix_ops decode_byte_prefix_ops
    decode_immediate_prefix_ops
decode_instruction_arguments i =
    if i.prefix == 0x00
    then decode_dword_prefix_ops i
    else if i.prefix == 0x01
    then decode_word_prefix_ops i
    else if i.prefix == 0x02
    then decode_byte_prefix_ops i
    else decode_immediate_prefix_ops i

-- `"%s%s\t\t%s"`
pub record Disassembly : Type 0 where
  pub opcode_str : String
  pub condition_str : String
  pub arguments : Arguments

unfoldable pub vasmdis_disasm_instruction : ℕ → ℕ → ℕ → ℕ → Disassembly
unfolding decode_instruction_arguments
vasmdis_disasm_instruction b0 b1 b2 b3 =
    let i = vasmdis_bytes_to_instruction b0 b1 b2 b3 in
    record {
      opcode_str = get_name_of_op i.prefix i.opcode;
      condition_str = get_name_of_cond i.condition;
      arguments = decode_instruction_arguments i;
    }
