-- ===== src/Assembler/Meaning.antt =====
-- The instruction that a statement of `src/assembler/vasm.y` stands for, and which statements are one.
use text.Mathlib.Text as Text
use emylathor.Base.{ℕ, ◌+◌, ◌*◌, ◌/◌, ◌%◌, ◌^◌, ◌<◌, Bool, true, ◌&&◌, ltb}
use emylathor.Machine.{Instruction}
use emylathor.Lookup.{
  get_op_for_name, get_reg_for_name, get_reg16_for_name, get_reg8_for_name, get_creg_for_name,
}
use emylathor.Assembler.{
  Statement, op_fmt_i, op_fmt_ii, op_fmt_ii_int, op_fmt_iv, op_fmt_v, op_fmt_vi,
  op_fmt_vic_creg_reg, op_fmt_vic_reg_creg, op_fmt_vi_int, op_fmt_v_int, op_fmt_viii, op_s_cmpxchg,
  op_s_loadi_reg8, op_s_loadi_reg16, op_s_loadid, op_s_loadrd, op_s_mov, op_s_sex_reg8,
  op_s_sex_reg16, op_s_storeid, op_s_storerd, op_s_xchgc, op_s_storeas, op_s_loadas, op_pseudo_push,
  op_pseudo_pop, condition_code, prefix_of, reg_code, loadrd_codes, xchgc_code,
}

-- The fields that the decoder finds in the formats with three registers, with 12-bit data and with
-- 16-bit data.
abbrev pub register_fields : ℕ → ℕ → ℕ → ℕ → ℕ → ℕ → Instruction
register_fields prefix condition opcode dst a b = record {
  opcode = opcode;
  dst = dst;
  opa = a;
  opb = b;
  imm12 = b * 2 ^ 8;
  imm16 = a * 2 ^ 4 + b;
  prefix = prefix;
  condition = condition;
}

abbrev pub imm12_fields : ℕ → ℕ → ℕ → ℕ → ℕ → ℕ → Instruction
imm12_fields prefix condition opcode dst a n = record {
  opcode = opcode;
  dst = dst;
  opa = a;
  opb = n / 2 ^ 8;
  imm12 = n;
  imm16 = n % 2 ^ 8 * 2 ^ 8 + (a * 2 ^ 4 + n / 2 ^ 8);
  prefix = prefix;
  condition = condition;
}

abbrev pub imm16_fields : ℕ → ℕ → ℕ → ℕ → ℕ → Instruction
imm16_fields prefix condition opcode dst n = record {
  opcode = opcode;
  dst = dst;
  opa = n % 2 ^ 8 / 2 ^ 4;
  opb = n % 2 ^ 4;
  imm12 = n % 2 ^ 4 * 2 ^ 8 + n / 2 ^ 8;
  imm16 = n;
  prefix = prefix;
  condition = condition;
}

-- The instruction that a statement stands for.
unfoldable pub meaning : Statement → Instruction
unfolding condition_code prefix_of reg_code loadrd_codes xchgc_code
meaning (op_fmt_i c op) = register_fields 0 (condition_code c) (get_op_for_name op) 0 0 0
meaning (op_fmt_ii c op dst a b) =
    register_fields 0 (condition_code c) (get_op_for_name op) (get_reg_for_name dst)
      (get_reg_for_name a) (get_reg_for_name b)
meaning (op_fmt_ii_int c op dst a n) =
    imm12_fields 3 (condition_code c) (get_op_for_name op) (get_reg_for_name dst)
      (get_reg_for_name a) n
meaning (op_fmt_iv c op dst n) =
    imm16_fields 3 (condition_code c) (get_op_for_name op) (get_reg_for_name dst) n
meaning (op_fmt_v c op dst) =
    register_fields 0 (condition_code c) (get_op_for_name op) (get_reg_for_name dst) 0 0
meaning (op_fmt_vi c op a b) =
    register_fields 0 (condition_code c) (get_op_for_name op) 0 (get_reg_for_name a)
      (get_reg_for_name b)
meaning (op_fmt_vic_creg_reg c op a b) =
    register_fields 0 (condition_code c) (get_op_for_name op) 0 (get_creg_for_name a)
      (get_reg_for_name b)
meaning (op_fmt_vic_reg_creg c op a b) =
    register_fields 0 (condition_code c) (get_op_for_name op) 0 (get_reg_for_name a)
      (get_creg_for_name b)
meaning (op_fmt_vi_int c op a n) =
    imm12_fields 3 (condition_code c) (get_op_for_name op) 0 (get_reg_for_name a) n
meaning (op_fmt_v_int c op n) = imm16_fields 3 (condition_code c) (get_op_for_name op) 0 n
meaning (op_fmt_viii c op n) = imm16_fields 3 (condition_code c) (get_op_for_name op) 0 n
meaning (op_s_cmpxchg c dst a b) =
    register_fields 0 (condition_code c) 0x1b (get_reg_for_name dst) (get_reg_for_name a)
      (get_reg_for_name b)
meaning (op_s_loadi_reg8 c dst n) = imm16_fields 2 (condition_code c) 0x06 (get_reg8_for_name dst) n
meaning (op_s_loadi_reg16 c dst n) =
    imm16_fields 1 (condition_code c) 0x06 (get_reg16_for_name dst) n
meaning (op_s_loadid c w dst a n) =
    imm12_fields (prefix_of w) (condition_code c) 0x26 (reg_code w dst) (get_reg_for_name a) n
meaning (op_s_loadrd c w dst a b) =
    register_fields (prefix_of w) (condition_code c) 0x27 (loadrd_codes c w dst b).0
      (get_reg_for_name a) (loadrd_codes c w dst b).1
meaning (op_s_mov c w a b) =
    register_fields (prefix_of w) (condition_code c) (get_op_for_name "MOV") 0 (reg_code w a)
      (reg_code w b)
meaning (op_s_sex_reg8 c a b) =
    register_fields 2 (condition_code c) 0x14 0 (get_reg_for_name a) (get_reg8_for_name b)
meaning (op_s_sex_reg16 c a b) =
    register_fields 1 (condition_code c) 0x14 0 (get_reg_for_name a) (get_reg16_for_name b)
meaning (op_s_storeid c w dst a n) =
    imm12_fields (prefix_of w) (condition_code c) 0x28 (get_reg_for_name dst) (reg_code w a) n
meaning (op_s_storerd c w dst a b) =
    register_fields (prefix_of w) (condition_code c) 0x29 (get_reg_for_name dst) (reg_code w a)
      (get_reg_for_name b)
meaning (op_s_xchgc c a b) =
    register_fields 0 (condition_code c) 0x2f 0 (get_reg_for_name a) (xchgc_code c b)
meaning (op_s_storeas dst) = register_fields 0 0 0x0d (get_reg_for_name dst) 0 0
meaning (op_s_loadas dst) = register_fields 0 0 0x0e (get_reg_for_name dst) 0 0
meaning (op_pseudo_push c r) =
    imm16_fields 3 (condition_code c) 0x08 (get_reg_for_name "SP") (get_reg_for_name r * 17)
meaning (op_pseudo_pop c r) =
    imm16_fields 3 (condition_code c) 0x09 (get_reg_for_name "SP") (get_reg_for_name r * 17)

-- The data fits 12 bits where the format has no more, and CMP alone takes data in place of the second
-- register.
unfoldable pub accepted : Statement → Bool
accepted (op_fmt_ii_int c op dst a n) = ltb n 4096
accepted (op_fmt_vi_int c op a n) = Text.◌==◌ op "CMP" && ltb n 4096
accepted (op_s_loadid c w dst a n) = ltb n 4096
accepted (op_s_storeid c w dst a n) = ltb n 4096
accepted _ = true

-- The number of a token INT is a word.
abbrev pub IsLexed : Statement → Type 0
IsLexed (op_fmt_ii_int c op dst a n) = n < 2 ^ 16
IsLexed (op_fmt_iv c op dst n) = n < 2 ^ 16
IsLexed (op_fmt_vi_int c op a n) = n < 2 ^ 16
IsLexed (op_fmt_v_int c op n) = n < 2 ^ 16
IsLexed (op_fmt_viii c op n) = n < 2 ^ 16
IsLexed (op_s_loadi_reg8 c dst n) = n < 2 ^ 16
IsLexed (op_s_loadi_reg16 c dst n) = n < 2 ^ 16
IsLexed (op_s_loadid c w dst a n) = n < 2 ^ 16
IsLexed (op_s_storeid c w dst a n) = n < 2 ^ 16
IsLexed _ = Unit
