-- ===== src/Assembler/Displayed.antt =====
-- The line that the disassembler prints of the instruction that the assembler makes of a statement.
use Prim.Native.String.{String}
use text.Mathlib.Text as Text
use text.Mathlib.TextEquality.{eq_iff}
use mathlib.Core.Path.{subst}
use emylathor.Base.{ℕ, ◌*◌, ◌≡◌, refl, sym, true, ◌&&◌, arith, ltb, if◌then◌else◌}
use emylathor.Lookup.{
  get_op_for_name, get_reg_for_name, get_creg_for_name, get_name_of_op, get_name_of_reg,
  get_name_of_reg16, get_name_of_reg8, get_name_of_creg,
}
use emylathor.Disassembler.Arguments.{
  Arguments, fmt_reg_reg_reg, fmt_reg_reg, fmt_reg_reg_imm12, fmt_reg, fmt_reg_imm12, fmt_reg_imm16,
  fmt_imm16, fmt_none, decode_dword_prefix_ops, decode_word_prefix_ops, decode_byte_prefix_ops,
  decode_immediate_prefix_ops, decode_instruction_arguments,
}
use emylathor.Assembler.{
  Width, reg32, reg16, reg8, Statement, op_fmt_i, op_fmt_ii, op_fmt_ii_int, op_fmt_iv, op_fmt_v,
  op_fmt_vi, op_fmt_vic_creg_reg, op_fmt_vic_reg_creg, op_fmt_vi_int, op_fmt_v_int, op_fmt_viii,
  op_s_cmpxchg, op_s_loadi_reg8, op_s_loadi_reg16, op_s_loadid, op_s_loadrd, op_s_mov,
  op_s_sex_reg8, op_s_sex_reg16, op_s_storeid, op_s_storerd, op_s_xchgc, op_s_storeas, op_s_loadas,
  op_pseudo_push, op_pseudo_pop, condition_code, reg_code, prefix_of, loadrd_codes, xchgc_code,
}
use emylathor.Assembler.Tokens.{op_fmt_vic_tokens}
use emylathor.Assembler.Meaning.{register_fields, imm12_fields, meaning, accepted}
use emylathor.Assembler.Names.{is_token_lem}
use emylathor.Assembler.Listed.{IsToken, written, IsTyped}
use emylathor.Assembler.Shows.{
  Shows, op_fmt_i-Shows, op_fmt_ii-Shows, op_fmt_ii_int-Shows, op_fmt_iv-Shows, op_fmt_v-Shows,
  op_fmt_vi-Shows, op_fmt_v_int-Shows, op_fmt_viii-Shows,
}

-- The name of a register, by the search that belongs to its token.
abbrev pub reg_text : Width → ℕ → String
reg_text reg32 code = get_name_of_reg code
reg_text reg16 code = get_name_of_reg16 code
reg_text reg8 code = get_name_of_reg8 code

abbrev pub reg_back : String → String
reg_back s = get_name_of_reg (get_reg_for_name s)

abbrev pub creg_back : String → String
creg_back s = get_name_of_creg (get_creg_for_name s)

abbrev pub width_back : Width → String → String
width_back w s = reg_text w (reg_code w s)

-- The two operands of a move from or to a control register.
unfoldable pub vic_arguments : String → ℕ → ℕ → Arguments
vic_arguments op a b =
    if Text.◌==◌ op "MOVTC"
    then fmt_reg_reg (get_name_of_creg a) (get_name_of_reg b)
    else fmt_reg_reg (get_name_of_reg a) (get_name_of_creg b)

-- The operands as they are shown: the name of the code that the assembler gave to each.
unfoldable pub displayed : Statement → Arguments
displayed (op_fmt_i c op) = fmt_none
displayed (op_fmt_ii c op dst a b) = fmt_reg_reg_reg (reg_back dst) (reg_back a) (reg_back b)
displayed (op_fmt_ii_int c op dst a n) = fmt_reg_reg_imm12 (reg_back dst) (reg_back a) n
displayed (op_fmt_iv c op dst n) = fmt_reg_imm16 (reg_back dst) n
displayed (op_fmt_v c op dst) = fmt_reg (reg_back dst)
displayed (op_fmt_vi c op a b) = fmt_reg_reg (reg_back a) (reg_back b)
displayed (op_fmt_vic_creg_reg c op a b) =
    vic_arguments op (get_creg_for_name a) (get_reg_for_name b)
displayed (op_fmt_vic_reg_creg c op a b) =
    vic_arguments op (get_reg_for_name a) (get_creg_for_name b)
displayed (op_fmt_vi_int c op a n) = fmt_reg_imm12 (reg_back a) n
displayed (op_fmt_v_int c op n) = fmt_imm16 n
displayed (op_fmt_viii c op n) = fmt_imm16 n
displayed (op_s_cmpxchg c dst a b) = fmt_reg_reg_reg (reg_back dst) (reg_back a) (reg_back b)
displayed (op_s_loadi_reg8 c dst n) = fmt_reg_imm16 (width_back reg8 dst) n
displayed (op_s_loadi_reg16 c dst n) = fmt_reg_imm16 (width_back reg16 dst) n
displayed (op_s_loadid c w dst a n) = fmt_reg_reg_imm12 (width_back w dst) (reg_back a) n
displayed (op_s_loadrd c w dst a b) =
    fmt_reg_reg_reg (reg_text w (loadrd_codes c w dst b).0) (reg_back a)
      (get_name_of_reg (loadrd_codes c w dst b).1)
displayed (op_s_mov c w a b) = fmt_reg_reg (width_back w a) (width_back w b)
displayed (op_s_sex_reg8 c a b) = fmt_reg_reg (reg_back a) (width_back reg8 b)
displayed (op_s_sex_reg16 c a b) = fmt_reg_reg (reg_back a) (width_back reg16 b)
displayed (op_s_storeid c w dst a n) = fmt_reg_reg_imm12 (reg_back dst) (width_back w a) n
displayed (op_s_storerd c w dst a b) = fmt_reg_reg_reg (reg_back dst) (width_back w a) (reg_back b)
displayed (op_s_xchgc c a b) = fmt_reg_reg (reg_back a) (get_name_of_creg (xchgc_code c b))
displayed (op_s_storeas dst) = fmt_reg (reg_back dst)
displayed (op_s_loadas dst) = fmt_reg (reg_back dst)
displayed (op_pseudo_push c r) = fmt_reg_imm16 (reg_back "SP") (get_reg_for_name r * 17)
displayed (op_pseudo_pop c r) = fmt_reg_imm16 (reg_back "SP") (get_reg_for_name r * 17)

op_fmt_vic-Shows :
    (op : String) (c a b : ℕ)
    → IsToken op_fmt_vic_tokens op
    → Shows op (register_fields 0 c (get_op_for_name op) 0 a b) (vic_arguments op a b)
unfolding vic_arguments get_op_for_name get_name_of_op decode_dword_prefix_ops
    decode_instruction_arguments
op_fmt_vic-Shows op c a b h =
    is_token_lem
      (λ o. Shows o (register_fields 0 c (get_op_for_name o) 0 a b) (vic_arguments o a b))
      op_fmt_vic_tokens op (refl, (refl, tt)) h

cmp-Shows :
    (op : String) (c a n : ℕ)
    → (Text.◌==◌ op "CMP" && ltb n 4096) ≡ true
    → Shows op (imm12_fields 3 c (get_op_for_name op) 0 a n) (fmt_reg_imm12 (get_name_of_reg a) n)
unfolding get_op_for_name get_name_of_op decode_immediate_prefix_ops decode_instruction_arguments
cmp-Shows op c a n h =
    subst
      (λ o.
        Shows o (imm12_fields 3 c (get_op_for_name o) 0 a n) (fmt_reg_imm12 (get_name_of_reg a) n))
      (sym ((eq_iff op "CMP").0 (ground (arith, h)))) refl

-- An accepted statement whose texts are of the classes of the grammar is shown with its own operation
-- and the names of the codes that it was given.
pub meaning-Shows :
    (st : Statement)
    → IsTyped st
    → accepted st ≡ true
    → Shows (written st).opcode_str (meaning st) (displayed st)
unfolding meaning written displayed accepted reg_code prefix_of get_op_for_name get_name_of_op
    decode_dword_prefix_ops decode_word_prefix_ops decode_byte_prefix_ops
    decode_immediate_prefix_ops decode_instruction_arguments
meaning-Shows (op_fmt_i c op) t k = op_fmt_i-Shows op (condition_code c) t.1
meaning-Shows (op_fmt_ii c op dst a b) t k = op_fmt_ii-Shows op (condition_code c) _ _ _ t.1
meaning-Shows (op_fmt_ii_int c op dst a n) t k = op_fmt_ii_int-Shows op (condition_code c) _ _ n t.1
meaning-Shows (op_fmt_iv c op dst n) t k = op_fmt_iv-Shows op (condition_code c) _ n t.1
meaning-Shows (op_fmt_v c op dst) t k = op_fmt_v-Shows op (condition_code c) _ t.1
meaning-Shows (op_fmt_vi c op a b) t k = op_fmt_vi-Shows op (condition_code c) _ _ t.1
meaning-Shows (op_fmt_vic_creg_reg c op a b) t k = op_fmt_vic-Shows op (condition_code c) _ _ t.1
meaning-Shows (op_fmt_vic_reg_creg c op a b) t k = op_fmt_vic-Shows op (condition_code c) _ _ t.1
meaning-Shows (op_fmt_vi_int c op a n) t k = cmp-Shows op (condition_code c) _ n k
meaning-Shows (op_fmt_v_int c op n) t k = op_fmt_v_int-Shows op (condition_code c) n t.1
meaning-Shows (op_fmt_viii c op n) t k = op_fmt_viii-Shows op (condition_code c) n t.1
meaning-Shows (op_s_cmpxchg c dst a b) t k = refl
meaning-Shows (op_s_loadi_reg8 c dst n) t k = refl
meaning-Shows (op_s_loadi_reg16 c dst n) t k = refl
meaning-Shows (op_s_loadid c reg32 dst a n) t k = refl
meaning-Shows (op_s_loadid c reg16 dst a n) t k = refl
meaning-Shows (op_s_loadid c reg8 dst a n) t k = refl
meaning-Shows (op_s_loadrd c reg32 dst a b) t k = refl
meaning-Shows (op_s_loadrd c reg16 dst a b) t k = refl
meaning-Shows (op_s_loadrd c reg8 dst a b) t k = refl
meaning-Shows (op_s_mov c reg32 a b) t k = refl
meaning-Shows (op_s_mov c reg16 a b) t k = refl
meaning-Shows (op_s_mov c reg8 a b) t k = refl
meaning-Shows (op_s_sex_reg8 c a b) t k = refl
meaning-Shows (op_s_sex_reg16 c a b) t k = refl
meaning-Shows (op_s_storeid c reg32 dst a n) t k = refl
meaning-Shows (op_s_storeid c reg16 dst a n) t k = refl
meaning-Shows (op_s_storeid c reg8 dst a n) t k = refl
meaning-Shows (op_s_storerd c reg32 dst a b) t k = refl
meaning-Shows (op_s_storerd c reg16 dst a b) t k = refl
meaning-Shows (op_s_storerd c reg8 dst a b) t k = refl
meaning-Shows (op_s_xchgc c a b) t k = refl
meaning-Shows (op_s_storeas dst) t k = refl
meaning-Shows (op_s_loadas dst) t k = refl
meaning-Shows (op_pseudo_push c r) t k = refl
meaning-Shows (op_pseudo_pop c r) t k = refl
