-- ===== src/Assembler/Listed.antt =====
-- A statement of `src/assembler/vasm.y` as the line that the disassembler prints of it, with its names
-- and numbers as they are written.
use Prim.Native.String.{String}
use emylathor.Base.{◌*◌, ◌≡◌, true, Option, none, some, List, ◌∷◌, []}
use emylathor.Lookup.{get_reg_for_name}
use emylathor.Disassembler.Arguments.{
  Arguments, fmt_reg_reg_reg, fmt_reg_reg, fmt_reg_reg_imm12, fmt_reg, fmt_reg_imm12, fmt_reg_imm16,
  fmt_imm16, fmt_none, Disassembly,
}
use emylathor.Assembler.{
  Width, reg32, reg16, reg8, Statement, op_fmt_i, op_fmt_ii, op_fmt_ii_int, op_fmt_iv, op_fmt_v,
  op_fmt_vi, op_fmt_vic_creg_reg, op_fmt_vic_reg_creg, op_fmt_vi_int, op_fmt_v_int, op_fmt_viii,
  op_s_cmpxchg, op_s_loadi_reg8, op_s_loadi_reg16, op_s_loadid, op_s_loadrd, op_s_mov,
  op_s_sex_reg8, op_s_sex_reg16, op_s_storeid, op_s_storerd, op_s_xchgc, op_s_storeas, op_s_loadas,
  op_pseudo_push, op_pseudo_pop,
}
use emylathor.Assembler.Tokens.{
  is_token, reg32_tokens, reg16_tokens, reg8_tokens, creg_tokens, op_fmt_i_tokens, op_fmt_ii_tokens,
  op_fmt_iv_tokens, op_fmt_v_tokens, op_fmt_vi_tokens, op_fmt_vic_tokens, op_fmt_viii_tokens,
  condition_tokens,
}

abbrev pub condition_text : Option String → String
condition_text none = ""
condition_text (some cond) = cond

abbrev pub line : Option String → String → Arguments → Disassembly
line c op args = record { opcode_str = op; condition_str = condition_text c; arguments = args }

-- PUSH and POP have no opcode: they are shown as the STOREMA or LOADMA that they are.
unfoldable pub written : Statement → Disassembly
written (op_fmt_i c op) = line c op fmt_none
written (op_fmt_ii c op dst a b) = line c op (fmt_reg_reg_reg dst a b)
written (op_fmt_ii_int c op dst a n) = line c op (fmt_reg_reg_imm12 dst a n)
written (op_fmt_iv c op dst n) = line c op (fmt_reg_imm16 dst n)
written (op_fmt_v c op dst) = line c op (fmt_reg dst)
written (op_fmt_vi c op a b) = line c op (fmt_reg_reg a b)
written (op_fmt_vic_creg_reg c op a b) = line c op (fmt_reg_reg a b)
written (op_fmt_vic_reg_creg c op a b) = line c op (fmt_reg_reg a b)
written (op_fmt_vi_int c op a n) = line c op (fmt_reg_imm12 a n)
written (op_fmt_v_int c op n) = line c op (fmt_imm16 n)
written (op_fmt_viii c op n) = line c op (fmt_imm16 n)
written (op_s_cmpxchg c dst a b) = line c "CMPXCHG" (fmt_reg_reg_reg dst a b)
written (op_s_loadi_reg8 c dst n) = line c "LOADI" (fmt_reg_imm16 dst n)
written (op_s_loadi_reg16 c dst n) = line c "LOADI" (fmt_reg_imm16 dst n)
written (op_s_loadid c w dst a n) = line c "LOADID" (fmt_reg_reg_imm12 dst a n)
written (op_s_loadrd c w dst a b) = line c "LOADRD" (fmt_reg_reg_reg dst a b)
written (op_s_mov c w a b) = line c "MOV" (fmt_reg_reg a b)
written (op_s_sex_reg8 c a b) = line c "SEX" (fmt_reg_reg a b)
written (op_s_sex_reg16 c a b) = line c "SEX" (fmt_reg_reg a b)
written (op_s_storeid c w dst a n) = line c "STOREID" (fmt_reg_reg_imm12 dst a n)
written (op_s_storerd c w dst a b) = line c "STORERD" (fmt_reg_reg_reg dst a b)
written (op_s_xchgc c a b) = line c "XCHGC" (fmt_reg_reg a b)
written (op_s_storeas dst) = line none "STOREAS" (fmt_reg dst)
written (op_s_loadas dst) = line none "LOADAS" (fmt_reg dst)
written (op_pseudo_push c r) = line c "STOREMA" (fmt_reg_imm16 "SP" (get_reg_for_name r * 17))
written (op_pseudo_pop c r) = line c "LOADMA" (fmt_reg_imm16 "SP" (get_reg_for_name r * 17))

-- The text is one of a class of tokens.
abbrev pub IsToken : List String → String → Type 0
IsToken names s = is_token names s ≡ true

abbrev pub tokens_of : Width → List String
tokens_of reg32 = reg32_tokens
tokens_of reg16 = reg16_tokens
tokens_of reg8 = reg8_tokens

abbrev pub IsReg : Width → String → Type 0
IsReg w s = IsToken (tokens_of w) s

abbrev pub IsCondition : Option String → Type 0
IsCondition none = Unit
IsCondition (some cond) = IsToken condition_tokens cond

-- Every text of the statement is of the class that the grammar asks for at its place.
abbrev pub IsTyped : Statement → Type 0
IsTyped (op_fmt_i c op) = IsCondition c × IsToken op_fmt_i_tokens op
IsTyped (op_fmt_ii c op dst a b) =
    IsCondition c × IsToken op_fmt_ii_tokens op × IsReg reg32 dst × IsReg reg32 a × IsReg reg32 b
IsTyped (op_fmt_ii_int c op dst a n) =
    IsCondition c × IsToken op_fmt_ii_tokens op × IsReg reg32 dst × IsReg reg32 a
IsTyped (op_fmt_iv c op dst n) = IsCondition c × IsToken op_fmt_iv_tokens op × IsReg reg32 dst
IsTyped (op_fmt_v c op dst) = IsCondition c × IsToken op_fmt_v_tokens op × IsReg reg32 dst
IsTyped (op_fmt_vi c op a b) =
    IsCondition c × IsToken op_fmt_vi_tokens op × IsReg reg32 a × IsReg reg32 b
IsTyped (op_fmt_vic_creg_reg c op a b) =
    IsCondition c × IsToken op_fmt_vic_tokens op × IsToken creg_tokens a × IsReg reg32 b
IsTyped (op_fmt_vic_reg_creg c op a b) =
    IsCondition c × IsToken op_fmt_vic_tokens op × IsReg reg32 a × IsToken creg_tokens b
IsTyped (op_fmt_vi_int c op a n) = IsCondition c × IsToken op_fmt_vi_tokens op × IsReg reg32 a
IsTyped (op_fmt_v_int c op n) = IsCondition c × IsToken op_fmt_v_tokens op
IsTyped (op_fmt_viii c op n) = IsCondition c × IsToken op_fmt_viii_tokens op
IsTyped (op_s_cmpxchg c dst a b) = IsCondition c × IsReg reg32 dst × IsReg reg32 a × IsReg reg32 b
IsTyped (op_s_loadi_reg8 c dst n) = IsCondition c × IsReg reg8 dst
IsTyped (op_s_loadi_reg16 c dst n) = IsCondition c × IsReg reg16 dst
IsTyped (op_s_loadid c w dst a n) = IsCondition c × IsReg w dst × IsReg reg32 a
IsTyped (op_s_loadrd c w dst a b) = IsCondition c × IsReg w dst × IsReg reg32 a × IsReg reg32 b
IsTyped (op_s_mov c w a b) = IsCondition c × IsReg w a × IsReg w b
IsTyped (op_s_sex_reg8 c a b) = IsCondition c × IsReg reg32 a × IsReg reg8 b
IsTyped (op_s_sex_reg16 c a b) = IsCondition c × IsReg reg32 a × IsReg reg16 b
IsTyped (op_s_storeid c w dst a n) = IsCondition c × IsReg reg32 dst × IsReg w a
IsTyped (op_s_storerd c w dst a b) = IsCondition c × IsReg reg32 dst × IsReg w a × IsReg reg32 b
IsTyped (op_s_xchgc c a b) = IsCondition c × IsReg reg32 a × IsToken creg_tokens b
IsTyped (op_s_storeas dst) = IsReg reg32 dst
IsTyped (op_s_loadas dst) = IsReg reg32 dst
IsTyped (op_pseudo_push c r) = IsCondition c × IsReg reg32 r
IsTyped (op_pseudo_pop c r) = IsCondition c × IsReg reg32 r

-- The control registers whose names have codes of their own.
abbrev pub coded_cregs : List String
coded_cregs = "MR1" ∷ "MR2" ∷ "MR3" ∷ "MR4" ∷ "CR1" ∷ "CR2" ∷ "SSP" ∷ "ST1" ∷ []

-- The statement is none of those that the assembler encodes as another one: a control register ST2,
-- ST3 or ST4, MOVTC or MOVFC with its operands the wrong way round, and, with a condition, XCHGC and
-- LOADRD of a REG16.
abbrev pub IsRegular : Statement → Type 0
IsRegular (op_fmt_vic_creg_reg c op a b) = (op ≡ "MOVTC") × IsToken coded_cregs a
IsRegular (op_fmt_vic_reg_creg c op a b) = (op ≡ "MOVFC") × IsToken coded_cregs b
IsRegular (op_s_xchgc c a b) = (c ≡ none) × IsToken coded_cregs b
IsRegular (op_s_loadrd c reg16 dst a b) = c ≡ none
IsRegular _ = Unit
