-- ===== src/Assembler/Instruction.antt =====
-- The actions of `src/assembler/vasm.y` for instructions, an alternative with and without a condition
-- together, and for all widths of a register.
use Prim.Native.String.{String}
use emylathor.Base.{ℕ, Option, u16}
use emylathor.Lookup.{
  get_op_for_name, get_reg_for_name, get_reg16_for_name, get_reg8_for_name, get_creg_for_name,
}
use emylathor.Emit.{
  EmitContext, Emitted, ◌>=>◌, emit_fmt_i, emit_fmt_ii, emit_fmt_iii, emit_fmt_iv, emit_fmt_v,
  emit_fmt_vi, emit_fmt_vii, emit_fmt_viii,
}
use emylathor.Assembler.{
  Width, Statement, op_fmt_i, op_fmt_ii, op_fmt_ii_int, op_fmt_iv, op_fmt_v, op_fmt_vi,
  op_fmt_vic_creg_reg, op_fmt_vic_reg_creg, op_fmt_vi_int, op_fmt_v_int, op_fmt_viii, op_s_cmpxchg,
  op_s_loadi_reg8, op_s_loadi_reg16, op_s_loadid, op_s_loadrd, op_s_mov, op_s_sex_reg8,
  op_s_sex_reg16, op_s_storeid, op_s_storerd, op_s_xchgc, op_s_storeas, op_s_loadas, op_pseudo_push,
  op_pseudo_pop, condition_code, prefix_of, reg_code, check_if_valid_12_bit, check_is_cmp,
  stack_range, loadrd_codes, xchgc_code,
}

module _ (realloc : ℕ → Option (ℕ → ℕ)) where
  abbrev pub op_fmt_i_action : Option String → String → EmitContext → Emitted EmitContext
  op_fmt_i_action c op ctx = emit_fmt_i realloc 0x00 (condition_code c) (get_op_for_name op) ctx

  abbrev pub op_fmt_ii_action :
      Option String → String → String → String → String → EmitContext → Emitted EmitContext
  op_fmt_ii_action c op dst a b ctx =
      emit_fmt_ii realloc 0x00 (condition_code c) (get_op_for_name op) (get_reg_for_name dst)
        (get_reg_for_name a) (get_reg_for_name b) ctx

  abbrev pub op_fmt_ii_int_action :
      Option String → String → String → String → ℕ → EmitContext → Emitted EmitContext
  op_fmt_ii_int_action c op dst a n ctx =
      check_if_valid_12_bit n ctx
      >=> emit_fmt_iii realloc 0x03 (condition_code c) (get_op_for_name op) (get_reg_for_name dst)
          (get_reg_for_name a) n

  abbrev pub op_fmt_iv_action :
      Option String → String → String → ℕ → EmitContext → Emitted EmitContext
  op_fmt_iv_action c op dst n ctx =
      emit_fmt_iv realloc 0x03 (condition_code c) (get_op_for_name op) (get_reg_for_name dst) n ctx

  abbrev pub op_fmt_v_action : Option String → String → String → EmitContext → Emitted EmitContext
  op_fmt_v_action c op dst ctx =
      emit_fmt_v realloc 0x00 (condition_code c) (get_op_for_name op) (get_reg_for_name dst) ctx

  abbrev pub op_fmt_vi_action :
      Option String → String → String → String → EmitContext → Emitted EmitContext
  op_fmt_vi_action c op a b ctx =
      emit_fmt_vi realloc 0x00 (condition_code c) (get_op_for_name op) (get_reg_for_name a)
        (get_reg_for_name b) ctx

  abbrev pub op_fmt_vic_creg_reg_action :
      Option String → String → String → String → EmitContext → Emitted EmitContext
  op_fmt_vic_creg_reg_action c op a b ctx =
      emit_fmt_vi realloc 0x00 (condition_code c) (get_op_for_name op) (get_creg_for_name a)
        (get_reg_for_name b) ctx

  abbrev pub op_fmt_vic_reg_creg_action :
      Option String → String → String → String → EmitContext → Emitted EmitContext
  op_fmt_vic_reg_creg_action c op a b ctx =
      emit_fmt_vi realloc 0x00 (condition_code c) (get_op_for_name op) (get_reg_for_name a)
        (get_creg_for_name b) ctx

  abbrev pub op_fmt_vi_int_action :
      Option String → String → String → ℕ → EmitContext → Emitted EmitContext
  op_fmt_vi_int_action c op a n ctx =
      check_is_cmp op ctx
      >=> check_if_valid_12_bit n
      >=> emit_fmt_vii realloc 0x03 (condition_code c) (get_op_for_name op) (get_reg_for_name a) n

  -- SIGNED16, back in the word that the format takes.
  abbrev pub op_fmt_v_int_action : Option String → String → ℕ → EmitContext → Emitted EmitContext
  op_fmt_v_int_action c op n ctx =
      emit_fmt_viii realloc 0x03 (condition_code c) (get_op_for_name op) (u16 n) ctx

  abbrev pub op_fmt_viii_action : Option String → String → ℕ → EmitContext → Emitted EmitContext
  op_fmt_viii_action c op n ctx =
      emit_fmt_viii realloc 0x03 (condition_code c) (get_op_for_name op) n ctx

  abbrev pub op_s_cmpxchg_action :
      Option String → String → String → String → EmitContext → Emitted EmitContext
  op_s_cmpxchg_action c dst a b ctx =
      emit_fmt_ii realloc 0x00 (condition_code c) 0x1b (get_reg_for_name dst) (get_reg_for_name a)
        (get_reg_for_name b) ctx

  abbrev pub op_s_loadi_reg8_action : Option String → String → ℕ → EmitContext → Emitted EmitContext
  op_s_loadi_reg8_action c dst n ctx =
      emit_fmt_iv realloc 0x02 (condition_code c) 0x06 (get_reg8_for_name dst) n ctx

  abbrev pub op_s_loadi_reg16_action :
      Option String → String → ℕ → EmitContext → Emitted EmitContext
  op_s_loadi_reg16_action c dst n ctx =
      emit_fmt_iv realloc 0x01 (condition_code c) 0x06 (get_reg16_for_name dst) n ctx

  abbrev pub op_s_loadid_action :
      Option String → Width → String → String → ℕ → EmitContext → Emitted EmitContext
  op_s_loadid_action c w dst a n ctx =
      check_if_valid_12_bit n ctx
      >=> emit_fmt_iii realloc (prefix_of w) (condition_code c) 0x26 (reg_code w dst)
          (get_reg_for_name a) n

  abbrev pub op_s_loadrd_action :
      Option String → Width → String → String → String → EmitContext → Emitted EmitContext
  op_s_loadrd_action c w dst a b ctx =
      let (d, e) = loadrd_codes c w dst b in
      emit_fmt_ii realloc (prefix_of w) (condition_code c) 0x27 d (get_reg_for_name a) e ctx

  abbrev pub op_s_mov_action :
      Option String → Width → String → String → EmitContext → Emitted EmitContext
  op_s_mov_action c w a b ctx =
      emit_fmt_vi realloc (prefix_of w) (condition_code c) (get_op_for_name "MOV") (reg_code w a)
        (reg_code w b) ctx

  abbrev pub op_s_sex_reg8_action :
      Option String → String → String → EmitContext → Emitted EmitContext
  op_s_sex_reg8_action c a b ctx =
      emit_fmt_vi realloc 0x02 (condition_code c) 0x14 (get_reg_for_name a) (get_reg8_for_name b)
        ctx

  abbrev pub op_s_sex_reg16_action :
      Option String → String → String → EmitContext → Emitted EmitContext
  op_s_sex_reg16_action c a b ctx =
      emit_fmt_vi realloc 0x01 (condition_code c) 0x14 (get_reg_for_name a) (get_reg16_for_name b)
        ctx

  abbrev pub op_s_storeid_action :
      Option String → Width → String → String → ℕ → EmitContext → Emitted EmitContext
  op_s_storeid_action c w dst a n ctx =
      check_if_valid_12_bit n ctx
      >=> emit_fmt_iii realloc (prefix_of w) (condition_code c) 0x28 (get_reg_for_name dst)
          (reg_code w a) n

  abbrev pub op_s_storerd_action :
      Option String → Width → String → String → String → EmitContext → Emitted EmitContext
  op_s_storerd_action c w dst a b ctx =
      emit_fmt_ii realloc (prefix_of w) (condition_code c) 0x29 (get_reg_for_name dst)
        (reg_code w a) (get_reg_for_name b) ctx

  abbrev pub op_s_xchgc_action : Option String → String → String → EmitContext → Emitted EmitContext
  op_s_xchgc_action c a b ctx =
      emit_fmt_vi realloc 0x00 (condition_code c) 0x2f (get_reg_for_name a) (xchgc_code c b) ctx

  abbrev pub op_s_storeas_action : String → EmitContext → Emitted EmitContext
  op_s_storeas_action dst ctx = emit_fmt_v realloc 0x00 0x00 0x0d (get_reg_for_name dst) ctx

  abbrev pub op_s_loadas_action : String → EmitContext → Emitted EmitContext
  op_s_loadas_action dst ctx = emit_fmt_v realloc 0x00 0x00 0x0e (get_reg_for_name dst) ctx

  abbrev pub op_pseudo_push_action : Option String → String → EmitContext → Emitted EmitContext
  op_pseudo_push_action c r ctx =
      emit_fmt_iv realloc 0x03 (condition_code c) 0x08 (get_reg_for_name "SP") (stack_range r) ctx

  abbrev pub op_pseudo_pop_action : Option String → String → EmitContext → Emitted EmitContext
  op_pseudo_pop_action c r ctx =
      emit_fmt_iv realloc 0x03 (condition_code c) 0x09 (get_reg_for_name "SP") (stack_range r) ctx

  -- The action of a statement.
  unfoldable pub instruction : Statement → EmitContext → Emitted EmitContext
  unfolding condition_code prefix_of reg_code check_if_valid_12_bit check_is_cmp stack_range
      loadrd_codes xchgc_code emit_fmt_i emit_fmt_ii emit_fmt_iii emit_fmt_iv emit_fmt_v emit_fmt_vi
      emit_fmt_vii emit_fmt_viii get_op_for_name get_reg_for_name get_reg16_for_name
      get_reg8_for_name get_creg_for_name
  instruction (op_fmt_i c op) = op_fmt_i_action c op
  instruction (op_fmt_ii c op dst a b) = op_fmt_ii_action c op dst a b
  instruction (op_fmt_ii_int c op dst a n) = op_fmt_ii_int_action c op dst a n
  instruction (op_fmt_iv c op dst n) = op_fmt_iv_action c op dst n
  instruction (op_fmt_v c op dst) = op_fmt_v_action c op dst
  instruction (op_fmt_vi c op a b) = op_fmt_vi_action c op a b
  instruction (op_fmt_vic_creg_reg c op a b) = op_fmt_vic_creg_reg_action c op a b
  instruction (op_fmt_vic_reg_creg c op a b) = op_fmt_vic_reg_creg_action c op a b
  instruction (op_fmt_vi_int c op a n) = op_fmt_vi_int_action c op a n
  instruction (op_fmt_v_int c op n) = op_fmt_v_int_action c op n
  instruction (op_fmt_viii c op n) = op_fmt_viii_action c op n
  instruction (op_s_cmpxchg c dst a b) = op_s_cmpxchg_action c dst a b
  instruction (op_s_loadi_reg8 c dst n) = op_s_loadi_reg8_action c dst n
  instruction (op_s_loadi_reg16 c dst n) = op_s_loadi_reg16_action c dst n
  instruction (op_s_loadid c w dst a n) = op_s_loadid_action c w dst a n
  instruction (op_s_loadrd c w dst a b) = op_s_loadrd_action c w dst a b
  instruction (op_s_mov c w a b) = op_s_mov_action c w a b
  instruction (op_s_sex_reg8 c a b) = op_s_sex_reg8_action c a b
  instruction (op_s_sex_reg16 c a b) = op_s_sex_reg16_action c a b
  instruction (op_s_storeid c w dst a n) = op_s_storeid_action c w dst a n
  instruction (op_s_storerd c w dst a b) = op_s_storerd_action c w dst a b
  instruction (op_s_xchgc c a b) = op_s_xchgc_action c a b
  instruction (op_s_storeas dst) = op_s_storeas_action dst
  instruction (op_s_loadas dst) = op_s_loadas_action dst
  instruction (op_pseudo_push c r) = op_pseudo_push_action c r
  instruction (op_pseudo_pop c r) = op_pseudo_pop_action c r
