-- ===== src/Assembler/Encode.antt =====
-- What the actions of `src/assembler/vasm.y` for instructions emit.
use emylathor.Base.{ℕ, ◌+◌, ◌^◌, ◌<◌, ◌≡◌, true, false, arith}
use emylathor.Lookup.{get_op_for_name, get_reg_for_name}
use emylathor.Emit.{EmitContext, exited, emit_fmt_vii}
use emylathor.Emit.Buffer.{IsAligned, available}
use emylathor.Emit.Encode.{Emits}
use emylathor.Assembler.Meaning.{meaning, accepted, IsLexed}
use emylathor.Assembler.{
  Statement, op_fmt_i, op_fmt_ii, op_fmt_ii_int, op_fmt_iv, op_fmt_v, op_fmt_vi,
  op_fmt_vic_creg_reg, op_fmt_vic_reg_creg, op_fmt_vi_int, op_fmt_v_int, op_fmt_viii, op_s_cmpxchg,
  op_s_loadi_reg8, op_s_loadi_reg16, op_s_loadid, op_s_loadrd, op_s_mov, op_s_sex_reg8,
  op_s_sex_reg16, op_s_storeid, op_s_storerd, op_s_xchgc, op_s_storeas, op_s_loadas, op_pseudo_push,
  op_pseudo_pop, condition_code, check_if_valid_12_bit,
}
use emylathor.Assembler.Instruction.{instruction}
use emylathor.Assembler.Format.{
  registers-Acts, imm12-Acts, imm16-Acts, range-Acts, signed-Acts, cmp-Acts, loadrd_fields,
  xchgc_field,
}
use emylathor.Assembler.Names.{
  op_field, reg_field, reg16_field, reg8_field, creg_field, width_field, condition_field,
  prefix_field, no_field,
}

module _ (fresh : ℕ → ℕ → ℕ) (ctx : EmitContext) (aligned : IsAligned ctx)
    (small : ctx.size + 512 < 2 ^ 32) where
  -- For every statement of the grammar, whatever its names, with numbers of 16 bits, in an aligned
  -- dynamic buffer below four gigabytes with memory available: if its data fits the format, and CMP is
  -- the operation where data stands for the second register, the action emits four bytes at the
  -- position that the emulator decodes as the instruction the statement stands for, and keeps what was
  -- emitted before; otherwise the assembler exits with the status 255.
  pub instruction_lem :
      (st : Statement)
      → IsLexed st
      → (accepted st ≡ true → Emits ctx (meaning st) (instruction (available fresh) st ctx))
        × (accepted st ≡ false → instruction (available fresh) st ctx ≡ exited 255)
  unfolding instruction meaning accepted
  instruction_lem (op_fmt_i c op) h =
      registers-Acts fresh ctx aligned small (0, omega arith) (condition_field c) (op_field op)
        no_field no_field no_field
  instruction_lem (op_fmt_ii c op dst a b) h =
      registers-Acts fresh ctx aligned small (0, omega arith) (condition_field c) (op_field op)
        (reg_field dst) (reg_field a) (reg_field b)
  instruction_lem (op_fmt_ii_int c op dst a n) h =
      imm12-Acts fresh ctx aligned small (3, omega arith) (condition_field c) (op_field op)
        (reg_field dst) (reg_field a) (n, h)
  instruction_lem (op_fmt_iv c op dst n) h =
      imm16-Acts fresh ctx aligned small (3, omega arith) (condition_field c) (op_field op)
        (reg_field dst) (n, h)
  instruction_lem (op_fmt_v c op dst) h =
      registers-Acts fresh ctx aligned small (0, omega arith) (condition_field c) (op_field op)
        (reg_field dst) no_field no_field
  instruction_lem (op_fmt_vi c op a b) h =
      registers-Acts fresh ctx aligned small (0, omega arith) (condition_field c) (op_field op)
        no_field (reg_field a) (reg_field b)
  instruction_lem (op_fmt_vic_creg_reg c op a b) h =
      registers-Acts fresh ctx aligned small (0, omega arith) (condition_field c) (op_field op)
        no_field (creg_field a) (reg_field b)
  instruction_lem (op_fmt_vic_reg_creg c op a b) h =
      registers-Acts fresh ctx aligned small (0, omega arith) (condition_field c) (op_field op)
        no_field (reg_field a) (creg_field b)
  instruction_lem (op_fmt_vi_int c op a n) h =
      cmp-Acts fresh ctx aligned small op _ _ (check_if_valid_12_bit n)
        (emit_fmt_vii (available fresh) 3 (condition_code c) (get_op_for_name op)
          (get_reg_for_name a) n)
        (imm12-Acts fresh ctx aligned small (3, omega arith) (condition_field c) (op_field op)
          no_field (reg_field a) (n, h))
  instruction_lem (op_fmt_v_int c op n) h =
      signed-Acts fresh ctx aligned small (op_field op) c (n, h)
  instruction_lem (op_fmt_viii c op n) h =
      imm16-Acts fresh ctx aligned small (3, omega arith) (condition_field c) (op_field op) no_field
        (n, h)
  instruction_lem (op_s_cmpxchg c dst a b) h =
      registers-Acts fresh ctx aligned small (0, omega arith) (condition_field c)
        (0x1b, omega arith) (reg_field dst) (reg_field a) (reg_field b)
  instruction_lem (op_s_loadi_reg8 c dst n) h =
      imm16-Acts fresh ctx aligned small (2, omega arith) (condition_field c) (0x06, omega arith)
        (reg8_field dst) (n, h)
  instruction_lem (op_s_loadi_reg16 c dst n) h =
      imm16-Acts fresh ctx aligned small (1, omega arith) (condition_field c) (0x06, omega arith)
        (reg16_field dst) (n, h)
  instruction_lem (op_s_loadid c w dst a n) h =
      imm12-Acts fresh ctx aligned small (prefix_field w) (condition_field c) (0x26, omega arith)
        (width_field w dst) (reg_field a) (n, h)
  instruction_lem (op_s_loadrd c w dst a b) h =
      let (d, e) = loadrd_fields c w dst b in
      registers-Acts fresh ctx aligned small (prefix_field w) (condition_field c)
        (0x27, omega arith) d (reg_field a) e
  instruction_lem (op_s_mov c w a b) h =
      registers-Acts fresh ctx aligned small (prefix_field w) (condition_field c) (op_field "MOV")
        no_field (width_field w a) (width_field w b)
  instruction_lem (op_s_sex_reg8 c a b) h =
      registers-Acts fresh ctx aligned small (2, omega arith) (condition_field c)
        (0x14, omega arith) no_field (reg_field a) (reg8_field b)
  instruction_lem (op_s_sex_reg16 c a b) h =
      registers-Acts fresh ctx aligned small (1, omega arith) (condition_field c)
        (0x14, omega arith) no_field (reg_field a) (reg16_field b)
  instruction_lem (op_s_storeid c w dst a n) h =
      imm12-Acts fresh ctx aligned small (prefix_field w) (condition_field c) (0x28, omega arith)
        (reg_field dst) (width_field w a) (n, h)
  instruction_lem (op_s_storerd c w dst a b) h =
      registers-Acts fresh ctx aligned small (prefix_field w) (condition_field c)
        (0x29, omega arith) (reg_field dst) (width_field w a) (reg_field b)
  instruction_lem (op_s_xchgc c a b) h =
      registers-Acts fresh ctx aligned small (0, omega arith) (condition_field c)
        (0x2f, omega arith) no_field (reg_field a) (xchgc_field c b)
  instruction_lem (op_s_storeas dst) h =
      registers-Acts fresh ctx aligned small (0, omega arith) no_field (0x0d, omega arith)
        (reg_field dst) no_field no_field
  instruction_lem (op_s_loadas dst) h =
      registers-Acts fresh ctx aligned small (0, omega arith) no_field (0x0e, omega arith)
        (reg_field dst) no_field no_field
  instruction_lem (op_pseudo_push c r) h =
      range-Acts fresh ctx aligned small (0x08, omega arith) c r
  instruction_lem (op_pseudo_pop c r) h = range-Acts fresh ctx aligned small (0x09, omega arith) c r
