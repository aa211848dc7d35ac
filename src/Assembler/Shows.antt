-- ===== src/Assembler/Shows.antt =====
-- What the disassembler shows of the operations of each class of tokens of `src/assembler/vasm.l`.
use Prim.Native.String.{String}
use emylathor.Base.{ℕ, ◌≡◌, refl}
use emylathor.Machine.{Instruction}
use emylathor.Lookup.{get_op_for_name, get_name_of_op, get_name_of_cond, get_name_of_reg}
use emylathor.Disassembler.Arguments.{
  Arguments, fmt_reg_reg_reg, fmt_reg_reg, fmt_reg_reg_imm12, fmt_reg, fmt_reg_imm16, fmt_imm16,
  fmt_none, decode_dword_prefix_ops, decode_immediate_prefix_ops, decode_instruction_arguments,
}
use emylathor.Disassembler.Arguments.Laws.{shown}
use emylathor.Assembler.Tokens.{
  op_fmt_i_tokens, op_fmt_ii_tokens, op_fmt_iv_tokens, op_fmt_v_tokens, op_fmt_vi_tokens,
  op_fmt_viii_tokens,
}
use emylathor.Assembler.Meaning.{register_fields, imm12_fields, imm16_fields}
use emylathor.Assembler.Names.{is_token_lem}
use emylathor.Assembler.Listed.{IsToken}

-- An instruction is shown with an operation and some arguments, under its own condition.
abbrev pub Shows : String → Instruction → Arguments → Type 0
Shows op ins args =
    shown ins
    ≡ record { opcode_str = op; condition_str = get_name_of_cond ins.condition; arguments = args }

pub op_fmt_i-Shows :
    (op : String) (c : ℕ)
    → IsToken op_fmt_i_tokens op
    → Shows op (register_fields 0 c (get_op_for_name op) 0 0 0) (fmt_none)
unfolding get_op_for_name get_name_of_op decode_dword_prefix_ops decode_immediate_prefix_ops
    decode_instruction_arguments
op_fmt_i-Shows op c h =
    is_token_lem (λ o. Shows o (register_fields 0 c (get_op_for_name o) 0 0 0) (fmt_none))
      op_fmt_i_tokens op (refl, (refl, tt)) h

pub op_fmt_ii-Shows :
    (op : String) (c d a b : ℕ)
    → IsToken op_fmt_ii_tokens op
    → Shows op
        (register_fields 0 c (get_op_for_name op) d a b)
        (fmt_reg_reg_reg (get_name_of_reg d) (get_name_of_reg a) (get_name_of_reg b))
unfolding get_op_for_name get_name_of_op decode_dword_prefix_ops decode_immediate_prefix_ops
    decode_instruction_arguments
op_fmt_ii-Shows op c d a b h =
    is_token_lem
      (λ o.
        Shows o (register_fields 0 c (get_op_for_name o) d a b)
          (fmt_reg_reg_reg (get_name_of_reg d) (get_name_of_reg a) (get_name_of_reg b)))
      op_fmt_ii_tokens op
      (
        refl,
        (
          refl,
          (
            refl,
            (refl, (refl, (refl, (refl, (refl, (refl, (refl, (refl, (refl, (refl, tt)))))))))),
          ),
        ),
      )
      h

pub op_fmt_ii_int-Shows :
    (op : String) (c d a n : ℕ)
    → IsToken op_fmt_ii_tokens op
    → Shows op
        (imm12_fields 3 c (get_op_for_name op) d a n)
        (fmt_reg_reg_imm12 (get_name_of_reg d) (get_name_of_reg a) n)
unfolding get_op_for_name get_name_of_op decode_dword_prefix_ops decode_immediate_prefix_ops
    decode_instruction_arguments
op_fmt_ii_int-Shows op c d a n h =
    is_token_lem
      (λ o.
        Shows o (imm12_fields 3 c (get_op_for_name o) d a n)
          (fmt_reg_reg_imm12 (get_name_of_reg d) (get_name_of_reg a) n))
      op_fmt_ii_tokens op
      (
        refl,
        (
          refl,
          (
            refl,
            (refl, (refl, (refl, (refl, (refl, (refl, (refl, (refl, (refl, (refl, tt)))))))))),
          ),
        ),
      )
      h

pub op_fmt_iv-Shows :
    (op : String) (c d n : ℕ)
    → IsToken op_fmt_iv_tokens op
    → Shows op (imm16_fields 3 c (get_op_for_name op) d n) (fmt_reg_imm16 (get_name_of_reg d) n)
unfolding get_op_for_name get_name_of_op decode_dword_prefix_ops decode_immediate_prefix_ops
    decode_instruction_arguments
op_fmt_iv-Shows op c d n h =
    is_token_lem
      (λ o.
        Shows o (imm16_fields 3 c (get_op_for_name o) d n) (fmt_reg_imm16 (get_name_of_reg d) n))
      op_fmt_iv_tokens op (refl, (refl, tt)) h

pub op_fmt_v-Shows :
    (op : String) (c d : ℕ)
    → IsToken op_fmt_v_tokens op
    → Shows op (register_fields 0 c (get_op_for_name op) d 0 0) (fmt_reg (get_name_of_reg d))
unfolding get_op_for_name get_name_of_op decode_dword_prefix_ops decode_immediate_prefix_ops
    decode_instruction_arguments
op_fmt_v-Shows op c d h =
    is_token_lem
      (λ o. Shows o (register_fields 0 c (get_op_for_name o) d 0 0) (fmt_reg (get_name_of_reg d)))
      op_fmt_v_tokens op (refl, (refl, (refl, tt))) h

pub op_fmt_vi-Shows :
    (op : String) (c a b : ℕ)
    → IsToken op_fmt_vi_tokens op
    → Shows op
        (register_fields 0 c (get_op_for_name op) 0 a b)
        (fmt_reg_reg (get_name_of_reg a) (get_name_of_reg b))
unfolding get_op_for_name get_name_of_op decode_dword_prefix_ops decode_immediate_prefix_ops
    decode_instruction_arguments
op_fmt_vi-Shows op c a b h =
    is_token_lem
      (λ o.
        Shows o (register_fields 0 c (get_op_for_name o) 0 a b)
          (fmt_reg_reg (get_name_of_reg a) (get_name_of_reg b)))
      op_fmt_vi_tokens op (refl, (refl, (refl, (refl, (refl, tt))))) h

pub op_fmt_v_int-Shows :
    (op : String) (c n : ℕ)
    → IsToken op_fmt_v_tokens op
    → Shows op (imm16_fields 3 c (get_op_for_name op) 0 n) (fmt_imm16 n)
unfolding get_op_for_name get_name_of_op decode_dword_prefix_ops decode_immediate_prefix_ops
    decode_instruction_arguments
op_fmt_v_int-Shows op c n h =
    is_token_lem (λ o. Shows o (imm16_fields 3 c (get_op_for_name o) 0 n) (fmt_imm16 n))
      op_fmt_v_tokens op (refl, (refl, (refl, tt))) h

pub op_fmt_viii-Shows :
    (op : String) (c n : ℕ)
    → IsToken op_fmt_viii_tokens op
    → Shows op (imm16_fields 3 c (get_op_for_name op) 0 n) (fmt_imm16 n)
unfolding get_op_for_name get_name_of_op decode_dword_prefix_ops decode_immediate_prefix_ops
    decode_instruction_arguments
op_fmt_viii-Shows op c n h =
    is_token_lem (λ o. Shows o (imm16_fields 3 c (get_op_for_name o) 0 n) (fmt_imm16 n))
      op_fmt_viii_tokens op (refl, (refl, tt)) h
