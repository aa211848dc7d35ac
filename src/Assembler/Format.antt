-- ===== src/Assembler/Format.antt =====
-- What the formats of `src/assembler/emit.c` emit with the guards of `src/assembler/vasm.y`.
use Prim.Native.String.{String}
use text.Mathlib.Text as Text
use mathlib.Core.Bool.{true≢false}
use mathlib.Core.Path.{subst}
use emylathor.Base.{
  ℕ, ◌+◌, ◌-◌, ◌*◌, ◌/◌, ◌%◌, ◌^◌, ◌<◌, ◌≡◌, refl, sym, ap, ◌∙◌, Bool, true, false, ◌&&◌, Option,
  none, some, inl, inr, arith, ltb, if◌then◌else◌, bit_and, u16, Bool-cases,
}
use emylathor.Base.Bits.{digits_ext, digit-bit_and}
use emylathor.Base.Bits.Shift.{digit-mul_two_pow, digit-div_two_pow, bit_and-mask}
use emylathor.Machine.{Instruction}
use emylathor.Lookup.{get_reg_for_name}
use emylathor.Emit.{
  EmitContext, Emitted, emitted, exited, ◌>=>◌, emit_fmt_ii, emit_fmt_iii, emit_fmt_iv,
  emit_fmt_viii,
}
use emylathor.Emit.Buffer.{IsAligned, available}
use emylathor.Emit.Encode.{Emits, emit_fmt_ii-decode, emit_fmt_iii-decode, emit_fmt_iv-decode}
use emylathor.Assembler.Meaning.{register_fields, imm12_fields, imm16_fields}
use emylathor.Assembler.{
  Width, reg32, reg16, reg8, condition_code, reg_code, check_if_valid_12_bit, check_is_cmp,
  stack_range, loadrd_reg16_codes, loadrd_codes, xchgc_code,
}
use emylathor.Assembler.Names.{
  Field, condition_field, reg_field, no_field, get_reg_for_name-lt, get_reg16_for_name-lt,
  get_reg8_for_name-lt, get_creg_for_name-lt, stack_range_lem,
}

pub bit_and-high : (k m x : ℕ) → bit_and x (m * 2 ^ k) ≡ bit_and (x / 2 ^ k) m * 2 ^ k
bit_and-high k m x = digits_ext (bit_and x (m * 2 ^ k)) (bit_and (x / 2 ^ k) m * 2 ^ k) λ j.
    ground (
      arith,
      digit-bit_and j x (m * 2 ^ k),
      digit-mul_two_pow k j m,
      digit-mul_two_pow k j (bit_and (x / 2 ^ k) m),
      digit-bit_and (j - k) (x / 2 ^ k) m,
      digit-div_two_pow k (j - k) x,
    )

-- The test of `checkIfValid12Bit` on a word.
check_lem :
    (n : ℕ) (ctx : EmitContext)
    → n < 2 ^ 16
    → check_if_valid_12_bit n ctx ≡ (if ltb n 4096 then emitted ctx else exited 255)
unfolding check_if_valid_12_bit
check_lem n ctx h =
    let high : bit_and n 0xF000 ≡ n / 2 ^ 12 % 2 ^ 4 * 2 ^ 12 =
      bit_and-high 12 15 n ∙ ap (λ x. x * 2 ^ 12) (bit_and-mask 4 (n / 2 ^ 12)) in
    ground (arith, high)

pub loadrd_codes-lt :
    (c : Option String) (w : Width) (dst b : String)
    → ((loadrd_codes c w dst b).0 < 2 ^ 4) × ((loadrd_codes c w dst b).1 < 2 ^ 4)
unfolding loadrd_codes loadrd_reg16_codes reg_code
loadrd_codes-lt c reg32 dst b = (get_reg_for_name-lt dst, get_reg_for_name-lt b)
loadrd_codes-lt none reg16 dst b = (get_reg16_for_name-lt dst, get_reg_for_name-lt b)
loadrd_codes-lt (some c) reg16 dst b = (get_reg8_for_name-lt dst, get_reg16_for_name-lt b)
loadrd_codes-lt c reg8 dst b = (get_reg8_for_name-lt dst, get_reg_for_name-lt b)

pub xchgc_code-lt : (c : Option String) (b : String) → xchgc_code c b < 2 ^ 4
unfolding xchgc_code
xchgc_code-lt none b = get_creg_for_name-lt b
xchgc_code-lt (some c) b = get_reg8_for_name-lt b

-- The test of the data in front of a format, with both ways it can end.
check_both :
    (n : ℕ) (ctx : EmitContext) (ins : Instruction) (f : EmitContext → Emitted EmitContext)
    → n < 2 ^ 16
    → (n < 4096 → Emits ctx ins (f ctx))
    → (ltb n 4096 ≡ true → Emits ctx ins (check_if_valid_12_bit n ctx >=> f))
      × (ltb n 4096 ≡ false → (check_if_valid_12_bit n ctx >=> f) ≡ exited 255)
check_both n ctx ins f h fits =
    let eq = check_lem n ctx h in
    let then_f : Bool → Emitted EmitContext = λ t. (if t then emitted ctx else exited 255) >=> f in
    (
      λ k. subst (Emits ctx ins) (sym (ap (λ r. r >=> f) eq ∙ ap then_f k)) (fits (ground arith)),
      λ k. ap (λ r. r >=> f) eq ∙ ap then_f k,
    )

module _ (fresh : ℕ → ℕ → ℕ) (ctx : EmitContext) (aligned : IsAligned ctx)
    (small : ctx.size + 512 < 2 ^ 32) where
  -- What an accepted statement emits, and that the others exit.
  abbrev pub Acts : Bool → Instruction → Emitted EmitContext → Type 0
  Acts ok ins r = (ok ≡ true → Emits ctx ins r) × (ok ≡ false → r ≡ exited 255)

  Emits-Acts : (ins : Instruction) (r : Emitted EmitContext) → Emits ctx ins r → Acts true ins r
  Emits-Acts ins r e = (λ k. e, λ k. absurd (true≢false k))

  module _ (prefix : Field 2) (condition : Field 4) (opcode : Field 6) where
    pub registers-Acts :
        (dst a b : Field 4)
        → Acts true
            (register_fields prefix.0 condition.0 opcode.0 dst.0 a.0 b.0)
            (emit_fmt_ii (available fresh) prefix.0 condition.0 opcode.0 dst.0 a.0 b.0 ctx)
    registers-Acts dst a b = Emits-Acts _ _ (
        emit_fmt_ii-decode fresh ctx aligned small prefix.0 condition.0 opcode.0 prefix.1
          condition.1 opcode.1 dst.0 a.0 b.0 dst.1 a.1 b.1)

    pub imm12-Acts :
        (dst a : Field 4) (n : Field 16)
        → Acts (ltb n.0 4096) (imm12_fields prefix.0 condition.0 opcode.0 dst.0 a.0 n.0) (
            check_if_valid_12_bit n.0 ctx
            >=> emit_fmt_iii (available fresh) prefix.0 condition.0 opcode.0 dst.0 a.0 n.0)
    imm12-Acts dst a n =
        check_both n.0 ctx _
          (emit_fmt_iii (available fresh) prefix.0 condition.0 opcode.0 dst.0 a.0 n.0) n.1
          λ k.
            emit_fmt_iii-decode fresh ctx aligned small prefix.0 condition.0 opcode.0 prefix.1
              condition.1 opcode.1 dst.0 a.0 n.0 dst.1 a.1 k

    pub imm16-Acts :
        (dst : Field 4) (n : Field 16)
        → Acts true
            (imm16_fields prefix.0 condition.0 opcode.0 dst.0 n.0)
            (emit_fmt_iv (available fresh) prefix.0 condition.0 opcode.0 dst.0 n.0 ctx)
    imm16-Acts dst n = Emits-Acts _ _ (
        emit_fmt_iv-decode fresh ctx aligned small prefix.0 condition.0 opcode.0 prefix.1
          condition.1 opcode.1 dst.0 n.0 dst.1 n.1)

  -- PUSH and POP.
  pub range-Acts :
      (op : Field 6) (c : Option String) (r : String)
      → Acts true
          (imm16_fields 3 (condition_code c) op.0 (get_reg_for_name "SP") (get_reg_for_name r * 17))
          (emit_fmt_iv
            (available fresh)
            3
            (condition_code c)
            op.0
            (get_reg_for_name "SP")
            (stack_range r)
            ctx)
  range-Acts op c r =
      subst
        (λ n.
          Acts true
            (imm16_fields 3 (condition_code c) op.0 (get_reg_for_name "SP")
              (get_reg_for_name r * 17))
            (emit_fmt_iv (available fresh) 3 (condition_code c) op.0 (get_reg_for_name "SP") n ctx))
        (sym (stack_range_lem r))
        (imm16-Acts (3, omega arith) (condition_field c) op (reg_field "SP")
          (get_reg_for_name r * 17, omega (arith, get_reg_for_name-lt r)))

  -- The data of a jump, which is a word already.
  pub signed-Acts :
      (op : Field 6) (c : Option String) (n : Field 16)
      → Acts true
          (imm16_fields 3 (condition_code c) op.0 0 n.0)
          (emit_fmt_viii (available fresh) 3 (condition_code c) op.0 (u16 n.0) ctx)
  unfolding emit_fmt_viii emit_fmt_iv
  signed-Acts op c n =
      subst
        (λ k.
          Acts true (imm16_fields 3 (condition_code c) op.0 0 n.0)
            (emit_fmt_viii (available fresh) 3 (condition_code c) op.0 k ctx))
        (omega (arith, n.1)) (imm16-Acts (3, omega arith) (condition_field c) op no_field n)

  -- The guard of the operations other than CMP.
  pub cmp-Acts :
      (op : String) (ok : Bool) (ins : Instruction) (f g : EmitContext → Emitted EmitContext)
      → Acts ok ins (f ctx >=> g)
      → Acts (Text.◌==◌ op "CMP" && ok) ins (check_is_cmp op ctx >=> f >=> g)
  unfolding check_is_cmp
  cmp-Acts op ok ins f g h = elim (Bool-cases (Text.◌==◌ op "CMP")) [
    | inl is ↦ rw is h
    | inr other ↦ rw other (λ k. absurd (true≢false (sym k)), λ k. refl)
  ]

abbrev pub loadrd_fields : Option String → Width → String → String → Field 4 × Field 4
loadrd_fields c w dst b =
    let (hd, hb) = loadrd_codes-lt c w dst b in
    (((loadrd_codes c w dst b).0, hd), ((loadrd_codes c w dst b).1, hb))

abbrev pub xchgc_field : Option String → String → Field 4
xchgc_field c b = (xchgc_code c b, xchgc_code-lt c b)
