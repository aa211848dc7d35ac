-- ===== src/Assembler/Irregular.antt =====
-- The alternatives of `src/assembler/vasm.y` that encode another statement than the one they read.
use Prim.Native.String.{String}
use mathlib.Core.Path.{subst}
use emylathor.Base.{ℕ, ◌+◌, ◌^◌, ◌<◌, ◌≡◌, refl, ap, true, Option, some, arith}
use emylathor.Disassembler.Arguments.{fmt_reg_reg_reg, fmt_reg_reg, Disassembly}
use emylathor.Disassembler.Arguments.Laws.{shown}
use emylathor.Lookup.{
  get_reg_for_name, get_creg_for_name, get_reg8_for_name, get_reg16_for_name, get_name_of_reg,
  get_name_of_reg16, get_name_of_creg,
}
use emylathor.Emit.{EmitContext}
use emylathor.Emit.Buffer.{IsAligned, available}
use emylathor.Assembler.{
  reg32, reg16, Statement, op_fmt_vic_creg_reg, op_fmt_vic_reg_creg, op_s_loadrd, op_s_xchgc,
  loadrd_codes, loadrd_reg16_codes, xchgc_code,
}
use emylathor.Assembler.Instruction.{instruction}
use emylathor.Assembler.Tokens.{is_token, reg32_tokens, reg16_tokens, creg_tokens}
use emylathor.Assembler.Meaning.{meaning, accepted, IsLexed}
use emylathor.Assembler.Names.{is_token_lem, name_of-reg_for}
use emylathor.Assembler.Listed.{IsToken, IsReg, IsCondition, IsTyped, line, written}
use emylathor.Assembler.Displayed.{displayed, vic_arguments}
use emylathor.Assembler.Regular.{shown_line, three, two}
use emylathor.Assembler.Encode.{instruction_lem}
use emylathor.Assembler.Lists.{Lists, Emits-Lists}

-- The names of one kind of register are not found among those of another: they get its default.
reg16_among_reg8 : (s : String) → IsReg reg16 s → get_reg8_for_name s ≡ 0
unfolding get_reg8_for_name
reg16_among_reg8 s h = is_token_lem (λ n. get_reg8_for_name n ≡ 0) reg16_tokens s (ground arith) h

reg32_among_reg16 : (s : String) → IsReg reg32 s → get_reg16_for_name s ≡ 0
unfolding get_reg16_for_name
reg32_among_reg16 s h = is_token_lem (λ n. get_reg16_for_name n ≡ 0) reg32_tokens s (ground arith) h

creg_among_reg8 : (s : String) → IsToken creg_tokens s → get_reg8_for_name s ≡ 0
unfolding get_reg8_for_name
creg_among_reg8 s h = is_token_lem (λ n. get_reg8_for_name n ≡ 0) creg_tokens s (ground arith) h

loadrd_line :
    (cond dst a b : String)
    → IsTyped (op_s_loadrd (some cond) reg16 dst a b)
    → shown (meaning (op_s_loadrd (some cond) reg16 dst a b))
      ≡ line (some cond) "LOADRD" (fmt_reg_reg_reg "R0L" a "R0")
unfolding displayed written accepted loadrd_codes loadrd_reg16_codes get_name_of_reg
    get_name_of_reg16
loadrd_line cond dst a b (hc, hd, ha, hb) =
    let st = op_s_loadrd (some cond) reg16 dst a b in
    shown_line st (hc, hd, ha, hb) refl _
      (three (ap get_name_of_reg16 (reg16_among_reg8 dst hd)) (name_of-reg_for a ha)
        (ap get_name_of_reg (reg32_among_reg16 b hb)))

xchgc_line :
    (cond a b : String)
    → IsTyped (op_s_xchgc (some cond) a b)
    → shown (meaning (op_s_xchgc (some cond) a b)) ≡ line (some cond) "XCHGC" (fmt_reg_reg a "MR1")
unfolding displayed written accepted xchgc_code get_name_of_creg
xchgc_line cond a b (hc, ha, hb) =
    shown_line (op_s_xchgc (some cond) a b) (hc, ha, hb) refl _
      (two (name_of-reg_for a ha) (ap get_name_of_creg (creg_among_reg8 b hb)))

movtc_line :
    (c : Option String) (a b : String)
    → IsTyped (op_fmt_vic_reg_creg c "MOVTC" a b)
    → shown (meaning (op_fmt_vic_reg_creg c "MOVTC" a b))
      ≡ line c "MOVTC" (
          fmt_reg_reg
            (get_name_of_creg (get_reg_for_name a))
            (get_name_of_reg (get_creg_for_name b)))
unfolding displayed written accepted vic_arguments
movtc_line c a b t = shown_line (op_fmt_vic_reg_creg c "MOVTC" a b) t refl _ refl

movfc_line :
    (c : Option String) (a b : String)
    → IsTyped (op_fmt_vic_creg_reg c "MOVFC" a b)
    → shown (meaning (op_fmt_vic_creg_reg c "MOVFC" a b))
      ≡ line c "MOVFC" (
          fmt_reg_reg
            (get_name_of_reg (get_creg_for_name a))
            (get_name_of_creg (get_reg_for_name b)))
unfolding displayed written accepted vic_arguments
movfc_line c a b t = shown_line (op_fmt_vic_creg_reg c "MOVFC" a b) t refl _ refl

-- What the bytes of a statement are listed as, whatever was written.
abbrev pub IsListedAs : (ℕ → ℕ → ℕ) → EmitContext → Statement → Disassembly → Type 0
IsListedAs fresh ctx st d = Lists ctx d (instruction (available fresh) st ctx)

module _ (fresh : ℕ → ℕ → ℕ) (ctx : EmitContext) (aligned : IsAligned ctx)
    (small : ctx.size + 512 < 2 ^ 32) where
  instruction-IsListedAs :
      (st : Statement) (d : Disassembly)
      → IsLexed st
      → accepted st ≡ true
      → shown (meaning st) ≡ d
      → IsListedAs fresh ctx st d
  instruction-IsListedAs st d h k same =
      subst (IsListedAs fresh ctx st) same
        (Emits-Lists ctx (meaning st) _ ((instruction_lem fresh ctx aligned small st h).0 k))

  -- With a condition, LOADRD of any word register loads R0L, with R0 for its third operand, and XCHGC
  -- with any control register exchanges MR1. MOVTC with a register first writes the control register
  -- that has the number of this register from the register that has the number of the control register,
  -- and MOVFC with a control register first reads the other way round likewise. Each of the four is
  -- accepted, in an aligned dynamic buffer below four gigabytes with memory available, and is listed as
  -- the instruction that it has become.
  pub irregular_lem :
      (cond dst a b creg : String) (c : Option String)
      → IsCondition (some cond)
      → IsCondition c
      → IsReg reg16 dst
      → IsReg reg32 a
      → IsReg reg32 b
      → IsToken creg_tokens creg
      → IsListedAs fresh ctx
          (op_s_loadrd (some cond) reg16 dst a b)
          (line (some cond) "LOADRD" (fmt_reg_reg_reg "R0L" a "R0"))
        × IsListedAs fresh ctx
            (op_s_xchgc (some cond) a creg)
            (line (some cond) "XCHGC" (fmt_reg_reg a "MR1"))
        × IsListedAs fresh ctx (op_fmt_vic_reg_creg c "MOVTC" a creg) (
            line c "MOVTC" (
              fmt_reg_reg
                (get_name_of_creg (get_reg_for_name a))
                (get_name_of_reg (get_creg_for_name creg))))
        × IsListedAs fresh ctx (op_fmt_vic_creg_reg c "MOVFC" creg a) (
            line c "MOVFC" (
              fmt_reg_reg
                (get_name_of_reg (get_creg_for_name creg))
                (get_name_of_creg (get_reg_for_name a))))
  unfolding accepted is_token
  irregular_lem cond dst a b creg c hcond hc hd ha hb hr = (
    instruction-IsListedAs _ _ tt refl (loadrd_line cond dst a b (hcond, hd, ha, hb)),
    instruction-IsListedAs _ _ tt refl (xchgc_line cond a creg (hcond, ha, hr)),
    instruction-IsListedAs _ _ tt refl (movtc_line c a creg (hc, refl, ha, hr)),
    instruction-IsListedAs _ _ tt refl (movfc_line c creg a (hc, refl, hr, ha)),
  )
