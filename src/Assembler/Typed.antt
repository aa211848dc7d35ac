-- ===== src/Assembler/Typed.antt =====
-- The grammar of `src/assembler/vasm.y` as a type system: what the tokens of a statement say of the
-- line that the disassembler prints of its bytes.
use Prim.Native.String.{String}
use mathlib.Core.Path.{subst}
use emylathor.Base.{
  ℕ, ◌+◌, ◌^◌, ◌<◌, ◌≡◌, refl, ap, ◌∙◌, true, false, none, some, List, [], ◌∷◌, if◌then◌else◌,
  arith,
}
use emylathor.Disassembler.Arguments.{
  Arguments, fmt_reg_reg_reg, fmt_reg_reg, fmt_reg_reg_imm12, fmt_reg, fmt_reg_imm12, fmt_reg_imm16,
  fmt_imm16, fmt_none, msg_invalid_args, Disassembly,
}
use emylathor.Disassembler.Arguments.Laws.{shown}
use emylathor.Lookup.{
  get_reg_for_name, get_creg_for_name, get_reg8_for_name, get_reg16_for_name, get_name_of_reg,
  get_name_of_reg16, get_name_of_creg,
}
use emylathor.Emit.{EmitContext, exited}
use emylathor.Emit.Buffer.{IsAligned, available}
use emylathor.Assembler.{
  Width, reg32, reg16, reg8, Statement, op_fmt_i, op_fmt_ii, op_fmt_ii_int, op_fmt_iv, op_fmt_v,
  op_fmt_vi, op_fmt_vic_creg_reg, op_fmt_vic_reg_creg, op_fmt_vi_int, op_fmt_v_int, op_fmt_viii,
  op_s_cmpxchg, op_s_loadi_reg8, op_s_loadi_reg16, op_s_loadid, op_s_loadrd, op_s_mov,
  op_s_sex_reg8, op_s_sex_reg16, op_s_storeid, op_s_storerd, op_s_xchgc, op_s_storeas, op_s_loadas,
  op_pseudo_push, op_pseudo_pop, loadrd_codes, loadrd_reg16_codes, xchgc_code,
}
use emylathor.Assembler.Instruction.{instruction}
use emylathor.Assembler.Tokens.{is_token, reg32_tokens, reg16_tokens, reg8_tokens, creg_tokens}
use emylathor.Assembler.Meaning.{meaning, accepted, IsLexed}
use emylathor.Assembler.Names.{is_token_lem, name_of-reg_for}
use emylathor.Assembler.Listed.{written, IsToken, IsReg, IsTyped, IsRegular}
use emylathor.Assembler.Displayed.{vic_arguments, displayed, creg_back}
use emylathor.Assembler.Regular.{displayed-written, shown_line, shown-meaning}
use emylathor.Assembler.Encode.{instruction_lem}
use emylathor.Assembler.Lists.{Lists, Emits-Lists}

-- The types of operands: the tokens REG32, REG16, REG8 and CREG, and the widths of numbers.
pub data Token : Type 0 where
  a_reg : Width → Token
  a_creg imm12 imm16 unknown : Token

-- The class of a name.
unfoldable pub token : String → Token
unfolding is_token
token s =
    if is_token reg32_tokens s
    then a_reg reg32
    else if is_token reg16_tokens s
    then a_reg reg16
    else if is_token reg8_tokens s
    then a_reg reg8
    else if is_token creg_tokens s
    then a_creg
    else unknown

-- The types of the operands of a line.
unfoldable pub types : Arguments → List Token
unfolding token
types (fmt_reg_reg_reg a b c) = token a ∷ token b ∷ token c ∷ []
types (fmt_reg_reg a b) = token a ∷ token b ∷ []
types (fmt_reg_reg_imm12 a b n) = token a ∷ token b ∷ imm12 ∷ []
types (fmt_reg a) = token a ∷ []
types (fmt_reg_imm12 a n) = token a ∷ imm12 ∷ []
types (fmt_reg_imm16 a n) = token a ∷ imm16 ∷ []
types (fmt_imm16 n) = imm16 ∷ []
types fmt_none = []
types msg_invalid_args = unknown ∷ []

-- MOVTC has its control register first, and MOVFC has it last.
abbrev pub IsOriented : Statement → Type 0
IsOriented (op_fmt_vic_creg_reg c op a b) = op ≡ "MOVTC"
IsOriented (op_fmt_vic_reg_creg c op a b) = op ≡ "MOVFC"
IsOriented _ = Unit

module _ (s : String) where
  creg-type : IsToken creg_tokens s → token (creg_back s) ≡ token s
  unfolding token is_token get_name_of_creg get_creg_for_name
  creg-type = is_token_lem (λ n. token (creg_back n) ≡ token n) creg_tokens s (ground arith)

  byte_creg-type : IsToken creg_tokens s → token (get_name_of_creg (get_reg8_for_name s)) ≡ token s
  unfolding token is_token get_name_of_creg get_reg8_for_name
  byte_creg-type =
      is_token_lem (λ n. token (get_name_of_creg (get_reg8_for_name n)) ≡ token n) creg_tokens s
        (ground arith)

  byte_reg16-type : IsReg reg16 s → token (get_name_of_reg16 (get_reg8_for_name s)) ≡ token s
  unfolding token is_token get_name_of_reg16 get_reg8_for_name
  byte_reg16-type =
      is_token_lem (λ n. token (get_name_of_reg16 (get_reg8_for_name n)) ≡ token n) reg16_tokens s
        (ground arith)

  word_reg32-type : IsReg reg32 s → token (get_name_of_reg (get_reg16_for_name s)) ≡ token s
  unfolding token is_token get_name_of_reg get_reg16_for_name
  word_reg32-type =
      is_token_lem (λ n. token (get_name_of_reg (get_reg16_for_name n)) ≡ token n) reg32_tokens s
        (ground arith)

pair : {x y x₁ y₁ : Token} → x ≡ x₁ → y ≡ y₁ → x ∷ y ∷ [] ≡ x₁ ∷ y₁ ∷ []
pair p q = cc (p, q)

triple : {x y z x₁ y₁ z₁ : Token} → x ≡ x₁ → y ≡ y₁ → z ≡ z₁ → x ∷ y ∷ z ∷ [] ≡ x₁ ∷ y₁ ∷ z₁ ∷ []
triple p q r = cc (p, q, r)

types-displayed :
    (st : Statement)
    → IsTyped st
    → IsOriented st
    → types (displayed st) ≡ types (written st).arguments
unfolding types displayed written vic_arguments loadrd_codes loadrd_reg16_codes xchgc_code
types-displayed (op_fmt_i c op) t q = ap types (displayed-written (op_fmt_i c op) t tt)
types-displayed (op_fmt_ii c op dst a b) t q =
    ap types (displayed-written (op_fmt_ii c op dst a b) t tt)
types-displayed (op_fmt_ii_int c op dst a n) t q =
    ap types (displayed-written (op_fmt_ii_int c op dst a n) t tt)
types-displayed (op_fmt_iv c op dst n) t q =
    ap types (displayed-written (op_fmt_iv c op dst n) t tt)
types-displayed (op_fmt_v c op dst) t q = ap types (displayed-written (op_fmt_v c op dst) t tt)
types-displayed (op_fmt_vi c op a b) t q = ap types (displayed-written (op_fmt_vi c op a b) t tt)
types-displayed (op_fmt_vic_creg_reg c op a b) t q =
    ap (λ o. types (vic_arguments o (get_creg_for_name a) (get_reg_for_name b))) q
    ∙ pair (creg-type a t.2) (ap token (name_of-reg_for b t.3))
types-displayed (op_fmt_vic_reg_creg c op a b) t q =
    ap (λ o. types (vic_arguments o (get_reg_for_name a) (get_creg_for_name b))) q
    ∙ pair (ap token (name_of-reg_for a t.2)) (creg-type b t.3)
types-displayed (op_fmt_vi_int c op a n) t q =
    ap types (displayed-written (op_fmt_vi_int c op a n) t tt)
types-displayed (op_fmt_v_int c op n) t q = ap types (displayed-written (op_fmt_v_int c op n) t tt)
types-displayed (op_fmt_viii c op n) t q = ap types (displayed-written (op_fmt_viii c op n) t tt)
types-displayed (op_s_cmpxchg c dst a b) t q =
    ap types (displayed-written (op_s_cmpxchg c dst a b) t tt)
types-displayed (op_s_loadi_reg8 c dst n) t q =
    ap types (displayed-written (op_s_loadi_reg8 c dst n) t tt)
types-displayed (op_s_loadi_reg16 c dst n) t q =
    ap types (displayed-written (op_s_loadi_reg16 c dst n) t tt)
types-displayed (op_s_loadid c w dst a n) t q =
    ap types (displayed-written (op_s_loadid c w dst a n) t tt)
types-displayed (op_s_loadrd c reg32 dst a b) t q =
    ap types (displayed-written (op_s_loadrd c reg32 dst a b) t tt)
types-displayed (op_s_loadrd c reg8 dst a b) t q =
    ap types (displayed-written (op_s_loadrd c reg8 dst a b) t tt)
types-displayed (op_s_loadrd none reg16 dst a b) t q =
    ap types (displayed-written (op_s_loadrd none reg16 dst a b) t refl)
types-displayed (op_s_loadrd (some c) reg16 dst a b) t q =
    triple (byte_reg16-type dst t.1) (ap token (name_of-reg_for a t.2)) (word_reg32-type b t.3)
types-displayed (op_s_mov c w a b) t q = ap types (displayed-written (op_s_mov c w a b) t tt)
types-displayed (op_s_sex_reg8 c a b) t q = ap types (displayed-written (op_s_sex_reg8 c a b) t tt)
types-displayed (op_s_sex_reg16 c a b) t q =
    ap types (displayed-written (op_s_sex_reg16 c a b) t tt)
types-displayed (op_s_storeid c w dst a n) t q =
    ap types (displayed-written (op_s_storeid c w dst a n) t tt)
types-displayed (op_s_storerd c w dst a b) t q =
    ap types (displayed-written (op_s_storerd c w dst a b) t tt)
types-displayed (op_s_xchgc none a b) t q =
    pair (ap token (name_of-reg_for a t.1)) (creg-type b t.2)
types-displayed (op_s_xchgc (some c) a b) t q =
    pair (ap token (name_of-reg_for a t.1)) (byte_creg-type b t.2)
types-displayed (op_s_storeas dst) t q = ap types (displayed-written (op_s_storeas dst) t tt)
types-displayed (op_s_loadas dst) t q = ap types (displayed-written (op_s_loadas dst) t tt)
types-displayed (op_pseudo_push c r) t q = ap types (displayed-written (op_pseudo_push c r) t tt)
types-displayed (op_pseudo_pop c r) t q = ap types (displayed-written (op_pseudo_pop c r) t tt)

module _ (fresh : ℕ → ℕ → ℕ) (ctx : EmitContext) (aligned : IsAligned ctx)
    (small : ctx.size + 512 < 2 ^ 32) where
  -- A statement of the grammar with a number of 16 bits, that is none of the irregular ones, in an
  -- aligned dynamic buffer below four gigabytes with memory available: if its data is below 4096 where
  -- the format has 12 bits, and its operation is CMP where data stands for the second register, the action
  -- emits four bytes behind what is there, which the disassembler lists as the statement, with its
  -- condition, its operation, its registers of their widths, and its data; PUSH and POP as STOREMA and
  -- LOADMA of the one register. Otherwise the assembler exits with the status 255.
  pub instruction-Lists :
      (st : Statement)
      → IsLexed st
      → IsTyped st
      → IsRegular st
      → (accepted st ≡ true → Lists ctx (written st) (instruction (available fresh) st ctx))
        × (accepted st ≡ false → instruction (available fresh) st ctx ≡ exited 255)
  instruction-Lists st h t q =
      let (emits, exits) = instruction_lem fresh ctx aligned small st h in
      (
        λ k.
            subst (λ d. Lists ctx d (instruction (available fresh) st ctx)) (shown-meaning st t q k)
              (Emits-Lists ctx (meaning st) _ (emits k)),
        exits,
      )

  -- Types are preserved: the line that is listed of an accepted statement of the grammar has the
  -- statement's own operation and condition, and each of its operands is of the same token as the one
  -- that is written at its place, a REG32, REG16, REG8 or CREG, or data of 12 or of 16 bits. This holds
  -- for the irregular statements too, except where MOVTC or MOVFC has its operands the wrong way round.
  -- The number has 16 bits, and the buffer is aligned, dynamic and below four gigabytes, with memory
  -- available.
  pub instruction-IsTyped :
      (st : Statement)
      → IsLexed st
      → IsTyped st
      → IsOriented st
      → accepted st ≡ true
      → (d : Disassembly) × Lists ctx d (instruction (available fresh) st ctx)
        × (d.opcode_str ≡ (written st).opcode_str)
        × (d.condition_str ≡ (written st).condition_str)
        × (types d.arguments ≡ types (written st).arguments)
  instruction-IsTyped st h t q k =
      let line = shown_line st t k (displayed st) refl in
      (
        shown (meaning st),
        Emits-Lists ctx (meaning st) _ ((instruction_lem fresh ctx aligned small st h).0 k),
        ap (λ d. d.opcode_str) line,
        ap (λ d. d.condition_str) line,
        ap (λ d. types d.arguments) line ∙ types-displayed st t q,
      )
