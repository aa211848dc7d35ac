-- ===== src/Assembler/Regular.antt =====
-- The statements of `src/assembler/vasm.y` whose text is found again in what the disassembler shows.
use Prim.Native.String.{String}
use emylathor.Base.{ℕ, ◌≡◌, refl, ap, ◌∙◌, true, Option, none, some}
use emylathor.Disassembler.Arguments.{
  Arguments, fmt_reg_reg_reg, fmt_reg_reg, fmt_reg_reg_imm12, fmt_reg, fmt_reg_imm12, fmt_reg_imm16,
}
use emylathor.Disassembler.Arguments.Laws.{shown}
use emylathor.Lookup.{
  get_reg_for_name, get_creg_for_name, get_name_of_cond, get_name_of_reg, get_name_of_reg16,
  get_name_of_creg,
}
use emylathor.Assembler.{
  Width, reg32, reg16, reg8, Statement, op_fmt_i, op_fmt_ii, op_fmt_ii_int, op_fmt_iv, op_fmt_v,
  op_fmt_vi, op_fmt_vic_creg_reg, op_fmt_vic_reg_creg, op_fmt_vi_int, op_fmt_v_int, op_fmt_viii,
  op_s_cmpxchg, op_s_loadi_reg8, op_s_loadi_reg16, op_s_loadid, op_s_loadrd, op_s_mov,
  op_s_sex_reg8, op_s_sex_reg16, op_s_storeid, op_s_storerd, op_s_xchgc, op_s_storeas, op_s_loadas,
  op_pseudo_push, op_pseudo_pop, condition_code, reg_code, loadrd_codes, xchgc_code,
  loadrd_reg16_codes,
}
use emylathor.Assembler.Tokens.{is_token}
use emylathor.Assembler.Meaning.{meaning, accepted}
use emylathor.Assembler.Names.{
  name_of-reg_for, name_of-reg16_for, name_of-reg8_for, name_of-creg_for, name_of-cond_for,
}
use emylathor.Assembler.Listed.{written, condition_text, IsReg, IsCondition, IsTyped, IsRegular}
use emylathor.Assembler.Displayed.{
  reg_back, creg_back, width_back, vic_arguments, displayed, meaning-Shows,
}

-- A condition is shown as it is written.
condition_back :
    (c : Option String) → IsCondition c → get_name_of_cond (condition_code c) ≡ condition_text c
unfolding condition_code get_name_of_cond
condition_back none h = refl
condition_back (some c) h = name_of-cond_for c h

width_back_lem : (w : Width) (s : String) → IsReg w s → width_back w s ≡ s
unfolding reg_code
width_back_lem reg32 s h = name_of-reg_for s h
width_back_lem reg16 s h = name_of-reg16_for s h
width_back_lem reg8 s h = name_of-reg8_for s h

pub three :
    {x y z x₁ y₁ z₁ : String}
    → x ≡ x₁
    → y ≡ y₁
    → z ≡ z₁
    → fmt_reg_reg_reg x y z ≡ fmt_reg_reg_reg x₁ y₁ z₁
three p q r = cc (p, q, r)

pub two : {x y x₁ y₁ : String} → x ≡ x₁ → y ≡ y₁ → fmt_reg_reg x y ≡ fmt_reg_reg x₁ y₁
two p q = cc (p, q)

two_imm12 :
    {x y x₁ y₁ : String} {n : ℕ}
    → x ≡ x₁
    → y ≡ y₁
    → fmt_reg_reg_imm12 x y n ≡ fmt_reg_reg_imm12 x₁ y₁ n
two_imm12 p q = cc (p, q)

one_imm16 : {x x₁ : String} {n : ℕ} → x ≡ x₁ → fmt_reg_imm16 x n ≡ fmt_reg_imm16 x₁ n
one_imm16 p = cc (p)

vic_to :
    (op a b : String)
    → op ≡ "MOVTC"
    → creg_back a ≡ a
    → reg_back b ≡ b
    → vic_arguments op (get_creg_for_name a) (get_reg_for_name b) ≡ fmt_reg_reg a b
unfolding vic_arguments
vic_to op a b is p q =
    ap (λ o. vic_arguments o (get_creg_for_name a) (get_reg_for_name b)) is ∙ two p q

vic_from :
    (op a b : String)
    → op ≡ "MOVFC"
    → reg_back a ≡ a
    → creg_back b ≡ b
    → vic_arguments op (get_reg_for_name a) (get_creg_for_name b) ≡ fmt_reg_reg a b
unfolding vic_arguments
vic_from op a b is p q =
    ap (λ o. vic_arguments o (get_reg_for_name a) (get_creg_for_name b)) is ∙ two p q

xchgc :
    (c : Option String) (a b : String)
    → c ≡ none
    → reg_back a ≡ a
    → creg_back b ≡ b
    → fmt_reg_reg (reg_back a) (get_name_of_creg (xchgc_code c b)) ≡ fmt_reg_reg a b
unfolding xchgc_code
xchgc c a b same p q = two p (ap (λ x. get_name_of_creg (xchgc_code x b)) same ∙ q)

loadrd_reg16 :
    (c : Option String) (dst a b : String)
    → c ≡ none
    → width_back reg16 dst ≡ dst
    → reg_back a ≡ a
    → reg_back b ≡ b
    → fmt_reg_reg_reg
        (get_name_of_reg16 (loadrd_codes c reg16 dst b).0)
        (reg_back a)
        (get_name_of_reg (loadrd_codes c reg16 dst b).1)
      ≡ fmt_reg_reg_reg dst a b
unfolding loadrd_codes loadrd_reg16_codes reg_code
loadrd_reg16 c dst a b same p q r =
    three (ap (λ x. get_name_of_reg16 (loadrd_codes x reg16 dst b).0) same ∙ p) q
      (ap (λ x. get_name_of_reg (loadrd_codes x reg16 dst b).1) same ∙ r)

pub displayed-written :
    (st : Statement) → IsTyped st → IsRegular st → displayed st ≡ (written st).arguments
unfolding displayed written loadrd_codes reg_code is_token
displayed-written (op_fmt_i c op) t q = refl
displayed-written (op_fmt_ii c op dst a b) t q =
    three (name_of-reg_for dst t.2) (name_of-reg_for a t.3) (name_of-reg_for b t.4)
displayed-written (op_fmt_ii_int c op dst a n) t q =
    two_imm12 (name_of-reg_for dst t.2) (name_of-reg_for a t.3)
displayed-written (op_fmt_iv c op dst n) t q = one_imm16 (name_of-reg_for dst t.2)
displayed-written (op_fmt_v c op dst) t q = ap fmt_reg (name_of-reg_for dst t.2)
displayed-written (op_fmt_vi c op a b) t q = two (name_of-reg_for a t.2) (name_of-reg_for b t.3)
displayed-written (op_fmt_vic_creg_reg c op a b) t q =
    vic_to op a b q.0 (name_of-creg_for a q.1) (name_of-reg_for b t.3)
displayed-written (op_fmt_vic_reg_creg c op a b) t q =
    vic_from op a b q.0 (name_of-reg_for a t.2) (name_of-creg_for b q.1)
displayed-written (op_fmt_vi_int c op a n) t q = ap (λ x. fmt_reg_imm12 x n) (name_of-reg_for a t.2)
displayed-written (op_fmt_v_int c op n) t q = refl
displayed-written (op_fmt_viii c op n) t q = refl
displayed-written (op_s_cmpxchg c dst a b) t q =
    three (name_of-reg_for dst t.1) (name_of-reg_for a t.2) (name_of-reg_for b t.3)
displayed-written (op_s_loadi_reg8 c dst n) t q = one_imm16 (width_back_lem reg8 dst t.1)
displayed-written (op_s_loadi_reg16 c dst n) t q = one_imm16 (width_back_lem reg16 dst t.1)
displayed-written (op_s_loadid c w dst a n) t q =
    two_imm12 (width_back_lem w dst t.1) (name_of-reg_for a t.2)
displayed-written (op_s_loadrd c reg32 dst a b) t q =
    three (width_back_lem reg32 dst t.1) (name_of-reg_for a t.2) (name_of-reg_for b t.3)
displayed-written (op_s_loadrd c reg16 dst a b) t q =
    loadrd_reg16 c dst a b q (width_back_lem reg16 dst t.1) (name_of-reg_for a t.2)
      (name_of-reg_for b t.3)
displayed-written (op_s_loadrd c reg8 dst a b) t q =
    three (width_back_lem reg8 dst t.1) (name_of-reg_for a t.2) (name_of-reg_for b t.3)
displayed-written (op_s_mov c w a b) t q = two (width_back_lem w a t.1) (width_back_lem w b t.2)
displayed-written (op_s_sex_reg8 c a b) t q =
    two (name_of-reg_for a t.1) (width_back_lem reg8 b t.2)
displayed-written (op_s_sex_reg16 c a b) t q =
    two (name_of-reg_for a t.1) (width_back_lem reg16 b t.2)
displayed-written (op_s_storeid c w dst a n) t q =
    two_imm12 (name_of-reg_for dst t.1) (width_back_lem w a t.2)
displayed-written (op_s_storerd c w dst a b) t q =
    three (name_of-reg_for dst t.1) (width_back_lem w a t.2) (name_of-reg_for b t.3)
displayed-written (op_s_xchgc c a b) t q =
    xchgc c a b q.0 (name_of-reg_for a t.1) (name_of-creg_for b q.1)
displayed-written (op_s_storeas dst) t q = ap fmt_reg (name_of-reg_for dst t)
displayed-written (op_s_loadas dst) t q = ap fmt_reg (name_of-reg_for dst t)
displayed-written (op_pseudo_push c r) t q = one_imm16 (name_of-reg_for "SP" refl)
displayed-written (op_pseudo_pop c r) t q = one_imm16 (name_of-reg_for "SP" refl)

-- The condition of a statement.
written_condition :
    (st : Statement)
    → IsTyped st
    → get_name_of_cond (meaning st).condition ≡ (written st).condition_str
unfolding meaning written get_name_of_cond
written_condition (op_fmt_i c op) t = condition_back c t.0
written_condition (op_fmt_ii c op dst a b) t = condition_back c t.0
written_condition (op_fmt_ii_int c op dst a n) t = condition_back c t.0
written_condition (op_fmt_iv c op dst n) t = condition_back c t.0
written_condition (op_fmt_v c op dst) t = condition_back c t.0
written_condition (op_fmt_vi c op a b) t = condition_back c t.0
written_condition (op_fmt_vic_creg_reg c op a b) t = condition_back c t.0
written_condition (op_fmt_vic_reg_creg c op a b) t = condition_back c t.0
written_condition (op_fmt_vi_int c op a n) t = condition_back c t.0
written_condition (op_fmt_v_int c op n) t = condition_back c t.0
written_condition (op_fmt_viii c op n) t = condition_back c t.0
written_condition (op_s_cmpxchg c dst a b) t = condition_back c t.0
written_condition (op_s_loadi_reg8 c dst n) t = condition_back c t.0
written_condition (op_s_loadi_reg16 c dst n) t = condition_back c t.0
written_condition (op_s_loadid c w dst a n) t = condition_back c t.0
written_condition (op_s_loadrd c w dst a b) t = condition_back c t.0
written_condition (op_s_mov c w a b) t = condition_back c t.0
written_condition (op_s_sex_reg8 c a b) t = condition_back c t.0
written_condition (op_s_sex_reg16 c a b) t = condition_back c t.0
written_condition (op_s_storeid c w dst a n) t = condition_back c t.0
written_condition (op_s_storerd c w dst a b) t = condition_back c t.0
written_condition (op_s_xchgc c a b) t = condition_back c t.0
written_condition (op_s_storeas dst) t = refl
written_condition (op_s_loadas dst) t = refl
written_condition (op_pseudo_push c r) t = condition_back c t.0
written_condition (op_pseudo_pop c r) t = condition_back c t.0

-- What is shown of a statement, from what is shown of its operands.
pub shown_line :
    (st : Statement)
    → IsTyped st
    → accepted st ≡ true
    → (args : Arguments) → displayed st ≡ args
    → shown (meaning st) ≡ record (written st) { arguments = args }
shown_line st t k args same =
    meaning-Shows st t k
    ∙ ap
        (λ s. record {
          opcode_str = (written st).opcode_str;
          condition_str = s;
          arguments = displayed st;
        })
        (written_condition st t)
    ∙ ap (λ a. record (written st) { arguments = a }) same

pub shown-meaning :
    (st : Statement)
    → IsTyped st
    → IsRegular st
    → accepted st ≡ true
    → shown (meaning st) ≡ written st
shown-meaning st t q k = shown_line st t k _ (displayed-written st t q)
