-- ===== src/Assembler/Names.antt =====
-- The codes and the names of the tokens.
use Prim.Native.String.{String}
use text.Mathlib.Text as Text
use text.Mathlib.TextEquality.{eq_iff}
use mathlib.Core.Path.{subst}
use mathlib.Core.Bool.{false≢true}
use emylathor.Base.{
  ℕ, ◌*◌, ◌^◌, ◌<◌, ◌≡◌, sym, Bool, true, Option, none, some, List, [], ◌∷◌, inl, inr, arith,
  Bool-cases, if◌then◌else◌,
}
use emylathor.Base.Bits.Shift.{bit_or-add}
use emylathor.Lookup.Tables.{Table, oplkupbuf, creglkupbuf, reg32lkupbuf, reg16lkupbuf, reg8lkupbuf}
use emylathor.Lookup.{
  code_for_name, get_op_for_name, get_creg_for_name, get_reg_for_name, get_reg16_for_name,
  get_reg8_for_name, get_cond_for_name, get_name_of_cond, get_name_of_reg, get_name_of_reg16,
  get_name_of_reg8, get_name_of_creg,
}
use emylathor.Assembler.{
  Width, reg32, reg16, reg8, condition_code, reg_code, prefix_of, stack_range,
}
use emylathor.Assembler.Tokens.{is_token, reg32_tokens, reg16_tokens, reg8_tokens, condition_tokens}

-- A property of every text of a class.
abbrev pub Each : (String → Type 0) → List String → Type 0
Each P [] = Unit
Each P (name ∷ names) = P name × Each P names

pub is_token_lem :
    (P : String → Type 0) (names : List String) (s : String)
    → Each P names
    → is_token names s ≡ true
    → P s
unfolding is_token
is_token_lem P [] s each h = absurd (false≢true h)
is_token_lem P (name ∷ names) s (here, later) h = elim (Bool-cases (Text.◌==◌ s name)) [
  | inl same ↦ subst P (sym ((eq_iff s name).0 same)) here
  | inr other ↦ is_token_lem P names s later (ground (arith, other))
]

-- Every code of a table is below a bound.
abbrev Below : ℕ → Table → Type 0
Below n [] = Unit
Below n ((code, _) ∷ rest) = (code < n) × Below n rest

code_for_name-lt :
    (n default : ℕ) (name : String) (t : Table)
    → default < n
    → Below n t
    → code_for_name default name t < n
unfolding code_for_name
code_for_name-lt n default name [] h b = h
code_for_name-lt n default name ((code, none) ∷ rest) h (c, b) =
    code_for_name-lt n default name rest h b
code_for_name-lt n default name ((code, some s) ∷ rest) h (c, b) =
    ground (arith, code_for_name-lt n default name rest h b)

pub get_op_for_name-lt : (name : String) → get_op_for_name name < 2 ^ 6
unfolding get_op_for_name oplkupbuf
get_op_for_name-lt name = code_for_name-lt 64 0 name oplkupbuf (omega arith) (ground arith)

pub get_reg_for_name-lt : (name : String) → get_reg_for_name name < 2 ^ 4
unfolding get_reg_for_name reg32lkupbuf
get_reg_for_name-lt name = code_for_name-lt 16 0 name reg32lkupbuf (omega arith) (ground arith)

pub get_reg16_for_name-lt : (name : String) → get_reg16_for_name name < 2 ^ 4
unfolding get_reg16_for_name reg16lkupbuf
get_reg16_for_name-lt name = code_for_name-lt 16 0 name reg16lkupbuf (omega arith) (ground arith)

pub get_reg8_for_name-lt : (name : String) → get_reg8_for_name name < 2 ^ 4
unfolding get_reg8_for_name reg8lkupbuf
get_reg8_for_name-lt name = code_for_name-lt 16 0 name reg8lkupbuf (omega arith) (ground arith)

pub get_creg_for_name-lt : (name : String) → get_creg_for_name name < 2 ^ 4
unfolding get_creg_for_name creglkupbuf
get_creg_for_name-lt name = code_for_name-lt 16 2 name creglkupbuf (omega arith) (ground arith)

either : (b : Bool) (x y : ℕ) → x < 2 ^ 4 → y < 2 ^ 4 → (if b then x else y) < 2 ^ 4
either b x y h k = ground arith

pub condition_code-lt : (c : Option String) → condition_code c < 2 ^ 4
unfolding condition_code get_cond_for_name
condition_code-lt none = omega arith
condition_code-lt (some c) = either _ 3 _ (omega arith) (
    either _ 4 _ (omega arith) (
      either _ 1 _ (omega arith) (
        either _ 2 _ (omega arith) (
          either _ 7 _ (omega arith) (
            either _ 8 _ (omega arith) (
              either _ 5 _ (omega arith) (
                either _ 6 _ (omega arith) (
                  either _ 9 _ (omega arith) (
                    either _ 11 _ (omega arith) (
                      either _ 10 _ (omega arith) (
                        either _ 12 _ (omega arith) (
                          either _ 13 _ (omega arith) (
                            either _ 14 _ (omega arith)
                              (either _ 15 0 (omega arith) (omega arith)))))))))))))))

pub reg_code-lt : (w : Width) (name : String) → reg_code w name < 2 ^ 4
unfolding reg_code
reg_code-lt reg32 name = get_reg_for_name-lt name
reg_code-lt reg16 name = get_reg16_for_name-lt name
reg_code-lt reg8 name = get_reg8_for_name-lt name

pub prefix_of-lt : (w : Width) → prefix_of w < 2 ^ 2
unfolding prefix_of
prefix_of-lt reg32 = omega arith
prefix_of-lt reg16 = omega arith
prefix_of-lt reg8 = omega arith

-- The range of one register.
pub stack_range_lem : (r : String) → stack_range r ≡ get_reg_for_name r * 17
unfolding stack_range
stack_range_lem r = omega (
  arith,
  bit_or-add 4 (get_reg_for_name r) (get_reg_for_name r) (get_reg_for_name-lt r),
  get_reg_for_name-lt r,
)

-- Every name of a register that the lexer knows is found again, and so is a condition.
pub name_of-reg_for :
    (s : String) → is_token reg32_tokens s ≡ true → get_name_of_reg (get_reg_for_name s) ≡ s
unfolding get_name_of_reg get_reg_for_name
name_of-reg_for s h =
    is_token_lem (λ n. get_name_of_reg (get_reg_for_name n) ≡ n) reg32_tokens s (ground arith) h

pub name_of-reg16_for :
    (s : String) → is_token reg16_tokens s ≡ true → get_name_of_reg16 (get_reg16_for_name s) ≡ s
unfolding get_name_of_reg16 get_reg16_for_name
name_of-reg16_for s h =
    is_token_lem (λ n. get_name_of_reg16 (get_reg16_for_name n) ≡ n) reg16_tokens s (ground arith) h

pub name_of-reg8_for :
    (s : String) → is_token reg8_tokens s ≡ true → get_name_of_reg8 (get_reg8_for_name s) ≡ s
unfolding get_name_of_reg8 get_reg8_for_name
name_of-reg8_for s h =
    is_token_lem (λ n. get_name_of_reg8 (get_reg8_for_name n) ≡ n) reg8_tokens s (ground arith) h

pub name_of-creg_for :
    (s : String)
    → is_token ("MR1" ∷ "MR2" ∷ "MR3" ∷ "MR4" ∷ "CR1" ∷ "CR2" ∷ "SSP" ∷ "ST1" ∷ []) s ≡ true
    → get_name_of_creg (get_creg_for_name s) ≡ s
unfolding get_name_of_creg get_creg_for_name
name_of-creg_for s h =
    is_token_lem (λ n. get_name_of_creg (get_creg_for_name n) ≡ n)
      ("MR1" ∷ "MR2" ∷ "MR3" ∷ "MR4" ∷ "CR1" ∷ "CR2" ∷ "SSP" ∷ "ST1" ∷ []) s (ground arith) h

pub name_of-cond_for :
    (s : String) → is_token condition_tokens s ≡ true → get_name_of_cond (get_cond_for_name s) ≡ s
unfolding get_name_of_cond get_cond_for_name
name_of-cond_for s h =
    is_token_lem (λ n. get_name_of_cond (get_cond_for_name n) ≡ n) condition_tokens s (ground arith)
      h

-- A number of `k` bits.
abbrev pub Field : ℕ → Type 0
Field k = (n : ℕ) × (n < 2 ^ k)

abbrev pub op_field : String → Field 6
op_field op = (get_op_for_name op, get_op_for_name-lt op)

abbrev pub reg_field : String → Field 4
reg_field name = (get_reg_for_name name, get_reg_for_name-lt name)

abbrev pub reg16_field : String → Field 4
reg16_field name = (get_reg16_for_name name, get_reg16_for_name-lt name)

abbrev pub reg8_field : String → Field 4
reg8_field name = (get_reg8_for_name name, get_reg8_for_name-lt name)

abbrev pub creg_field : String → Field 4
creg_field name = (get_creg_for_name name, get_creg_for_name-lt name)

abbrev pub width_field : Width → String → Field 4
width_field w name = (reg_code w name, reg_code-lt w name)

abbrev pub condition_field : Option String → Field 4
condition_field c = (condition_code c, condition_code-lt c)

abbrev pub prefix_field : Width → Field 2
prefix_field w = (prefix_of w, prefix_of-lt w)

abbrev pub no_field : Field 4
no_field = (0, omega arith)
