-- ===== src/Assembler.antt =====
-- The instructions of `src/assembler/vasm.y`: a statement as the grammar has read it, and its action.
--
-- The lexer and the parser are input of flex and bison. A statement here is an alternative of `exp`
-- with the texts and numbers of its tokens; a condition is there or not.
pub mod Tokens
pub mod Names
pub mod Numbers
pub mod Instruction
pub mod Meaning
pub mod Format
pub mod Encode
pub mod Listed
pub mod Shows
pub mod Displayed
pub mod Lists
pub mod Program
pub mod Typed
pub mod Regular
pub mod Irregular
pub mod Image
pub mod Sequence
pub mod RoundTrip
pub mod Execution
pub mod Options
use Prim.Native.String.{String}
use text.Mathlib.Text as Text
use emylathor.Base.{ℕ, Option, none, some, ◌==◌, if◌then◌else◌, bit_and, bit_or, u8, ◌<<<◌}
use emylathor.Lookup.{
  get_cond_for_name, get_reg_for_name, get_reg16_for_name, get_reg8_for_name, get_creg_for_name,
}
use emylathor.Emit.{EmitContext, Emitted, emitted, exited}

-- The tokens REG32, REG16 and REG8, where the alternatives of an operation differ in them.
pub data Width : Type 0 where
  reg32 reg16 reg8 : Width

-- The name of an alternative is its first token, with what tells it from the others behind it; its
-- arguments are the condition and the operands, in the order in which they are written.
pub data Statement : Type 0 where
  op_fmt_i : Option String → String → Statement
  op_fmt_ii : Option String → String → String → String → String → Statement
  op_fmt_ii_int : Option String → String → String → String → ℕ → Statement
  op_fmt_iv : Option String → String → String → ℕ → Statement
  op_fmt_v : Option String → String → String → Statement
  op_fmt_vi : Option String → String → String → String → Statement
  op_fmt_vic_creg_reg : Option String → String → String → String → Statement
  op_fmt_vic_reg_creg : Option String → String → String → String → Statement
  op_fmt_vi_int : Option String → String → String → ℕ → Statement
  op_fmt_v_int : Option String → String → ℕ → Statement
  op_fmt_viii : Option String → String → ℕ → Statement
  op_s_cmpxchg : Option String → String → String → String → Statement
  op_s_loadi_reg8 : Option String → String → ℕ → Statement
  op_s_loadi_reg16 : Option String → String → ℕ → Statement
  op_s_loadid : Option String → Width → String → String → ℕ → Statement
  op_s_loadrd : Option String → Width → String → String → String → Statement
  op_s_mov : Option String → Width → String → String → Statement
  op_s_sex_reg8 : Option String → String → String → Statement
  op_s_sex_reg16 : Option String → String → String → Statement
  op_s_storeid : Option String → Width → String → String → ℕ → Statement
  op_s_storerd : Option String → Width → String → String → String → Statement
  op_s_xchgc : Option String → String → String → Statement
  op_s_storeas : String → Statement
  op_s_loadas : String → Statement
  op_pseudo_push : Option String → String → Statement
  op_pseudo_pop : Option String → String → Statement

-- COND_ALWAYS, or the condition that is written.
unfoldable pub condition_code : Option String → ℕ
unfolding get_cond_for_name
condition_code none = 0x00
condition_code (some cond) = get_cond_for_name cond

-- PREFIX_DWORD, PREFIX_WORD and PREFIX_BYTE
pub prefix_of : Width → ℕ
prefix_of reg32 = 0x00
prefix_of reg16 = 0x01
prefix_of reg8 = 0x02

-- The search that belongs to the token.
pub reg_code : Width → String → ℕ
unfolding get_reg_for_name get_reg16_for_name get_reg8_for_name
reg_code reg32 name = get_reg_for_name name
reg_code reg16 name = get_reg16_for_name name
reg_code reg8 name = get_reg8_for_name name

-- `yyerror` exits with -1, of which the status keeps 8 bits.
pub check_if_valid_12_bit : ℕ → EmitContext → Emitted EmitContext
check_if_valid_12_bit n ctx = if bit_and n 0xF000 == 0 then emitted ctx else exited 255

-- `strcmp($1, "CMP")`
pub check_is_cmp : String → EmitContext → Emitted EmitContext
check_is_cmp op ctx = if Text.◌==◌ op "CMP" then emitted ctx else exited 255

-- `(get_reg_for_name(r) << 4u) | (get_reg_for_name(r))`, as a byte.
pub stack_range : String → ℕ
unfolding get_reg_for_name
stack_range r = u8 (bit_or (get_reg_for_name r <<< 4) (get_reg_for_name r))

-- The code of the third operand of LOADRD with a REG16 and its first: the alternative with a condition
-- searches the two among other registers than the one without.
pub loadrd_reg16_codes : Option String → String → String → ℕ × ℕ
unfolding get_reg_for_name get_reg16_for_name get_reg8_for_name
loadrd_reg16_codes none dst b = (get_reg16_for_name dst, get_reg_for_name b)
loadrd_reg16_codes (some cond) dst b = (get_reg8_for_name dst, get_reg16_for_name b)

-- LOADRD: the codes of the register to load and of the second address.
pub loadrd_codes : Option String → Width → String → String → ℕ × ℕ
unfolding loadrd_reg16_codes reg_code get_reg_for_name
loadrd_codes c reg16 dst b = loadrd_reg16_codes c dst b
loadrd_codes c reg32 dst b = (reg_code reg32 dst, get_reg_for_name b)
loadrd_codes c reg8 dst b = (reg_code reg8 dst, get_reg_for_name b)

-- XCHGC: the code of the control register, which the alternative with a condition searches among the
-- byte registers.
pub xchgc_code : Option String → String → ℕ
unfolding get_creg_for_name get_reg8_for_name
xchgc_code none b = get_creg_for_name b
xchgc_code (some cond) b = get_reg8_for_name b
