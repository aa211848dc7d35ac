-- ===== src/Assembler/Tokens.antt =====
-- The tokens of `src/assembler/vasm.l`: the texts of a class of tokens, which the lexer has put into
-- capitals, and the numbers. What glib's `g_ascii_strtoull` and `g_ascii_strtoll` read is given.
use Prim.Native.String.{String}
use text.Mathlib.Text as Text
use emylathor.Base.{
  ℕ, ℤ, pos, negsuc, Bool, false, List, [], ◌∷◌, ◌||◌, ltb, if◌then◌else◌, bit_or, u16, unsigned32,
  ◌<<<◌,
}
use emylathor.Base.Int.{ltb_ℤ}
use emylathor.Lookup.{get_reg_for_name}
use emylathor.Emit.{Emitted, emitted, exited}

-- Whether a text is in a class.
unfoldable pub is_token : List String → String → Bool
is_token [] s = false
is_token (name ∷ names) s = let rest = is_token names s in Text.◌==◌ s name || rest

abbrev pub reg32_tokens : List String
reg32_tokens =
    "R0" ∷ "R1" ∷ "R2" ∷ "R3" ∷ "R4" ∷ "R5" ∷ "R6" ∷ "R7" ∷ "R8" ∷ "R9" ∷ "RA" ∷ "RB" ∷ "RC" ∷ "BP"
    ∷ "SP" ∷ "FLGS" ∷ []

abbrev pub reg16_tokens : List String
reg16_tokens =
    "R0L" ∷ "R0H" ∷ "R1L" ∷ "R1H" ∷ "R2L" ∷ "R2H" ∷ "R3L" ∷ "R3H" ∷ "R4L" ∷ "R4H" ∷ "R5L" ∷ "R5H"
    ∷ "R6L" ∷ "R6H" ∷ "R7L" ∷ "R7H" ∷ []

abbrev pub reg8_tokens : List String
reg8_tokens =
    "R0LL" ∷ "R0LH" ∷ "R0HL" ∷ "R0HH" ∷ "R1LL" ∷ "R1LH" ∷ "R1HL" ∷ "R1HH" ∷ "R2LL" ∷ "R2LH" ∷ "R2HL"
    ∷ "R2HH" ∷ "R3LL" ∷ "R3LH" ∷ "R3HL" ∷ "R3HH" ∷ []

abbrev pub creg_tokens : List String
creg_tokens =
    "MR1" ∷ "MR2" ∷ "MR3" ∷ "MR4" ∷ "CR1" ∷ "CR2" ∷ "SSP" ∷ "ST1" ∷ "ST2" ∷ "ST3" ∷ "ST4" ∷ []

abbrev pub op_fmt_i_tokens : List String
op_fmt_i_tokens = "IRET" ∷ "STOP" ∷ []

abbrev pub op_fmt_ii_tokens : List String
op_fmt_ii_tokens =
    "ADD" ∷ "AND" ∷ "DIV" ∷ "OR" ∷ "MOD" ∷ "MUL" ∷ "SAR" ∷ "SDIV" ∷ "SHL" ∷ "SHR" ∷ "SMUL" ∷ "SUB"
    ∷ "XOR" ∷ []

abbrev pub op_fmt_iv_tokens : List String
op_fmt_iv_tokens = "LOADMA" ∷ "STOREMA" ∷ []

abbrev pub op_fmt_v_tokens : List String
op_fmt_v_tokens = "CALL" ∷ "JMP" ∷ "TEST" ∷ []

abbrev pub op_fmt_vi_tokens : List String
op_fmt_vi_tokens = "CMP" ∷ "IN" ∷ "NOT" ∷ "OUT" ∷ "XCHG" ∷ []

abbrev pub op_fmt_vic_tokens : List String
op_fmt_vic_tokens = "MOVTC" ∷ "MOVFC" ∷ []

abbrev pub op_fmt_viii_tokens : List String
op_fmt_viii_tokens = "FAIL" ∷ "INT" ∷ []

abbrev pub condition_tokens : List String
condition_tokens =
    "NZNC" ∷ "NZNS" ∷ "IZ" ∷ "NZ" ∷ "IS" ∷ "NS" ∷ "IO" ∷ "NO" ∷ "IP" ∷ "NP" ∷ "IZIS" ∷ "IZIC" ∷ "IC"
    ∷ "NC" ∷ "NF" ∷ []

-- A number of INT that is written in hexadecimal digits.
unfoldable pub hex_to_dec : ℕ → Emitted ℕ
hex_to_dec parsed_long = if ltb 0xffff parsed_long then exited 1 else emitted parsed_long

-- A number of INT32 that is written in hexadecimal digits.
unfoldable pub hex_to_dec32 : ℕ → Emitted ℕ
hex_to_dec32 parsed_long = if ltb 0xffff_ffff parsed_long then exited 1 else emitted parsed_long

-- UNSIGNED16
abbrev pub unsigned16 : ℤ → ℕ
unsigned16 z = u16 (unsigned32 z)

-- A number of INT that is written in decimal digits, with a sign.
unfoldable pub to16_bit_int : ℤ → Emitted ℕ
to16_bit_int parsed_long =
    if ltb_ℤ (pos 32767) parsed_long || ltb_ℤ parsed_long (negsuc 32767)
    then exited 1
    else emitted (unsigned16 parsed_long)

-- A number of INT32 that is written in decimal digits, with a sign.
unfoldable pub to32_bit_int : ℤ → Emitted ℕ
to32_bit_int parsed_long =
    if ltb_ℤ (pos 2147483647) parsed_long || ltb_ℤ parsed_long (negsuc 2147483647)
    then exited 1
    else emitted (unsigned32 parsed_long)

-- `R1:R4`, the number of the first and of the last register. `strtok` has split the text.
unfoldable pub reg_range_to16bit_int : String → String → ℕ
unfolding get_reg_for_name
reg_range_to16bit_int start_reg end_reg =
    bit_or (u16 (bit_or 0x00 (get_reg_for_name start_reg) <<< 4)) (get_reg_for_name end_reg)
