-- ===== src/Lookup.antt =====
-- `src/common/lookup.c`: the tables of names and codes, and the two directions of each search. Where a
-- name is not found the source writes a warning, which is left out, and takes a default.
pub mod Tables
pub mod Laws
use Prim.Native.String.{String}
use text.Mathlib.Text as Text
use emylathor.Base.{ℕ, [], ◌∷◌, Option, none, some, ◌==◌, if◌then◌else◌, u8}
use emylathor.Lookup.Tables.{Table, oplkupbuf, creglkupbuf, reg32lkupbuf, reg16lkupbuf, reg8lkupbuf}

-- `for (i = 1; …; i += 2)`: the code of the first entry with the name, or the default.
unfoldable pub code_for_name : ℕ → String → Table → ℕ
code_for_name default name [] = default
code_for_name default name ((code, none) ∷ rest) = code_for_name default name rest
code_for_name default name ((code, some s) ∷ rest) =
    let others = code_for_name default name rest in if Text.◌==◌ s name then u8 code else others

abbrev pub not_available : String
not_available = "N/A"

abbrev name_or_na : Option String → String
name_or_na none = not_available
name_or_na (some s) = s

-- `for (i = 0; …; i += 2)`: the name at the first entry with the code.
pub name_of_code : ℕ → Table → String
name_of_code code [] = not_available
name_of_code code ((c, s) ∷ rest) =
    let others = name_of_code code rest in if u8 c == code then name_or_na s else others

unfoldable pub get_op_for_name : String → ℕ
unfolding code_for_name oplkupbuf
get_op_for_name name = code_for_name 0x00 name oplkupbuf

unfoldable pub get_creg_for_name : String → ℕ
unfolding code_for_name creglkupbuf
get_creg_for_name name = code_for_name 0x02 name creglkupbuf

unfoldable pub get_reg_for_name : String → ℕ
unfolding code_for_name reg32lkupbuf
get_reg_for_name name = code_for_name 0x00 name reg32lkupbuf

unfoldable pub get_reg16_for_name : String → ℕ
unfolding code_for_name reg16lkupbuf
get_reg16_for_name name = code_for_name 0x00 name reg16lkupbuf

unfoldable pub get_reg8_for_name : String → ℕ
unfolding code_for_name reg8lkupbuf
get_reg8_for_name name = code_for_name 0x00 name reg8lkupbuf

-- The prefix is not looked at.
unfoldable pub get_name_of_op : ℕ → ℕ → String
unfolding name_of_code oplkupbuf
get_name_of_op prefix op = name_of_code op oplkupbuf

unfoldable pub get_name_of_creg : ℕ → String
unfolding name_of_code creglkupbuf
get_name_of_creg reg = name_of_code reg creglkupbuf

unfoldable pub get_name_of_reg : ℕ → String
unfolding name_of_code reg32lkupbuf
get_name_of_reg reg = name_of_code reg reg32lkupbuf

unfoldable pub get_name_of_reg8 : ℕ → String
unfolding name_of_code reg8lkupbuf
get_name_of_reg8 reg = name_of_code reg reg8lkupbuf

unfoldable pub get_name_of_reg16 : ℕ → String
unfolding name_of_code reg16lkupbuf
get_name_of_reg16 reg = name_of_code reg reg16lkupbuf

unfoldable pub get_cond_for_name : String → ℕ
get_cond_for_name cond =
    if Text.◌==◌ cond "IS"
    then 0x03
    else if Text.◌==◌ cond "NS"
    then 0x04
    else if Text.◌==◌ cond "IZ"
    then 0x01
    else if Text.◌==◌ cond "NZ"
    then 0x02
    else if Text.◌==◌ cond "IP"
    then 0x07
    else if Text.◌==◌ cond "NP"
    then 0x08
    else if Text.◌==◌ cond "IO"
    then 0x05
    else if Text.◌==◌ cond "NO"
    then 0x06
    else if Text.◌==◌ cond "IZIS"
    then 0x09
    else if Text.◌==◌ cond "NZNS"
    then 0x0B
    else if Text.◌==◌ cond "IZIC"
    then 0x0A
    else if Text.◌==◌ cond "NZNC"
    then 0x0C
    else if Text.◌==◌ cond "IC"
    then 0x0D
    else if Text.◌==◌ cond "NC"
    then 0x0E
    else if Text.◌==◌ cond "NF"
    then 0x0F
    else 0x00

pub get_name_of_prefix : ℕ → String
get_name_of_prefix prefix =
    if prefix == 0x00
    then "DWORD"
    else if prefix == 0x01
    then "WORD"
    else if prefix == 0x02
    then "BYTE"
    else if prefix == 0x03
    then "IMM"
    else not_available

unfoldable pub get_name_of_cond : ℕ → String
get_name_of_cond cond =
    if cond == 0x00
    then ""
    else if cond == 0x03
    then "IS"
    else if cond == 0x04
    then "NS"
    else if cond == 0x01
    then "IZ"
    else if cond == 0x02
    then "NZ"
    else if cond == 0x05
    then "IO"
    else if cond == 0x06
    then "NO"
    else if cond == 0x07
    then "IP"
    else if cond == 0x08
    then "NP"
    else if cond == 0x09
    then "IZIS"
    else if cond == 0x0A
    then "IZIC"
    else if cond == 0x0B
    then "NZNS"
    else if cond == 0x0C
    then "NZNC"
    else if cond == 0x0D
    then "IC"
    else if cond == 0x0E
    then "NC"
    else if cond == 0x0F
    then "NF"
    else not_available
