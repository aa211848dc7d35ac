-- ===== src/Lookup/Tables.antt =====
-- The tables of `src/common/lookup.c`, pair by pair.
use Prim.Native.String.{String}
use emylathor.Base.{ℕ, zero, suc, List, [], ◌∷◌, Option, none, some}

-- Two neighbours of a table: a code and a name, or two NULLs, whose code is 0.
abbrev pub Table : Type 0
Table = List (ℕ × Option String)

abbrev entry : ℕ → String → ℕ × Option String
entry code name = (code, some name)

abbrev null : ℕ × Option String
null = (0, none)

abbrev nulls : ℕ → Table
nulls zero = []
nulls (suc n) = null ∷ nulls n

-- The operations; the rest of the 64 pairs is NULL.
unfoldable pub oplkupbuf : Table
oplkupbuf =
    entry 0x00 "STOP"
    ∷ entry 0x01 "FAIL"
    ∷ null
    ∷ null
    ∷ entry 0x04 "IRET"
    ∷ null
    ∷ entry 0x06 "LOADI"
    ∷ null
    ∷ entry 0x08 "STOREMA"
    ∷ entry 0x09 "LOADMA"
    ∷ entry 0x0a "INT"
    ∷ entry 0x0b "JMP"
    ∷ entry 0x0c "CALL"
    ∷ entry 0x0d "STOREAS"
    ∷ entry 0x0e "LOADAS"
    ∷ null
    ∷ entry 0x10 "SMUL"
    ∷ entry 0x11 "SDIV"
    ∷ entry 0x12 "NOT"
    ∷ null
    ∷ entry 0x14 "SEX"
    ∷ entry 0x15 "MOD"
    ∷ entry 0x16 "TEST"
    ∷ null
    ∷ entry 0x18 "CMP"
    ∷ entry 0x19 "IN"
    ∷ entry 0x1a "MOV"
    ∷ entry 0x1b "CMPXCHG"
    ∷ null
    ∷ entry 0x1d "MOVTC"
    ∷ entry 0x1e "MOVFC"
    ∷ entry 0x1f "SAR"
    ∷ entry 0x20 "XCHG"
    ∷ entry 0x21 "AND"
    ∷ entry 0x22 "OR"
    ∷ entry 0x23 "XOR"
    ∷ entry 0x24 "SHL"
    ∷ entry 0x25 "SHR"
    ∷ entry 0x26 "LOADID"
    ∷ entry 0x27 "LOADRD"
    ∷ entry 0x28 "STOREID"
    ∷ entry 0x29 "STORERD"
    ∷ entry 0x2a "ADD"
    ∷ entry 0x2b "SUB"
    ∷ entry 0x2c "MUL"
    ∷ entry 0x2d "DIV"
    ∷ entry 0x2e "OUT"
    ∷ entry 0x2f "XCHGC"
    ∷ nulls 16

-- The control registers, as the source has them: ST2, ST3 and ST4 stand with the code of ST1.
unfoldable pub creglkupbuf : Table
creglkupbuf =
    entry 0x00 "MR1"
    ∷ entry 0x01 "MR2"
    ∷ entry 0x02 "CR1"
    ∷ entry 0x03 "CR2"
    ∷ entry 0x04 "SSP"
    ∷ entry 0x05 "MR3"
    ∷ entry 0x06 "MR4"
    ∷ entry 0x07 "ST1"
    ∷ entry 0x07 "ST2"
    ∷ entry 0x07 "ST3"
    ∷ entry 0x07 "ST4"
    ∷ nulls 5

-- The registers.
unfoldable pub reg32lkupbuf : Table
reg32lkupbuf =
    entry 0x00 "R0"
    ∷ entry 0x01 "R1"
    ∷ entry 0x02 "R2"
    ∷ entry 0x03 "R3"
    ∷ entry 0x04 "R4"
    ∷ entry 0x05 "R5"
    ∷ entry 0x06 "R6"
    ∷ entry 0x07 "R7"
    ∷ entry 0x08 "R8"
    ∷ entry 0x09 "R9"
    ∷ entry 0x0a "RA"
    ∷ entry 0x0b "RB"
    ∷ entry 0x0c "RC"
    ∷ entry 0x0d "BP"
    ∷ entry 0x0e "SP"
    ∷ entry 0x0f "FLGS"
    ∷ []

-- The word registers.
unfoldable pub reg16lkupbuf : Table
reg16lkupbuf =
    entry 0x00 "R0L"
    ∷ entry 0x01 "R0H"
    ∷ entry 0x02 "R1L"
    ∷ entry 0x03 "R1H"
    ∷ entry 0x04 "R2L"
    ∷ entry 0x05 "R2H"
    ∷ entry 0x06 "R3L"
    ∷ entry 0x07 "R3H"
    ∷ entry 0x08 "R4L"
    ∷ entry 0x09 "R4H"
    ∷ entry 0x0a "R5L"
    ∷ entry 0x0b "R5H"
    ∷ entry 0x0c "R6L"
    ∷ entry 0x0d "R6H"
    ∷ entry 0x0e "R7L"
    ∷ entry 0x0f "R7H"
    ∷ []

-- The byte registers.
unfoldable pub reg8lkupbuf : Table
reg8lkupbuf =
    entry 0x00 "R0LL"
    ∷ entry 0x01 "R0LH"
    ∷ entry 0x02 "R0HL"
    ∷ entry 0x03 "R0HH"
    ∷ entry 0x04 "R1LL"
    ∷ entry 0x05 "R1LH"
    ∷ entry 0x06 "R1HL"
    ∷ entry 0x07 "R1HH"
    ∷ entry 0x08 "R2LL"
    ∷ entry 0x09 "R2LH"
    ∷ entry 0x0a "R2HL"
    ∷ entry 0x0b "R2HH"
    ∷ entry 0x0c "R3LL"
    ∷ entry 0x0d "R3LH"
    ∷ entry 0x0e "R3HL"
    ∷ entry 0x0f "R3HH"
    ∷ []
