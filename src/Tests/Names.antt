-- ===== src/Tests/Names.antt =====
-- The tables of names, and the text of the disassembler.
use Prim.Native.String.{String}
use emylathor.Base.{arith, refl, ℕ, ◌<◌, ◌≡◌, ◌≤◌}
use emylathor.Decode.{decode_bytes}
use emylathor.Lookup.{get_creg_for_name, get_name_of_creg, get_reg_for_name, not_available}
use emylathor.Lookup.Laws.{get_creg_for_name-get_name_of_creg}
use emylathor.Disassembler.Arguments.{fmt_reg_reg_reg, vasmdis_disasm_instruction}
use emylathor.Disassembler.Arguments.Laws.{HeadReadsBack, disasm_three_registers}

get_creg_for_name-get_name_of_creg_example :
    let code : ℕ = 9 in
    (code < 8 → get_creg_for_name (get_name_of_creg code) ≡ code)
    × (8 ≤ code → get_name_of_creg code ≡ not_available)
    × (get_creg_for_name "ST2" ≡ get_creg_for_name "ST1")
    × (get_creg_for_name "ST3" ≡ get_creg_for_name "ST1")
    × (get_creg_for_name "ST4" ≡ get_creg_for_name "ST1")
get_creg_for_name-get_name_of_creg_example = get_creg_for_name-get_name_of_creg 9 (omega arith)

disasm_three_registers_example :
    let b0 : ℕ = 0x2a in
    let b1 : ℕ = 0x53 in
    let b2 : ℕ = 0x12 in
    let b3 : ℕ = 0x00 in
    (x y z : String) × ((vasmdis_disasm_instruction b0 b1 b2 b3).arguments ≡ fmt_reg_reg_reg x y z)
    × (get_reg_for_name x ≡ (decode_bytes b0 b1 b2 b3).dst)
    × (get_reg_for_name y ≡ (decode_bytes b0 b1 b2 b3).opa)
    × (get_reg_for_name z ≡ (decode_bytes b0 b1 b2 b3).opb)
    × HeadReadsBack (vasmdis_disasm_instruction b0 b1 b2 b3) (decode_bytes b0 b1 b2 b3)
unfolding decode_bytes
disasm_three_registers_example =
    disasm_three_registers 0x2a 0x53 0x12 0x00 (omega arith) (omega arith) (omega arith)
      (omega arith) refl refl
