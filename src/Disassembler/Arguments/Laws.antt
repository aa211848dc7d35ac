-- ===== src/Disassembler/Arguments/Laws.antt =====
-- The text of the disassembler against the assembler's tables and the emulator's decoder.
use Prim.Native.String.{String}
use emylathor.Base.{ℕ, ◌<◌, ◌^◌, ◌≡◌, refl, ap, ◌∙◌, Bool, true, not, ◌||◌, ◌==◌, arith}
use emylathor.Machine.{Instruction}
use emylathor.Decode.{decode_bytes}
use emylathor.Decode.Laws.{decode_bytes-IsEncoded}
use emylathor.Lookup.{
  get_name_of_op, get_name_of_cond, get_name_of_reg, get_op_for_name, get_cond_for_name,
  get_reg_for_name,
}
use emylathor.Lookup.Laws.{all_below, all_below_sound, names_round_trip}
use emylathor.Disassembler.{as_disassembled, vasmdis_bytes_to_instruction-decode_bytes}
use emylathor.Disassembler.Arguments.{
  fmt_reg_reg_reg, fmt_reg_reg_imm12, any_of, three_registers, two_registers_imm12,
  decode_dword_prefix_ops, decode_immediate_prefix_ops, decode_instruction_arguments, Disassembly,
  vasmdis_disasm_instruction,
}

-- What an instruction is shown as.
abbrev pub shown : Instruction → Disassembly
shown ins = record {
  opcode_str = get_name_of_op ins.prefix ins.opcode;
  condition_str = get_name_of_cond ins.condition;
  arguments = decode_instruction_arguments (as_disassembled ins);
}

three_registers_args :
    (ins : Instruction)
    → ins.prefix ≡ 0
    → any_of three_registers ins.opcode ≡ true
    → decode_instruction_arguments (as_disassembled ins)
      ≡ fmt_reg_reg_reg
          (get_name_of_reg ins.dst)
          (get_name_of_reg ins.opa)
          (get_name_of_reg ins.opb)
unfolding decode_instruction_arguments decode_dword_prefix_ops
three_registers_args ins p h = ground arith

imm12_args :
    (ins : Instruction)
    → ins.prefix ≡ 3
    → any_of two_registers_imm12 ins.opcode ≡ true
    → decode_instruction_arguments (as_disassembled ins)
      ≡ fmt_reg_reg_imm12 (get_name_of_reg ins.dst) (get_name_of_reg ins.opa) ins.imm12
unfolding decode_instruction_arguments decode_immediate_prefix_ops
imm12_args ins p h = ground arith

named_test :
    (prefix op : ℕ)
    → op < 2 ^ 6
    → not (any_of three_registers op || any_of two_registers_imm12 op)
        || (get_op_for_name (get_name_of_op prefix op) == op)
      ≡ true
unfolding all_below get_op_for_name get_name_of_op
named_test prefix op h =
    all_below_sound 64
      (λ x.
        not (any_of three_registers x || any_of two_registers_imm12 x)
        || (get_op_for_name (get_name_of_op prefix x) == x))
      op refl h

or_left : (a b : Bool) → a ≡ true → (a || b) ≡ true
or_left a b h = ground (arith)

or_right : (a b : Bool) → b ≡ true → (a || b) ≡ true
or_right a b h = ground (arith)

-- The operations of both cases are found again by their names.
named :
    (prefix op : ℕ)
    → op < 2 ^ 6
    → (any_of three_registers op || any_of two_registers_imm12 op) ≡ true
    → get_op_for_name (get_name_of_op prefix op) ≡ op
named prefix op h k = ground (arith, named_test prefix op h)

-- The instruction that is shown is the one that is executed.
pub shown_lem :
    (b0 b1 b2 b3 : ℕ)
    → b0 < 2 ^ 8
    → b1 < 2 ^ 8
    → b2 < 2 ^ 8
    → b3 < 2 ^ 8
    → vasmdis_disasm_instruction b0 b1 b2 b3 ≡ shown (decode_bytes b0 b1 b2 b3)
unfolding vasmdis_disasm_instruction
shown_lem b0 b1 b2 b3 h0 h1 h2 h3 =
    ap
      (λ i. record {
        opcode_str = get_name_of_op i.prefix i.opcode;
        condition_str = get_name_of_cond i.condition;
        arguments = decode_instruction_arguments i;
      })
      (vasmdis_bytes_to_instruction-decode_bytes b0 b1 b2 b3 h0 h1 h2 h3)

-- What the assembler reads in the shown operation and condition are the ones of the instruction.
abbrev pub HeadReadsBack : Disassembly → Instruction → Type 0
HeadReadsBack d ins =
    (get_op_for_name d.opcode_str ≡ ins.opcode)
    × (get_cond_for_name d.condition_str ≡ ins.condition)

-- Any four bytes with a dword prefix and an operation of three registers (the arithmetic, bitwise and
-- shift operations, LOADRD, STORERD and CMPXCHG) are shown with an operation, a condition and three
-- register names that the assembler reads as those that the emulator decodes and executes.
pub disasm_three_registers :
    (b0 b1 b2 b3 : ℕ)
    → b0 < 2 ^ 8
    → b1 < 2 ^ 8
    → b2 < 2 ^ 8
    → b3 < 2 ^ 8
    → (decode_bytes b0 b1 b2 b3).prefix ≡ 0
    → any_of three_registers (decode_bytes b0 b1 b2 b3).opcode ≡ true
    → (x y z : String) × ((vasmdis_disasm_instruction b0 b1 b2 b3).arguments
        ≡ fmt_reg_reg_reg x y z)
      × (get_reg_for_name x ≡ (decode_bytes b0 b1 b2 b3).dst)
      × (get_reg_for_name y ≡ (decode_bytes b0 b1 b2 b3).opa)
      × (get_reg_for_name z ≡ (decode_bytes b0 b1 b2 b3).opb)
      × HeadReadsBack (vasmdis_disasm_instruction b0 b1 b2 b3) (decode_bytes b0 b1 b2 b3)
disasm_three_registers b0 b1 b2 b3 h0 h1 h2 h3 p k =
    let ins = decode_bytes b0 b1 b2 b3 in
    let c = decode_bytes-IsEncoded b0 b1 b2 b3 h0 h1 h2 h3 in
    let eq = shown_lem b0 b1 b2 b3 h0 h1 h2 h3 in
    (
      get_name_of_reg ins.dst,
      get_name_of_reg ins.opa,
      get_name_of_reg ins.opb,
      ap (λ d. d.arguments) eq ∙ three_registers_args ins p k,
      (names_round_trip ins.dst c.dst_lt).0,
      (names_round_trip ins.opa c.opa_lt).0,
      (names_round_trip ins.opb c.opb_lt).0,
      (
        ap (λ d. get_op_for_name d.opcode_str) eq
            ∙ named ins.prefix ins.opcode c.opcode_lt (or_left _ _ k),
        ap (λ d. get_cond_for_name d.condition_str) eq
            ∙ (names_round_trip ins.condition c.condition_lt).3,
      ),
    )

-- The same of an immediate prefix and an operation of two registers and 12-bit data, which is shown
-- as the number that the emulator decodes.
pub disasm_two_registers_imm12 :
    (b0 b1 b2 b3 : ℕ)
    → b0 < 2 ^ 8
    → b1 < 2 ^ 8
    → b2 < 2 ^ 8
    → b3 < 2 ^ 8
    → (decode_bytes b0 b1 b2 b3).prefix ≡ 3
    → any_of two_registers_imm12 (decode_bytes b0 b1 b2 b3).opcode ≡ true
    → (x y : String) × ((vasmdis_disasm_instruction b0 b1 b2 b3).arguments
        ≡ fmt_reg_reg_imm12 x y (decode_bytes b0 b1 b2 b3).imm12)
      × (get_reg_for_name x ≡ (decode_bytes b0 b1 b2 b3).dst)
      × (get_reg_for_name y ≡ (decode_bytes b0 b1 b2 b3).opa)
      × HeadReadsBack (vasmdis_disasm_instruction b0 b1 b2 b3) (decode_bytes b0 b1 b2 b3)
disasm_two_registers_imm12 b0 b1 b2 b3 h0 h1 h2 h3 p k =
    let ins = decode_bytes b0 b1 b2 b3 in
    let c = decode_bytes-IsEncoded b0 b1 b2 b3 h0 h1 h2 h3 in
    let eq = shown_lem b0 b1 b2 b3 h0 h1 h2 h3 in
    (
      get_name_of_reg ins.dst,
      get_name_of_reg ins.opa,
      ap (λ d. d.arguments) eq ∙ imm12_args ins p k,
      (names_round_trip ins.dst c.dst_lt).0,
      (names_round_trip ins.opa c.opa_lt).0,
      (
        ap (λ d. get_op_for_name d.opcode_str) eq
            ∙ named ins.prefix ins.opcode c.opcode_lt (or_right _ _ k),
        ap (λ d. get_cond_for_name d.condition_str) eq
            ∙ (names_round_trip ins.condition c.condition_lt).3,
      ),
    )
