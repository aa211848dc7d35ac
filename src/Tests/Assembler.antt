-- ===== src/Tests/Assembler.antt =====
-- Statements that are assembled, listed and executed.
use emylathor.Base.{
  List, [], arith, false, inr, negsuc, none, pos, refl, signed16, signed32, some, suc, true, ℕ,
  ◌++◌, ◌+◌, ◌-◌, ◌<◌, ◌^◌, ◌∷◌, ◌≡◌, ◌≤◌, ◌⊎◌,
}
use emylathor.Base.Int.{◌≤ℤ◌}
use emylathor.Machine.{EmulatorContext}
use emylathor.Emit.{emitted, exited}
use emylathor.Emit.Buffer.{available}
use emylathor.Emit.Encode.{instruction_at}
use emylathor.Lookup.{get_creg_for_name, get_name_of_creg, get_name_of_reg, get_reg_for_name}
use emylathor.Disassembler.Arguments.{Disassembly, fmt_reg_reg, fmt_reg_reg_reg}
use emylathor.Cpu.Execute.{cpu_execute}
use emylathor.Start.{main_checked, status}
use emylathor.Emit.Bytes.Append.{length}
use emylathor.Emit.Labels.{LabelContext, loadadr_then}
use emylathor.Disassembler.Program.{printed, vdis_main}
use emylathor.Cpu.Execute.Transfer.{transfers}
use emylathor.Emit.Labels.Transfer.{Transferred}
use emylathor.Emit.Labels.Call.{ldcall_lem}
use emylathor.Assembler.{op_fmt_vic_creg_reg, op_fmt_vic_reg_creg, op_s_loadrd, op_s_xchgc, reg16}
use emylathor.Assembler.Instruction.{instruction}
use emylathor.Assembler.Tokens.{is_token, to16_bit_int, to32_bit_int}
use emylathor.Assembler.Meaning.{accepted}
use emylathor.Assembler.Numbers.{Gives, decimal_numbers}
use emylathor.Assembler.Listed.{line, written}
use emylathor.Assembler.Lists.{Lists}
use emylathor.Assembler.Typed.{instruction-IsTyped, instruction-Lists, types}
use emylathor.Assembler.Irregular.{IsListedAs, irregular_lem}
use emylathor.Assembler.Program.{asm_file, img_file, vasm}
use emylathor.Assembler.Image.{contents}
use emylathor.Assembler.RoundTrip.{listing, vdis_main-vasm}
use emylathor.Assembler.Execution.{vasm-main_checked}
use emylathor.Assembler.Options.{given, is_asm, is_help, is_img, is_unknown, vasm-exits}
use emylathor.Tests.Machine.{buffer_at, full-IsAligned, garbage, machine, machine-IsValid}
use emylathor.Tests.Table.{before_loop-IsLabelled, context, loop_name, table}
use emylathor.Tests.Program.{image_name, opens}
use emylathor.Tests.Statements.{
  adds_data, adds_data-IsTyped, call_buffer, call_buffer-HoldsAddress, call_buffer_call,
  call_machine, call_machine-IsValid, no_condition, other_reg, read_statements, read_straight,
  reads_back, reads_nothing, some_creg, some_options, some_reg, some_reg16, some_statements,
  some_statements-AreFaithful, some_statements_end, some_statements_fit, source_name,
  straight_statements, straight_statements-AreAccepted, straight_statements-AreStraight,
  straight_statements_fit, zero_condition,
}

vdis_main-vasm_example :
    let H = table in
    let fresh = garbage in
    let sts = some_statements in
    let read = read_statements in
    let writable = opens in
    let argc : ℕ = 5 in
    let load_contents = reads_back in
    let fopen = opens in
    let path = source_name in
    let img_name = image_name in
    let rounds : ℕ = 7 in
    (file : List ℕ) × (vasm H
        (available fresh)
        true
        read
        writable
        true
        true
        rounds
        argc
        (asm_file path ∷ img_file img_name ∷ [])
      ≡ some (emitted file))
    × (vdis_main (load_contents file) fopen rounds ("--img" ∷ img_name ∷ [])
        ≡ printed (listing sts))
vdis_main-vasm_example =
    vdis_main-vasm table garbage some_statements read_statements opens 5 reads_back opens
      source_name image_name 7 refl refl (omega arith) (λ file. refl) some_statements-AreFaithful
      some_statements_fit some_statements_end

vasm-main_checked_example :
    let H = table in
    let fresh = garbage in
    let sts = straight_statements in
    let read = read_straight in
    let writable = opens in
    let argc : ℕ = 5 in
    let path = source_name in
    let img = image_name in
    let rounds : ℕ = 7 in
    let regs = machine.regs in
    let cregs = machine.cregs in
    let argc₁ : ℕ = 2 in
    let n : ℕ = 4 in
    (file : List ℕ) × (vasm H
        (available fresh)
        true
        read
        writable
        true
        true
        rounds
        argc
        (asm_file path ∷ img_file img ∷ [])
      ≡ some (emitted file))
    × (main_checked argc₁ true (some (contents file)) (suc (length sts) + n) regs cregs
        ≡ some (status 0))
vasm-main_checked_example =
    vasm-main_checked table garbage straight_statements read_straight opens 5 source_name image_name
      7 machine.regs machine.cregs 2 4 refl refl (omega arith) straight_statements-AreAccepted
      straight_statements-AreStraight straight_statements_fit machine-IsValid.regs_dword
      machine-IsValid.cregs_dword (omega arith)

vasm-exits_example :
    let H = table in
    let realloc = available garbage in
    let malloc = true in
    let calloc = true in
    let table = true in
    let read = reads_nothing in
    let writable = opens in
    let rounds : ℕ = 7 in
    let argc : ℕ = 3 in
    let opts = some_options in
    let path = source_name in
    let img = image_name in
    (given is_help opts ≡ true
      → vasm H realloc malloc read writable calloc table rounds argc opts ≡ some (exited 0))
    × (given is_help opts ≡ false
        → (argc < 3)
          ⊎ ((given is_unknown opts ≡ true)
              ⊎ ((given is_asm opts ≡ false) ⊎ (given is_img opts ≡ false)))
        → vasm H realloc malloc read writable calloc table rounds argc opts ≡ some (exited 1))
    × (3 ≤ argc
        → read path ≡ none
        → vasm H realloc malloc read writable calloc table rounds argc
            (asm_file path ∷ img_file img ∷ [])
          ≡ some (exited 255))
vasm-exits_example =
    vasm-exits table (available garbage) true true true reads_nothing opens 7 3 some_options
      source_name image_name

instruction-Lists_example :
    let fresh = garbage in
    let ctx = buffer_at 512 in
    let st = adds_data in
    (accepted st ≡ true → Lists ctx (written st) (instruction (available fresh) st ctx))
    × (accepted st ≡ false → instruction (available fresh) st ctx ≡ exited 255)
instruction-Lists_example =
    instruction-Lists garbage (buffer_at 512) full-IsAligned (omega arith) adds_data (omega arith)
      adds_data-IsTyped tt

instruction-IsTyped_example :
    let fresh = garbage in
    let ctx = buffer_at 512 in
    let st = adds_data in
    (d : Disassembly) × Lists ctx d (instruction (available fresh) st ctx)
    × (d.opcode_str ≡ (written st).opcode_str)
    × (d.condition_str ≡ (written st).condition_str)
    × (types d.arguments ≡ types (written st).arguments)
unfolding accepted
instruction-IsTyped_example =
    instruction-IsTyped garbage (buffer_at 512) full-IsAligned (omega arith) adds_data (omega arith)
      adds_data-IsTyped tt refl

irregular_lem_example :
    let fresh = garbage in
    let ctx = buffer_at 512 in
    let cond = zero_condition in
    let dst = some_reg16 in
    let a = some_reg in
    let b = other_reg in
    let creg = some_creg in
    let c = no_condition in
    IsListedAs fresh ctx
      (op_s_loadrd (some cond) reg16 dst a b)
      (line (some cond) "LOADRD" (fmt_reg_reg_reg "R0L" a "R0"))
    × IsListedAs fresh ctx
        (op_s_xchgc (some cond) a creg)
        (line (some cond) "XCHGC" (fmt_reg_reg a "MR1"))
    × IsListedAs fresh ctx (op_fmt_vic_reg_creg c "MOVTC" a creg) (
        line c "MOVTC" (
          fmt_reg_reg
            (get_name_of_creg (get_reg_for_name a))
            (get_name_of_reg (get_creg_for_name creg))))
    × IsListedAs fresh ctx (op_fmt_vic_creg_reg c "MOVFC" creg a) (
        line c "MOVFC" (
          fmt_reg_reg
            (get_name_of_reg (get_creg_for_name creg))
            (get_name_of_creg (get_reg_for_name a))))
unfolding is_token
irregular_lem_example =
    irregular_lem garbage (buffer_at 512) full-IsAligned (omega arith) zero_condition some_reg16
      some_reg other_reg some_creg no_condition refl tt refl refl refl refl

ldcall_lem_example :
    let H = table in
    let fresh = garbage in
    let op : ℕ = 0x0c in
    let name = loop_name in
    let reg : ℕ = 3 in
    let cond : ℕ = 0 in
    let ctx = (context 4096 (("_LOOP", 4096) ∷ []) [] 0) in
    let b = call_buffer in
    let address : ℕ = 4096 in
    let e = call_machine in
    ((ctx₂ : LabelContext H.State) × (loadadr_then H (available fresh) op true name reg cond ctx
        ≡ emitted ctx₂)
      × (ctx₂.buffer.pos ≡ ctx.buffer.pos + 12)
      × (ctx₂.labelrefs
          ≡ ctx.labelrefs
            ++ (record { pos = ctx.buffer.pos; reg = reg; name = name; cond = cond }) ∷ [])
      × (instruction_at (ctx.buffer.pos + 8) ctx₂.buffer ≡ transfers op cond reg)
      × ((i : ℕ) → i < ctx.buffer.pos → ctx₂.buffer.buf i ≡ ctx.buffer.buf i))
    × ((e₃ : EmulatorContext) × ((n : ℕ)
          → cpu_execute (suc (suc (suc n))) false e ≡ cpu_execute n false e₃)
        × Transferred op cond reg address e e₃)
ldcall_lem_example =
    ldcall_lem table garbage 0x0c loop_name 3 0 (context 4096 (("_LOOP", 4096) ∷ []) [] 0)
      call_buffer 4096 call_machine (inr refl) (omega arith) (omega arith) before_loop-IsLabelled
      (omega arith) (omega arith) call_buffer_call call_buffer-HoldsAddress (omega arith)
      call_machine-IsValid (omega arith, omega arith, λ k h. refl)

decimal_numbers_example :
    let z = negsuc 4 in
    (negsuc (2 ^ 15 - 1) ≤ℤ z
      → z ≤ℤ pos (2 ^ 15 - 1)
      → Gives 16 (λ m. signed16 m ≡ z) (to16_bit_int z))
    × ((z ≤ℤ negsuc (2 ^ 15)) ⊎ (pos (2 ^ 15) ≤ℤ z) → to16_bit_int z ≡ exited 1)
    × (negsuc (2 ^ 31 - 1) ≤ℤ z
        → z ≤ℤ pos (2 ^ 31 - 1)
        → Gives 32 (λ m. signed32 m ≡ z) (to32_bit_int z))
    × ((z ≤ℤ negsuc (2 ^ 31)) ⊎ (pos (2 ^ 31) ≤ℤ z) → to32_bit_int z ≡ exited 1)
decimal_numbers_example = decimal_numbers (negsuc 4)
