-- ===== src/Tests/Statements.antt =====
-- A program for the assembler, and the bytes of an LDCALL.
use Prim.Native.String.{String}
use emylathor.Base.{ℕ, Option, none, some, List, [], ◌∷◌, ◌+◌, ◌*◌, ◌^◌, ◌<◌, ◌≡◌, refl, arith, ◌≤◌}
use emylathor.Machine.{EmulatorContext, store}
use emylathor.Valid.{IsValid}
use emylathor.Decode.Laws.{decode_bytes-eq}
use emylathor.Emit.{EmitContext}
use emylathor.Emit.Encode.{instruction_at}
use emylathor.Emit.Labels.Order.{HoldsAddress}
use emylathor.Emit.Bytes.Append.{length}
use emylathor.Cpu.Execute.Transfer.{transfers}
use emylathor.Assembler.{
  reg8, Statement, op_fmt_ii_int, op_fmt_vi_int, op_fmt_v_int, op_s_mov, op_fmt_i, op_pseudo_push,
}
use emylathor.Assembler.Tokens.{is_token}
use emylathor.Assembler.Meaning.{meaning, accepted}
use emylathor.Assembler.Listed.{IsTyped}
use emylathor.Assembler.Image.{contents}
use emylathor.Assembler.Program.{Exp, CommandOption, fixed_buffer, asm_file, not_known}
use emylathor.Assembler.Sequence.{program, AreAccepted}
use emylathor.Assembler.RoundTrip.{AreFaithful}
use emylathor.Assembler.Execution.{AreStraight, ended}
use emylathor.Cpu.Execute.Straight.{is_straight}
use emylathor.Lookup.{get_op_for_name}
use emylathor.Start.{va_default_memory_size}
use emylathor.Tests.Machine.{machine, buffer_at}
use emylathor.Tests.Table.{loads_bytes, to_loop}

abbrev pub adds_data : Statement
adds_data = op_fmt_ii_int (some "IZ") "ADD" "R1" "SP" 0xabc

abbrev pub some_statements : List Statement
some_statements =
    adds_data
    ∷ op_fmt_vi_int none "CMP" "RA" 7
    ∷ op_s_mov (some "NZNC") reg8 "R0LL" "R3HH"
    ∷ op_pseudo_push none "R5"
    ∷ op_fmt_v_int (some "NS") "JMP" 0xfff0
    ∷ op_fmt_i none "STOP"
    ∷ []

pub adds_data-IsTyped : IsTyped adds_data
unfolding is_token
adds_data-IsTyped = (refl, refl, refl, refl)

pub some_statements-AreFaithful : AreFaithful some_statements
unfolding is_token accepted
some_statements-AreFaithful = (
  (omega arith, (refl, refl, refl, refl), tt, refl),
  (
    (omega arith, (tt, refl, refl), tt, refl),
    (
      (tt, (refl, refl, refl), tt, refl),
      (
        (tt, (tt, refl), tt, refl),
        ((omega arith, (refl, refl), tt, refl), ((tt, (tt, refl), tt, refl), tt)),
      ),
    ),
  ),
)

pub some_statements_fit : 512 * length some_statements + 1024 < 2 ^ 32
unfolding length
some_statements_fit = omega arith

pub some_statements_end : length some_statements < 7
unfolding length
some_statements_end = omega arith

-- The file is read as it was written.
abbrev pub reads_back : List ℕ → String → Option ((ℕ → ℕ) × ℕ)
reads_back file name = some (contents file)

-- The two LOADI of `to_loop` and CALL R3.
abbrev pub call_bytes : ℕ → ℕ
call_bytes = store (store loads_bytes 8 0x0c) 9 0x03

abbrev pub call_buffer : EmitContext
call_buffer = record (buffer_at 12) { buf = call_bytes }

pub call_buffer-HoldsAddress : HoldsAddress call_buffer to_loop 4096
call_buffer-HoldsAddress = (
  decode_bytes-eq _ _ _ _ (omega arith) (omega arith),
  decode_bytes-eq _ _ _ _ (omega arith) (omega arith),
)

pub call_buffer_call : instruction_at (to_loop.pos + 8) call_buffer ≡ transfers 0x0c 0 3
call_buffer_call = decode_bytes-eq _ _ _ _ (omega arith) (omega arith)

abbrev pub call_machine : EmulatorContext
call_machine = record machine { memory = call_bytes }

pub call_machine-IsValid : IsValid call_machine
call_machine-IsValid = record {
  regs_dword = λ i. omega arith;
  cregs_dword = λ i. omega arith;
  pos_dword = omega arith;
  memory_byte = λ a. ground arith;
  latch_dword = omega arith;
  count_qword = omega arith;
}

abbrev pub zero_condition : String
zero_condition = "IZ"

abbrev pub no_condition : Option String
no_condition = none

abbrev pub some_reg16 : String
some_reg16 = "R3H"

abbrev pub some_reg : String
some_reg = "R5"

abbrev pub other_reg : String
other_reg = "RB"

abbrev pub some_creg : String
some_creg = "CR2"

-- The input and the options of the assembler.
abbrev pub read_statements : String → Option (List Exp)
read_statements name = some (program some_statements)

abbrev pub reads_nothing : String → Option (List Exp)
reads_nothing name = none

abbrev pub source_name : String
source_name = "add.V"

abbrev pub some_options : List CommandOption
some_options = fixed_buffer 1024 ∷ asm_file source_name ∷ not_known ∷ []

-- Instructions that only change registers.
abbrev pub straight_statements : List Statement
straight_statements =
    adds_data ∷ op_fmt_vi_int none "CMP" "RA" 7 ∷ op_s_mov (some "NZNC") reg8 "R0LL" "R3HH" ∷ []

pub straight_statements-AreAccepted : AreAccepted straight_statements
unfolding accepted
straight_statements-AreAccepted = ((omega arith, refl), ((omega arith, refl), ((tt, refl), tt)))

pub straight_statements-AreStraight : AreStraight straight_statements
unfolding is_straight meaning get_op_for_name
straight_statements-AreStraight = (refl, (refl, (refl, tt)))

pub straight_statements_fit : 4096 + 4 * (length straight_statements + 1) ≤ va_default_memory_size
unfolding length
straight_statements_fit = omega arith

abbrev pub read_straight : String → Option (List Exp)
read_straight name = some (program (ended straight_statements))
