-- ===== src/Tests/Program.antt =====
-- Statements of the assembler for data, and a program for the machine.
use Prim.Native.String.{String}
use emylathor.Base.{ℕ, Bool, true, Option, some, ◌+◌, ◌^◌, ◌<◌, refl, List, [], ◌∷◌, arith}
use emylathor.Machine.{EmulatorContext, store}
use emylathor.Valid.{IsValid}
use emylathor.Decode.{decode_bytes}
use emylathor.Cpu.Execute.Straight.{is_straight}
use emylathor.Cpu.Execute.Halts.{IsStraightLine}
use emylathor.Emit.Bytes.Laws.{IsBlocked}
use emylathor.Emit.Bytes.Append.{length}
use emylathor.Emit.Bytes.Image.{Directive, bytes, word, dword, AreInRange, images}
use emylathor.Tests.Machine.{machine, buffer_at}

-- ADD R0, R0, R0 and STOP.
abbrev pub adding : EmulatorContext
adding = record machine { memory = store (λ a. 0) 0 0x2a }

pub adding-IsValid : IsValid adding
adding-IsValid = record {
  regs_dword = λ i. omega arith;
  cregs_dword = λ i. omega arith;
  pos_dword = omega arith;
  memory_byte = λ a. ground arith;
  latch_dword = omega arith;
  count_qword = omega arith;
}

pub adding-IsStraightLine : IsStraightLine 1 adding.pos adding.memory adding.memory_size
unfolding IsStraightLine is_straight decode_bytes
adding-IsStraightLine = (refl, omega arith, (refl, refl, omega arith))

abbrev pub some_data : List Directive
some_data = word 0x1234 ∷ bytes (1 ∷ 2 ∷ []) ∷ dword 0x89ab_cdef ∷ []

pub some_data-AreInRange : AreInRange some_data
unfolding AreInRange
some_data-AreInRange = (omega arith, ((omega arith, (omega arith, tt)), (omega arith, tt)))

pub some_data_fits : (buffer_at 512).pos + length (images some_data) + 1024 < 2 ^ 32
unfolding images length
some_data_fits = omega arith

pub full-IsBlocked : IsBlocked (buffer_at 512)
full-IsBlocked = record {
  dynamic = refl;
  whole = refl;
  at_end = refl;
  blocks = refl;
  within = omega arith;
  tight = omega arith;
}

pub odd-IsBlocked : IsBlocked (buffer_at 509)
odd-IsBlocked = record {
  dynamic = refl;
  whole = refl;
  at_end = refl;
  blocks = refl;
  within = omega arith;
  tight = omega arith;
}

-- The same program as a file of eight bytes.
abbrev pub adding_file : ℕ → ℕ
adding_file = store (λ a. 0) 0 0x2a

pub adding_file-lt : (i : ℕ) → adding_file i < 2 ^ 8
adding_file-lt i = ground arith

pub adding_file-IsStraightLine : IsStraightLine 1 0 adding_file 8
unfolding IsStraightLine is_straight decode_bytes
adding_file-IsStraightLine = (refl, omega arith, (refl, refl, omega arith))

abbrev pub load_adding : String → Option ((ℕ → ℕ) × ℕ)
load_adding name = some (adding_file, 8)

abbrev pub opens : String → Bool
opens name = true

abbrev pub image_name : String
image_name = "add.img"
