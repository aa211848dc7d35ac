-- ===== src/Tests/Table.antt =====
-- A table of labels as a list, programs with a label and a reference to it, and a loaded one.
use Prim.Native.String.{String}
use text.Mathlib.Text as Text
use emylathor.Base.{
  ◌+◌, ℕ, ◌≡◌, refl, false, true, Option, none, some, List, [], ◌∷◌, if◌then◌else◌, arith,
}
use emylathor.Machine.{EmulatorContext, store}
use emylathor.Decode.Laws.{decode_bytes-eq}
use emylathor.Valid.{IsValid}
use emylathor.Emit.{EmitContext, emitted}
use emylathor.Emit.Load32.{load32}
use emylathor.Emit.Buffer.{IsAligned, available}
use emylathor.Emit.Labels.{
  HashTable, IsLawful, LabelRef, LabelContext, emit_create_context, emit_label, loadadr,
}
use emylathor.Emit.Labels.Order.{HoldsAddress}
use emylathor.Emit.Labels.Reserve.{IsLabelled}
use emylathor.Emit.Labels.Steps.{
  Steps, start, then_, label, reference, set_offset, Steps-IsLabelled,
}
use emylathor.Emit.Labels.Assembler.{created_lem}
use emylathor.Tests.Machine.{machine, buffer_at, garbage}

abbrev pub find : List (String × ℕ) → String → Option ℕ
find [] k = none
find ((j, v) ∷ rest) k = let others = find rest k in if Text.◌==◌ j k then some v else others

abbrev pub table : HashTable
table = record {
  State = List (String × ℕ);
  new = [];
  lookup_extended = find;
  insert = λ s k v. (k, v) ∷ s;
}

pub table-IsLawful : IsLawful table
table-IsLawful = record { lookup-new = λ k. refl; lookup-insert = λ s k j v. refl }

abbrev pub to_loop : LabelRef
to_loop = record { pos = 0; reg = 3; name = "_LOOP"; cond = 0 }

-- The offset, the labels, the references and the position.
abbrev pub context : ℕ → List (String × ℕ) → List LabelRef → ℕ → LabelContext table.State
context offset labels refs p = record {
  buffer = buffer_at p;
  labels = labels;
  labelrefs = refs;
  offset = offset;
}

pub created : emit_create_context table true true true 512 false ≡ some (context 0 [] [] 0)
unfolding emit_create_context
created = refl

pub label_accepted :
    emit_label table "_LOOP" (context 4096 [] [] 0)
    ≡ emitted (context 4096 (("_LOOP", 4096) ∷ []) [] 0)
unfolding emit_label
label_accepted = refl

reference_accepted :
    loadadr table (available garbage) true "_LOOP" 3 0 (context 4096 (("_LOOP", 4096) ∷ []) [] 0)
    ≡ emitted (context 4096 (("_LOOP", 4096) ∷ []) (to_loop ∷ []) 8)
unfolding loadadr
reference_accepted = refl

pub program-Steps :
    Steps table garbage (context 0 [] [] 0) (context 4096 (("_LOOP", 4096) ∷ []) (to_loop ∷ []) 8)
program-Steps =
    then_ (context 4096 (("_LOOP", 4096) ∷ []) [] 0) _
      (then_ (context 4096 [] [] 0) _ (then_ (context 0 [] [] 0) _ start (set_offset 4096 _ refl))
        (label "_LOOP" _ label_accepted))
      (reference "_LOOP" 3 0 _ (omega arith) (omega arith) reference_accepted)

pub created-IsLabelled : IsLabelled table (context 0 [] [] 0)
created-IsLabelled =
    created_lem table 512 (context 0 [] [] 0) table-IsLawful refl (omega arith) created

abbrev pub loop_name : String
loop_name = "_LOOP"

pub before_loop-IsLabelled : IsLabelled table (context 4096 (("_LOOP", 4096) ∷ []) [] 0)
before_loop-IsLabelled =
    (Steps-IsLabelled table garbage (context 0 [] [] 0) (context 4096 (("_LOOP", 4096) ∷ []) [] 0)
      table-IsLawful created-IsLabelled
      (then_ (context 4096 [] [] 0) _ (then_ (context 0 [] [] 0) _ start (set_offset 4096 _ refl))
        (label "_LOOP" _ label_accepted))).0

-- LOADI of 0x1000 and of 0 into the halves of register 3.
abbrev pub loads_bytes : ℕ → ℕ
loads_bytes = store (store (store (store (store (λ i. 0) 0 0x46) 1 0x06) 3 0x10) 4 0x46) 5 0x07

abbrev pub resolved_buffer : EmitContext
resolved_buffer = record (buffer_at 8) { buf = loads_bytes }

pub resolved_buffer-HoldsAddress : HoldsAddress resolved_buffer to_loop 4096
resolved_buffer-HoldsAddress = (
  decode_bytes-eq _ _ _ _ (omega arith) (omega arith),
  decode_bytes-eq _ _ _ _ (omega arith) (omega arith),
)

abbrev pub loaded_machine : EmulatorContext
loaded_machine = record machine { memory = loads_bytes }

pub loaded_machine-IsValid : IsValid loaded_machine
loaded_machine-IsValid = record {
  regs_dword = λ i. omega arith;
  cregs_dword = λ i. omega arith;
  pos_dword = omega arith;
  memory_byte = λ a. ground arith;
  latch_dword = omega arith;
  count_qword = omega arith;
}

-- Four bytes of a buffer.
abbrev pub four : ℕ → ℕ → ℕ → ℕ → ℕ → (ℕ → ℕ) → ℕ → ℕ
four p b1 b2 b3 b4 f = store (store (store (store f p b1) (p + 1) b2) (p + 2) b3) (p + 3) b4

-- LOAD32 of 0x12345678 into register 9.
abbrev pub load32_bytes : ℕ → ℕ
load32_bytes =
    four 12 0x20 0x00 0x79 0x00 (
      four 8 0x46 0x0f 0x34 0x12 (four 4 0x46 0x0e 0x78 0x56 (four 0 0x20 0x00 0x79 0x00 (λ i. 0))))

abbrev pub load32_buffer : EmitContext
load32_buffer = record (buffer_at 16) { buf = load32_bytes }

pub load32_emitted :
    load32 (available garbage) 0 9 0x1234_5678 (buffer_at 0) ≡ emitted load32_buffer
unfolding load32
load32_emitted = refl

abbrev pub load32_machine : EmulatorContext
load32_machine = record machine { memory = load32_bytes }

pub load32_machine-IsValid : IsValid load32_machine
load32_machine-IsValid = record {
  regs_dword = λ i. omega arith;
  cregs_dword = λ i. omega arith;
  pos_dword = omega arith;
  memory_byte = λ a. ground arith;
  latch_dword = omega arith;
  count_qword = omega arith;
}

pub empty-IsAligned : IsAligned (buffer_at 0)
empty-IsAligned = record {
  dynamic = refl;
  whole = refl;
  at_end = refl;
  dwords = refl;
  blocks = refl;
  within = omega arith;
}
