-- ===== src/Tests/Machine.antt =====
-- A machine with 256 bytes of memory, its instructions, and buffers of the assembler.
use emylathor.Base.{ℕ, ◌*◌, ◌%◌, false, none, some, refl, arith}
use emylathor.Machine.{EmulatorContext, Instruction, pio_null, store}
use emylathor.Valid.{IsValid}
use emylathor.Emit.{EmitContext}
use emylathor.Emit.Buffer.{IsAligned}

-- Register `i` holds 16 * i, and each cell of memory its address.
abbrev pub machine : EmulatorContext
machine = record {
  regs = λ i. i % 16 * 16;
  cregs = λ i. 0;
  pos = 0;
  memory = λ a. a % 256;
  memory_size = 256;
  instruction_count = 0;
  ports = store (λ p. none) 0 (some pio_null);
  latch = 0;
}

pub machine-IsValid : IsValid machine
machine-IsValid = record {
  regs_dword = λ i. omega arith;
  cregs_dword = λ i. omega arith;
  pos_dword = omega arith;
  memory_byte = λ a. omega arith;
  latch_dword = omega arith;
  count_qword = omega arith;
}

-- The opcode, prefix and condition, and the fields with the immediate data.
abbrev pub instruction : ℕ → ℕ → ℕ → ℕ → ℕ → ℕ → Instruction
instruction op prefix dst opa opb imm16 = record {
  opcode = op;
  dst = dst;
  opa = opa;
  opb = opb;
  imm12 = 0x80;
  imm16 = imm16;
  prefix = prefix;
  condition = 0;
}

-- A buffer that is empty, one that is full, and one with two bytes left.
abbrev pub buffer_at : ℕ → EmitContext
buffer_at p = record {
  buf = λ i. 0;
  allocated = 512;
  buf_len_fixed = false;
  pos = p;
  highest_pos = p;
  size = 512;
}

pub full-IsAligned : IsAligned (buffer_at 512)
full-IsAligned = record {
  dynamic = refl;
  whole = refl;
  at_end = refl;
  dwords = refl;
  blocks = refl;
  within = omega arith;
}

-- What `realloc` leaves in new memory.
abbrev pub garbage : ℕ → ℕ → ℕ
garbage n i = 0xcc
