-- ===== src/Start.antt =====
-- The start of the emulator: `src/mkcontext.c`, and `emu_load_img` and `main` of `src/emulator.c`. The
-- image is the bytes that glib read, and what `malloc` leaves in the registers is a parameter. An
-- allocation that fails exits, which `main_checked` adds to the rest.
pub mod Laws
pub mod Halts
use emylathor.Base.{
  ℕ, ◌+◌, ◌-◌, ◌*◌, Bool, false, not, Option, none, some, ◌==◌, ◌&&◌, ltb, leb, if◌then◌else◌, u8,
}
use emylathor.Machine.{EmulatorContext, store, ◌>>=◌}
use emylathor.Pio.{pio_init}
use emylathor.Cpu.Execute.{Exit, returned, stepped, running, cpu_execute}

abbrev pub va_default_memory_size : ℕ
va_default_memory_size = 4 * 1024 * 1024

abbrev pub instructions_start_offset : ℕ
instructions_start_offset = 4096

-- The ports and the latch are static variables, which start as 0.
pub emu_create_context : ℕ → (ℕ → ℕ) → (ℕ → ℕ) → EmulatorContext
emu_create_context memsize regs cregs = record {
  regs = store regs 0x0e 0x600;
  cregs = store (store (store cregs 0x04 0x800) 0x02 0x02) 0x01 0x00;
  pos = 0;
  memory = λ a. 0;
  memory_size = if memsize == 0 then va_default_memory_size else memsize;
  instruction_count = 0;
  ports = λ p. none;
  latch = 0;
}

-- `dev_init_devices` does nothing.
pub emu_init : (ℕ → ℕ) → (ℕ → ℕ) → EmulatorContext
unfolding emu_create_context pio_init
emu_init regs cregs = pio_init (emu_create_context 0 regs cregs)

-- The length of the image is not compared with the memory.
pub emu_load_img : (ℕ → ℕ) → ℕ → EmulatorContext → Option EmulatorContext
emu_load_img filedata length e =
    if leb (instructions_start_offset + length) e.memory_size
    then some (record e {
      memory = λ a.
          if leb instructions_start_offset a && ltb a (instructions_start_offset + length)
          then filedata (a - instructions_start_offset)
          else e.memory a;
      pos = instructions_start_offset;
    })
    else none

-- `main`, for at most the given number of rounds.
pub main : ℕ → (ℕ → ℕ) → (ℕ → ℕ) → (ℕ → ℕ) → ℕ → Option Exit
unfolding emu_init emu_load_img
main rounds regs cregs filedata length =
    emu_load_img filedata length (emu_init regs cregs) >>= cpu_execute rounds false

-- The program exits with a status, or its loop is still running.
pub data Outcome : Type 0 where
  status : ℕ → Outcome
  looping : Outcome

-- `main` with its checks: the number of arguments, whether all allocations succeed, which exit with 10
-- otherwise, and the file, if glib can read it. Of the word that the loop returns, the status of the
-- process keeps 8 bits.
pub main_checked : ℕ → Bool → Option ((ℕ → ℕ) × ℕ) → ℕ → (ℕ → ℕ) → (ℕ → ℕ) → Option Outcome
unfolding main
main_checked argc allocated file rounds regs cregs =
    if ltb argc 2 then some (status 10) else if not allocated then some (status 10) else elim file [
      | none ↦ some (status 11)
      | some (filedata, length) ↦ main rounds regs cregs filedata length >>= λ x.
          some (elim x [ returned n e ↦ status (u8 n) | stepped e ↦ looping | running e ↦ looping ])
    ]
