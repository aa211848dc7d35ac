-- ===== src/Memory.antt =====
-- `src/cpu/memory.c`, with the byte macros of `src/common/macros.h`. The functions index `memory`
-- with no check against `memory_size`; the success that they return is always 1.
pub mod Laws
pub mod Valid
use emylathor.Base.{
  ℕ, ◌+◌, Bool, true, Option, none, some, bit_and, bit_or, u8, u32, ◌<<<◌, ◌>>>◌, ltb,
  if◌then◌else◌,
}
use emylathor.Machine.{EmulatorContext, store, ◌>>=◌}

-- `ctx->memory[addr]`
pub peek : ℕ → EmulatorContext → Option ℕ
peek addr e = if ltb addr e.memory_size then some (e.memory addr) else none

-- `ctx->memory[addr] = b`; what is stored is converted to a byte.
pub poke : ℕ → ℕ → EmulatorContext → Option EmulatorContext
poke addr b e =
    if ltb addr e.memory_size then some (record e { memory = store e.memory addr (u8 b) }) else none

-- HHBYTE_FROM_DWORD, HLBYTE_FROM_DWORD, LHBYTE_FROM_DWORD and LLBYTE_FROM_DWORD
pub hhbyte_from_dword : ℕ → ℕ
hhbyte_from_dword x = x >>> 24

pub hlbyte_from_dword : ℕ → ℕ
hlbyte_from_dword x = bit_and (x >>> 16) 0xff

pub lhbyte_from_dword : ℕ → ℕ
lhbyte_from_dword x = bit_and (x >>> 8) 0xff

pub llbyte_from_dword : ℕ → ℕ
llbyte_from_dword x = bit_and x 0xff

-- HBYTE_FROM_WORD and LBYTE_FROM_WORD
pub hbyte_from_word : ℕ → ℕ
hbyte_from_word x = bit_and (x >>> 8) 0xff

pub lbyte_from_word : ℕ → ℕ
lbyte_from_word x = bit_and x 0xff

-- WORD_FROM_BYTES and DWORD_FROM_BYTES
pub word_from_bytes : ℕ → ℕ → ℕ
word_from_bytes hi lo = bit_or (hi <<< 8) lo

pub dword_from_bytes : ℕ → ℕ → ℕ → ℕ → ℕ
dword_from_bytes uh ul lh ll = bit_or (bit_or (bit_or (uh <<< 24) (ul <<< 16)) (lh <<< 8)) ll

pub mem_write_byte_p : ℕ → ℕ → EmulatorContext → Option (Bool × EmulatorContext)
unfolding poke
mem_write_byte_p b addr e = do e₁ ← poke addr b e; some (true, e₁)

pub mem_write_word_p : ℕ → ℕ → EmulatorContext → Option (Bool × EmulatorContext)
unfolding poke lbyte_from_word hbyte_from_word
mem_write_word_p w addr e = do
  e₁ ← poke (u32 (addr + 0)) (lbyte_from_word w) e
  e₂ ← poke (u32 (addr + 1)) (hbyte_from_word w) e₁
  some (true, e₂)

pub mem_write_dword_p : ℕ → ℕ → EmulatorContext → Option (Bool × EmulatorContext)
unfolding poke llbyte_from_dword lhbyte_from_dword hlbyte_from_dword hhbyte_from_dword
mem_write_dword_p d addr e = do
  e₁ ← poke (u32 (addr + 0)) (llbyte_from_dword d) e
  e₂ ← poke (u32 (addr + 1)) (lhbyte_from_dword d) e₁
  e₃ ← poke (u32 (addr + 2)) (hlbyte_from_dword d) e₂
  e₄ ← poke (u32 (addr + 3)) (hhbyte_from_dword d) e₃
  some (true, e₄)

-- The readers return the success and what they put into `*val`.
pub mem_get_byte_p : ℕ → EmulatorContext → Option (Bool × ℕ)
unfolding peek
mem_get_byte_p addr e = do b ← peek addr e; some (true, b)

pub mem_get_word_p : ℕ → EmulatorContext → Option (Bool × ℕ)
unfolding peek word_from_bytes
mem_get_word_p addr e = do
  lo ← peek (u32 (addr + 0)) e
  hi ← peek (u32 (addr + 1)) e
  some (true, word_from_bytes hi lo)

pub mem_get_dword_p : ℕ → EmulatorContext → Option (Bool × ℕ)
unfolding peek dword_from_bytes
mem_get_dword_p addr e = do
  ll ← peek (u32 (addr + 0)) e
  lh ← peek (u32 (addr + 1)) e
  ul ← peek (u32 (addr + 2)) e
  uh ← peek (u32 (addr + 3)) e
  some (true, dword_from_bytes uh ul lh ll)

pub mem_get_instruction_p : ℕ → EmulatorContext → Option (Bool × ℕ)
unfolding mem_get_dword_p
mem_get_instruction_p addr e = mem_get_dword_p addr e
