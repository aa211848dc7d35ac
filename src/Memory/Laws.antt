-- ===== src/Memory/Laws.antt =====
-- What a read returns after a write, and what a write leaves alone.
use emylathor.Base.{
  ◌≢◌, ◌↔◌, ℕ, ◌+◌, ◌*◌, ◌/◌, ◌%◌, ◌^◌, ◌≤◌, ◌<◌, ◌≡◌, refl, true, none, some, arith, ◌⊎◌,
}
use emylathor.Base.Bits.Shift.{bit_and-mask, bit_or-add}
use emylathor.Machine.{EmulatorContext, store}
use emylathor.Memory.{
  hhbyte_from_dword, hlbyte_from_dword, lhbyte_from_dword, llbyte_from_dword, hbyte_from_word,
  lbyte_from_word, word_from_bytes, dword_from_bytes, mem_write_word_p, mem_write_dword_p,
  mem_get_word_p, mem_get_dword_p, mem_get_instruction_p, mem_write_byte_p, mem_get_byte_p,
}

-- The four bytes of a dword, as arithmetic.
pub dword_bytes :
    (x : ℕ)
    → x < 2 ^ 32
    → (hhbyte_from_dword x ≡ x / 2 ^ 24)
      × (hlbyte_from_dword x ≡ x / 2 ^ 16 % 2 ^ 8)
      × (lhbyte_from_dword x ≡ x / 2 ^ 8 % 2 ^ 8)
      × (llbyte_from_dword x ≡ x % 2 ^ 8)
unfolding hhbyte_from_dword hlbyte_from_dword lhbyte_from_dword llbyte_from_dword
dword_bytes x h = (refl, bit_and-mask 8 (x / 2 ^ 16), bit_and-mask 8 (x / 2 ^ 8), bit_and-mask 8 x)

pub word_from_bytes-eq : (hi lo : ℕ) → lo < 2 ^ 8 → word_from_bytes hi lo ≡ hi * 2 ^ 8 + lo
unfolding word_from_bytes
word_from_bytes-eq hi lo h = bit_or-add 8 hi lo h

pub dword_from_bytes-eq :
    (uh ul lh ll : ℕ)
    → ul < 2 ^ 8
    → lh < 2 ^ 8
    → ll < 2 ^ 8
    → dword_from_bytes uh ul lh ll ≡ uh * 2 ^ 24 + ul * 2 ^ 16 + lh * 2 ^ 8 + ll
unfolding dword_from_bytes
dword_from_bytes-eq uh ul lh ll p q r = ground (
  arith,
  bit_or-add 24 uh (ul * 2 ^ 16),
  bit_or-add 16 (uh * 2 ^ 8 + ul) (lh * 2 ^ 8),
  bit_or-add 8 (uh * 2 ^ 16 + ul * 2 ^ 8 + lh) ll,
)

-- The memory after the four stores of a dword that lies inside.
abbrev pub dword_stored : ℕ → ℕ → EmulatorContext → EmulatorContext
dword_stored d a e = record e {
  memory =
      store
        (store (store (store e.memory a (d % 2 ^ 8)) (a + 1) (d / 2 ^ 8 % 2 ^ 8)) (a + 2)
          (d / 2 ^ 16 % 2 ^ 8))
        (a + 3) (d / 2 ^ 24);
}

pub write_dword_lem :
    (d a : ℕ) (e : EmulatorContext)
    → d < 2 ^ 32
    → a + 3 < e.memory_size
    → e.memory_size ≤ 2 ^ 32
    → mem_write_dword_p d a e ≡ some (true, dword_stored d a e)
unfolding mem_write_dword_p
write_dword_lem d a e hd ha hs = ground (arith, dword_bytes d hd)

pub read_dword_lem :
    (d a : ℕ) (e : EmulatorContext)
    → d < 2 ^ 32
    → a + 3 < e.memory_size
    → e.memory_size ≤ 2 ^ 32
    → mem_get_dword_p a (dword_stored d a e) ≡ some (true, d)
unfolding mem_get_dword_p
read_dword_lem d a e hd ha hs =
    ground
      (arith, dword_from_bytes-eq (d / 2 ^ 24) (d / 2 ^ 16 % 2 ^ 8) (d / 2 ^ 8 % 2 ^ 8) (d % 2 ^ 8))

-- A dword that is written inside the memory is read back, and the write keeps the size of the memory, stores
-- the dword's bytes in little-endian order and changes no other byte.
pub mem_get_dword_p-mem_write_dword_p :
    (d a : ℕ) (e : EmulatorContext)
    → d < 2 ^ 32
    → a + 3 < e.memory_size
    → e.memory_size ≤ 2 ^ 32
    → (e' : EmulatorContext) × (mem_write_dword_p d a e ≡ some (true, e'))
      × (mem_get_dword_p a e' ≡ some (true, d))
      × (e'.memory_size ≡ e.memory_size)
      × (e'.memory a
            + e'.memory (a + 1) * 2 ^ 8
            + e'.memory (a + 2) * 2 ^ 16
            + e'.memory (a + 3) * 2 ^ 24
          ≡ d)
      × ((j : ℕ) → (j < a) ⊎ (a + 3 < j) → e'.memory j ≡ e.memory j)
mem_get_dword_p-mem_write_dword_p d a e hd ha hs = (
  dword_stored d a e,
  write_dword_lem d a e hd ha hs,
  read_dword_lem d a e hd ha hs,
  refl,
  ground arith,
  λ j h. ground arith,
)

pub word_bytes : (x : ℕ) → (hbyte_from_word x ≡ x / 2 ^ 8 % 2 ^ 8) × (lbyte_from_word x ≡ x % 2 ^ 8)
unfolding hbyte_from_word lbyte_from_word
word_bytes x = (bit_and-mask 8 (x / 2 ^ 8), bit_and-mask 8 x)

-- The memory after the stores of a word, and of a byte.
abbrev pub word_stored : ℕ → ℕ → EmulatorContext → EmulatorContext
word_stored w a e = record e { memory = store (store e.memory a (w % 2 ^ 8)) (a + 1) (w / 2 ^ 8) }

abbrev pub byte_stored : ℕ → ℕ → EmulatorContext → EmulatorContext
byte_stored b a e = record e { memory = store e.memory a b }

-- A word that is written inside the memory is read back.
pub word_stored_lem :
    (w a : ℕ) (e : EmulatorContext)
    → w < 2 ^ 16
    → a + 1 < e.memory_size
    → e.memory_size ≤ 2 ^ 32
    → (mem_write_word_p w a e ≡ some (true, word_stored w a e))
      × (mem_get_word_p a (word_stored w a e) ≡ some (true, w))
unfolding mem_write_word_p mem_get_word_p
word_stored_lem w a e hw ha hs =
    (ground (arith, word_bytes w), ground (arith, word_from_bytes-eq (w / 2 ^ 8) (w % 2 ^ 8)))

pub byte_stored_lem :
    (b a : ℕ) (e : EmulatorContext)
    → b < 2 ^ 8
    → a < e.memory_size
    → (mem_write_byte_p b a e ≡ some (true, byte_stored b a e))
      × (mem_get_byte_p a (byte_stored b a e) ≡ some (true, b))
unfolding mem_write_byte_p mem_get_byte_p
byte_stored_lem b a e hb ha = (ground arith, ground arith)

-- Below 4 GB of memory a dword access is defined exactly when its four bytes lie inside: nothing
-- else in the accessors stops an address that is too large.
pub dword_access_defined_iff :
    (d a : ℕ) (e : EmulatorContext)
    → a < 2 ^ 32
    → e.memory_size < 2 ^ 32
    → ((mem_write_dword_p d a e ≢ none) ↔ (a + 3 < e.memory_size))
      × ((mem_get_dword_p a e ≢ none) ↔ (a + 3 < e.memory_size))
unfolding mem_write_dword_p mem_get_dword_p
dword_access_defined_iff d a e ha hs =
    ((λ h. ground arith, λ h. ground arith), (λ h. ground arith, λ h. ground arith))

-- The dword that four bytes hold in little-endian order.
abbrev pub dword_value : ℕ → EmulatorContext → ℕ
dword_value a e =
    e.memory a + e.memory (a + 1) * 2 ^ 8 + e.memory (a + 2) * 2 ^ 16 + e.memory (a + 3) * 2 ^ 24

pub dword_value_lem :
    (a : ℕ) (e : EmulatorContext)
    → ((i : ℕ) → e.memory i < 2 ^ 8)
    → a + 3 < e.memory_size
    → e.memory_size ≤ 2 ^ 32
    → mem_get_dword_p a e ≡ some (true, dword_value a e)
unfolding mem_get_dword_p
dword_value_lem a e h ha hs = ground (
  arith,
  dword_from_bytes-eq (e.memory (a + 3)) (e.memory (a + 2)) (e.memory (a + 1)) (e.memory a),
  h a,
  h (a + 1),
  h (a + 2),
)

pub mem_get_instruction_p-eq :
    (a : ℕ) (e : EmulatorContext) → mem_get_instruction_p a e ≡ mem_get_dword_p a e
unfolding mem_get_instruction_p
mem_get_instruction_p-eq a e = refl
