-- ===== src/Memory/Valid.antt =====
-- The range of the state under the accessors, and of what they read.
use emylathor.Base.{ℕ, ◌+◌, ◌^◌, ◌<◌, true, false, none, some, arith, u8, u32, ltb, if◌then◌else◌}
use emylathor.Machine.{store, EmulatorContext}
use emylathor.Valid.{IsValid, Ensures, Ensures-bind}
use emylathor.Memory.{
  peek, poke, lbyte_from_word, hbyte_from_word, llbyte_from_dword, lhbyte_from_dword,
  hlbyte_from_dword, hhbyte_from_dword, mem_write_byte_p, mem_write_word_p, mem_write_dword_p,
  mem_get_byte_p, mem_get_word_p, mem_get_dword_p,
}
use emylathor.Memory.Laws.{word_from_bytes-eq, dword_from_bytes-eq}

poke-IsValid : (a b : ℕ) (e : EmulatorContext) → IsValid e → Ensures IsValid (poke a b e)
unfolding poke
poke-IsValid a b e v =
    elim (ltb a e.memory_size)
      as (λ t.
        Ensures IsValid
          (if t then some (record e { memory = store e.memory a (u8 b) }) else none)) [
            | true ↦ record {
              regs_dword = v.regs_dword;
              cregs_dword = v.cregs_dword;
              pos_dword = v.pos_dword;
              memory_byte = λ i. ground (arith, v.memory_byte i);
              latch_dword = v.latch_dword;
              count_qword = v.count_qword;
            }
            | false ↦ tt
          ]

abbrev pub StateIsValid {ℓ} : {A : Type ℓ} → A × EmulatorContext → Type 0
StateIsValid (a, e) = IsValid e

pub mem_write_byte_p-IsValid :
    (b a : ℕ) (e : EmulatorContext) → IsValid e → Ensures StateIsValid (mem_write_byte_p b a e)
unfolding mem_write_byte_p
mem_write_byte_p-IsValid b a e v =
    Ensures-bind IsValid StateIsValid (poke a b e) _ (poke-IsValid a b e v) λ e₁ v₁. v₁

pub mem_write_word_p-IsValid :
    (w a : ℕ) (e : EmulatorContext) → IsValid e → Ensures StateIsValid (mem_write_word_p w a e)
unfolding mem_write_word_p
mem_write_word_p-IsValid w a e v =
    Ensures-bind IsValid StateIsValid (poke (u32 (a + 0)) (lbyte_from_word w) e) _
      (poke-IsValid (u32 (a + 0)) (lbyte_from_word w) e v)
      λ e₁ v₁.
        Ensures-bind IsValid StateIsValid (poke (u32 (a + 1)) (hbyte_from_word w) e₁) _
          (poke-IsValid (u32 (a + 1)) (hbyte_from_word w) e₁ v₁) λ e₂ v₂. v₂

pub mem_write_dword_p-IsValid :
    (d a : ℕ) (e : EmulatorContext) → IsValid e → Ensures StateIsValid (mem_write_dword_p d a e)
unfolding mem_write_dword_p
mem_write_dword_p-IsValid d a e v =
    Ensures-bind IsValid StateIsValid (poke (u32 (a + 0)) (llbyte_from_dword d) e) _
      (poke-IsValid (u32 (a + 0)) (llbyte_from_dword d) e v)
      λ e₁ v₁.
        Ensures-bind IsValid StateIsValid (poke (u32 (a + 1)) (lhbyte_from_dword d) e₁) _
          (poke-IsValid (u32 (a + 1)) (lhbyte_from_dword d) e₁ v₁)
          λ e₂ v₂.
            Ensures-bind IsValid StateIsValid (poke (u32 (a + 2)) (hlbyte_from_dword d) e₂) _
              (poke-IsValid (u32 (a + 2)) (hlbyte_from_dword d) e₂ v₂)
              λ e₃ v₃.
                Ensures-bind IsValid StateIsValid (poke (u32 (a + 3)) (hhbyte_from_dword d) e₃) _
                  (poke-IsValid (u32 (a + 3)) (hhbyte_from_dword d) e₃ v₃) λ e₄ v₄. v₄

abbrev pub ValueBelow {ℓ} : {A : Type ℓ} → ℕ → A × ℕ → Type 0
ValueBelow n (a, x) = x < n

peek-lt : (a : ℕ) (e : EmulatorContext) → IsValid e → Ensures (λ b. b < 2 ^ 8) (peek a e)
unfolding peek
peek-lt a e v =
    elim (ltb a e.memory_size)
      as (λ t. Ensures (λ b. b < 2 ^ 8) (if t then some (e.memory a) else none)) [
        | true ↦ v.memory_byte a
        | false ↦ tt
      ]

pub mem_get_byte_p-lt :
    (a : ℕ) (e : EmulatorContext) → IsValid e → Ensures (ValueBelow (2 ^ 8)) (mem_get_byte_p a e)
unfolding mem_get_byte_p
mem_get_byte_p-lt a e v =
    Ensures-bind (λ b. b < 2 ^ 8) (ValueBelow (2 ^ 8)) (peek a e) _ (peek-lt a e v) λ b h. h

pub mem_get_word_p-lt :
    (a : ℕ) (e : EmulatorContext) → IsValid e → Ensures (ValueBelow (2 ^ 16)) (mem_get_word_p a e)
unfolding mem_get_word_p
mem_get_word_p-lt a e v =
    Ensures-bind (λ b. b < 2 ^ 8) (ValueBelow (2 ^ 16)) (peek (u32 (a + 0)) e) _
      (peek-lt (u32 (a + 0)) e v)
      λ lo h₀.
        Ensures-bind (λ b. b < 2 ^ 8) (ValueBelow (2 ^ 16)) (peek (u32 (a + 1)) e) _
          (peek-lt (u32 (a + 1)) e v) λ hi h₁. omega (arith, word_from_bytes-eq hi lo h₀)

pub mem_get_dword_p-lt :
    (a : ℕ) (e : EmulatorContext) → IsValid e → Ensures (ValueBelow (2 ^ 32)) (mem_get_dword_p a e)
unfolding mem_get_dword_p
mem_get_dword_p-lt a e v =
    Ensures-bind (λ b. b < 2 ^ 8) (ValueBelow (2 ^ 32)) (peek (u32 (a + 0)) e) _
      (peek-lt (u32 (a + 0)) e v)
      λ ll h₀.
        Ensures-bind (λ b. b < 2 ^ 8) (ValueBelow (2 ^ 32)) (peek (u32 (a + 1)) e) _
          (peek-lt (u32 (a + 1)) e v)
          λ lh h₁.
            Ensures-bind (λ b. b < 2 ^ 8) (ValueBelow (2 ^ 32)) (peek (u32 (a + 2)) e) _
              (peek-lt (u32 (a + 2)) e v)
              λ ul h₂.
                Ensures-bind (λ b. b < 2 ^ 8) (ValueBelow (2 ^ 32)) (peek (u32 (a + 3)) e) _
                  (peek-lt (u32 (a + 3)) e v)
                  λ uh h₃. omega (arith, dword_from_bytes-eq uh ul lh ll h₂ h₁ h₀)
