-- ===== src/Emit/Loaded.antt =====
-- Emitted bytes in the memory of the emulator.
use emylathor.Base.{ℕ, ◌+◌, ◌^◌, ◌<◌, ◌≤◌, ◌≡◌, refl, ap, ◌∙◌, arith}
use emylathor.Machine.{EmulatorContext}
use emylathor.Cpu.Execute.Program.{code_at}
use emylathor.Emit.{EmitContext}
use emylathor.Emit.Encode.{instruction_at}

-- The memory from the instruction pointer on holds so many bytes of a buffer from a position on.
abbrev pub IsLoadedFrom : EmitContext → ℕ → ℕ → EmulatorContext → Type 0
IsLoadedFrom b from length e =
    (e.pos + length ≤ e.memory_size)
    × (e.memory_size ≤ 2 ^ 32)
    × ((k : ℕ) → k < length → e.memory (e.pos + k) ≡ b.buf (from + k))

-- The emulator finds the instruction that the buffer has.
pub stands_at :
    (b : EmitContext) (from length : ℕ) (e : EmulatorContext) (k p q : ℕ)
    → IsLoadedFrom b from length e
    → k + 3 < length
    → p ≡ e.pos + k
    → q ≡ from + k
    → code_at p e ≡ instruction_at q b
stands_at b from length e k p q (w, s, same) h hp hq =
    let byte : (i p₁ q₁ : ℕ) → i < 4 → p₁ ≡ p + i → q₁ ≡ q + i → e.memory p₁ ≡ b.buf q₁ =
      λ i p₁ q₁ hi x y.
        ap e.memory (omega arith) ∙ same (k + i) (omega arith) ∙ ap b.buf (omega arith) in
    let h0 = byte 0 p q (omega arith) (omega arith) (omega arith) in
    let h1 = byte 1 (p + 1) (q + 1) (omega arith) refl refl in
    let h2 = byte 2 (p + 2) (q + 2) (omega arith) refl refl in
    let h3 = byte 3 (p + 3) (q + 3) (omega arith) refl refl in simp (h0, h1, h2, h3)
