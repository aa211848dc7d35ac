-- ===== src/Cpu/Execute/Halts.antt =====
-- Programs without jumps end.
use mathlib.Core.Path.{subst₃}
use emylathor.Base.{
  ℕ, zero, suc, ◌+◌, ◌*◌, ◌%◌, ◌^◌, ◌≤◌, ◌≡◌, refl, sym, ap, ◌∙◌, true, false, some, Bool-cases,
  inl, inr, u32, arith,
}
use emylathor.Machine.{EmulatorContext, Instruction, OnlyRegs, ◌>>=◌}
use emylathor.Valid.{IsValid}
use emylathor.Decode.{decode_bytes}
use emylathor.Cpu.Flags.{condition_holds, cpu_reg_flgs}
use emylathor.Cpu.Flags.Laws.{condition_holds-always}
use emylathor.Cpu.Execute.{returned, cpu_execute}
use emylathor.Cpu.Execute.Laws.{fetched, after}
use emylathor.Cpu.Execute.Valid.{continues-IsValid_after}
use emylathor.Cpu.Execute.Program.{
  code_at, IsCode, skips, runs, stops, fetched-IsValid, code_at-IsEncoded,
}
use emylathor.Cpu.Execute.Straight.{is_straight, dispatch-OnlyRegs}

-- The instruction at an address of a memory.
abbrev pub code_in : ℕ → (ℕ → ℕ) → Instruction
code_in a memory = decode_bytes (memory a) (memory (a + 1)) (memory (a + 2)) (memory (a + 3))

-- From an address on the memory holds so many instructions that only change registers, under any
-- condition, and then a STOP without one.
unfoldable pub IsStraightLine : ℕ → ℕ → (ℕ → ℕ) → ℕ → Type 0
IsStraightLine zero a memory size =
    ((code_in a memory).opcode ≡ 0x00) × ((code_in a memory).condition ≡ 0) × (a + 4 ≤ size)
IsStraightLine (suc k) a memory size =
    (is_straight (code_in a memory).opcode ≡ true)
    × (a + 4 ≤ size)
    × IsStraightLine k (a + 4) memory size

line_bound : (k a size : ℕ) (memory : ℕ → ℕ) → IsStraightLine k a memory size → a + 4 ≤ size
unfolding IsStraightLine
line_bound zero a size memory (op, always, inside) = inside
line_bound (suc k) a size memory (straight, inside, rest) = inside

-- One instruction that only changes registers, executed or not.
straight_step :
    (e : EmulatorContext)
    → IsValid e
    → IsCode e.pos e
    → is_straight (code_at e.pos e).opcode ≡ true
    → (e₁ : EmulatorContext) × ((n : ℕ) → cpu_execute (suc n) false e ≡ cpu_execute n false e₁)
      × OnlyRegs (fetched e) e₁
      × IsValid e₁
straight_step e v c s =
    let ins = code_at e.pos e in
    elim (Bool-cases (condition_holds ins.condition (e.regs cpu_reg_flgs))) [
      | inl h ↦
          let (e₁, done, kept) = dispatch-OnlyRegs ins (fetched e) s in
          (
            e₁,
            (λ n. runs e ins v c refl n h ∙ ap (λ o. o >>= after n false) done),
            kept,
            continues-IsValid_after ins (fetched e) e₁ (code_at-IsEncoded e.pos e v)
                (fetched-IsValid e v) done,
          )
      | inr h ↦ (fetched e, (λ n. skips e ins v c refl n h), refl, fetched-IsValid e v)
    ]

-- What the run leaves alone or counts.
pub Ended : ℕ → EmulatorContext → EmulatorContext → Type 0
Ended k e e₁ =
    (e₁.memory ≡ e.memory)
    × (e₁.ports ≡ e.ports)
    × (e₁.pos ≡ u32 (e.pos + 4 * k))
    × (e₁.instruction_count ≡ (e.instruction_count + k) % 2 ^ 64)

-- A program of any number of instructions that only change registers, under any conditions, with a
-- STOP behind them, returns 0 within one round for each of its instructions, and the same for any
-- more rounds; it has counted each of them, and left the memory and the ports alone.
pub cpu_execute_halts :
    (k n : ℕ) (e : EmulatorContext)
    → IsValid e
    → e.memory_size ≤ 2 ^ 32
    → IsStraightLine k e.pos e.memory e.memory_size
    → (e₁ : EmulatorContext) × (cpu_execute (suc k + n) false e ≡ some (returned 0 e₁))
      × Ended (suc k) e e₁
unfolding IsStraightLine Ended
cpu_execute_halts zero n e v small (op, always, inside) = (
  fetched e,
  ap (λ m. cpu_execute m false e) (omega arith)
      ∙ stops e (code_at e.pos e) v (inside, small) refl n
          (ap (λ i. condition_holds i (e.regs cpu_reg_flgs)) always
            ∙ condition_holds-always (e.regs cpu_reg_flgs))
          op,
  (refl, refl, ap u32 (omega arith), refl),
)
cpu_execute_halts (suc k) n e v small (straight, inside, rest) =
    let (e₁, runs₁, kept, v₁) = straight_step e v (inside, small) straight in
    let memory₁ : e₁.memory ≡ e.memory = ap (λ x. x.memory) kept in
    let size₁ : e₁.memory_size ≡ e.memory_size = ap (λ x. x.memory_size) kept in
    let pos₁ : e₁.pos ≡ u32 (e.pos + 4) = ap (λ x. x.pos) kept in
    let count₁ : e₁.instruction_count ≡ (e.instruction_count + 1) % 2 ^ 64 =
      ap (λ x. x.instruction_count) kept in
    let next : e₁.pos ≡ e.pos + 4 =
      omega (arith, pos₁, line_bound k (e.pos + 4) e.memory_size e.memory rest) in
    let line : IsStraightLine k e₁.pos e₁.memory e₁.memory_size =
      subst₃ (IsStraightLine k) (sym next) (sym memory₁) (sym size₁) rest in
    let (e₂, run₂, (memory₂, ports₂, pos₂, count₂)) =
      cpu_execute_halts k n e₁ v₁ (omega arith) line in
    (
      e₂,
      ap (λ m. cpu_execute m false e) (omega arith) ∙ runs₁ (suc k + n) ∙ run₂,
      (
        memory₂ ∙ memory₁,
        ports₂ ∙ ap (λ x. x.ports) kept,
        omega (arith, pos₂, next),
        omega (arith, count₂, count₁),
      ),
    )
