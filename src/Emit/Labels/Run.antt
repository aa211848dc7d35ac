-- ===== src/Emit/Labels/Run.antt =====
-- A resolved reference in the emulator.
use emylathor.Base.{
  ℕ, suc, ◌+◌, ◌*◌, ◌/◌, ◌%◌, ◌^◌, ◌<◌, ◌≡◌, ◌≢◌, refl, ap, ◌∙◌, false, arith, u32, if◌then◌else◌,
}
use emylathor.Machine.{EmulatorContext, Instruction}
use emylathor.Valid.{IsValid}
use emylathor.Cpu.Flags.{condition_holds, cpu_reg_flgs}
use emylathor.Cpu.Execute.{cpu_execute}
use emylathor.Cpu.Execute.Load.{IsWordLoad, two_loads}
use emylathor.Emit.{EmitContext}
use emylathor.Emit.Loaded.{IsLoadedFrom, stands_at}
use emylathor.Emit.Labels.{LabelRef}
use emylathor.Emit.Labels.Order.{IsWordRef, HoldsAddress, loads}

-- The bytes of a reference lie at the instruction pointer.
abbrev pub IsLoadedAt : EmitContext → LabelRef → EmulatorContext → Type 0
IsLoadedAt b lr e = IsLoadedFrom b lr.pos 8 e

loads-IsWordLoad :
    (r dst cond imm16 : ℕ) → r < 8 → dst / 2 ≡ r → IsWordLoad r (loads cond dst imm16)
loads-IsWordLoad r dst cond imm16 h k = record {
  opcode_eq = refl;
  prefix_eq = refl;
  half = k;
  first_eight = h;
}

-- When the bytes of a reference, with the address of its label in them, lie at the instruction
-- pointer, two rounds of the loop load the address into the register if the condition of the
-- reference holds, and leave all registers alone if not. In both cases they go on eight bytes further
-- and change no other register and no memory.
pub reference_lem :
    (b : EmitContext) (lr : LabelRef) (address : ℕ) (e : EmulatorContext)
    → IsWordRef lr
    → HoldsAddress b lr address
    → address < 2 ^ 32
    → IsValid e
    → IsLoadedAt b lr e
    → (e₂ : EmulatorContext) × ((n : ℕ)
        → cpu_execute (suc (suc n)) false e ≡ cpu_execute n false e₂)
      × IsValid e₂
      × (e₂.pos ≡ u32 (e.pos + 8))
      × (e₂.memory ≡ e.memory)
      × (e₂.memory_size ≡ e.memory_size)
      × ((j : ℕ) → lr.reg ≢ j → e₂.regs j ≡ e.regs j)
      × (e₂.regs lr.reg
          ≡ (if condition_holds lr.cond (e.regs cpu_reg_flgs) then address else e.regs lr.reg))
reference_lem b lr address e (hr, hc) (low, high) ha v at =
    let holds = condition_holds lr.cond (e.regs cpu_reg_flgs) in
    let first : Instruction = loads lr.cond (2 * lr.reg) (address % 2 ^ 16) in
    let second : Instruction = loads lr.cond (2 * lr.reg + 1) (address / 2 ^ 16) in
    let (e₂, runs, v₂, pos, memory, memory_size, others, loaded) =
      two_loads e lr.reg first second v
        (loads-IsWordLoad lr.reg (2 * lr.reg) lr.cond (address % 2 ^ 16) hr (omega arith))
        (loads-IsWordLoad lr.reg (2 * lr.reg + 1) lr.cond (address / 2 ^ 16) hr (omega arith))
        (omega arith) (omega arith) refl refl (omega (arith, at.0), at.1)
        (omega (arith, at.0), at.1)
        (stands_at b lr.pos 8 e 0 e.pos lr.pos at (omega arith) (omega arith) (omega arith) ∙ low)
        (stands_at b lr.pos 8 e 4 (e.pos + 4) (lr.pos + 4) at (omega arith) refl refl ∙ high) refl
        holds refl in
    (
      e₂,
      runs,
      v₂,
      pos,
      memory,
      memory_size,
      others,
      loaded ∙ ap (λ w. if holds then w else e.regs lr.reg) (omega arith),
    )
