-- ===== src/Emit/Load32/Run.antt =====
-- LOAD32 from the assembler to the emulator.
use mathlib.Core.Path.{subst}
use emylathor.Base.{ℕ, suc, ◌+◌, ◌/◌, ◌%◌, ◌^◌, ◌<◌, ◌≤◌, ◌≡◌, ◌≢◌, refl, ◌∙◌, false, arith, u32}
use emylathor.Machine.{EmulatorContext}
use emylathor.Valid.{IsValid}
use emylathor.Cpu.Execute.{cpu_execute}
use emylathor.Cpu.Execute.Exchange.{exchanged_loads}
use emylathor.Emit.{EmitContext, emitted}
use emylathor.Emit.Buffer.{IsAligned, available, same_value}
use emylathor.Emit.Loaded.{IsLoadedFrom, stands_at}
use emylathor.Emit.Labels.Order.{loads}
use emylathor.Emit.Load32.{load32}
use emylathor.Emit.Load32.Emits.{exchanges, HoldsLoad32, load32-Emits}

-- What LOAD32 of a dword into a register beyond the first eight emits, without a condition, into an
-- aligned dynamic buffer with memory available and below four gigabytes, loads the dword into the
-- register when it lies at the instruction pointer of a state in range: in four rounds, and without a
-- change to another register, R7 among them, or to the memory.
pub load32_lem :
    (fresh : ℕ → ℕ → ℕ) (r val : ℕ) (ctx ctx₁ : EmitContext) (e : EmulatorContext)
    → 8 ≤ r
    → r < 2 ^ 4
    → val < 2 ^ 32
    → IsAligned ctx
    → ctx.size + 2048 < 2 ^ 32
    → load32 (available fresh) 0 r val ctx ≡ emitted ctx₁
    → IsValid e
    → IsLoadedFrom ctx₁ ctx.pos 16 e
    → (e₄ : EmulatorContext) × ((n : ℕ)
        → cpu_execute (suc (suc (suc (suc n)))) false e ≡ cpu_execute n false e₄)
      × (e₄.pos ≡ u32 (e.pos + 16))
      × (e₄.memory ≡ e.memory)
      × (e₄.regs r ≡ val)
      × ((j : ℕ) → r ≢ j → e₄.regs j ≡ e.regs j)
load32_lem fresh r val ctx ctx₁ e h hr hv a l done v at =
    let (ctx₂, done₂, a₂, p₂, holds, kept) =
      load32-Emits fresh 0 (omega arith) r val ctx h hr hv a l in
    let (i1, i2, i3, i4) : HoldsLoad32 ctx.pos 0 r val ctx₁ =
      subst (HoldsLoad32 ctx.pos 0 r val) (same_value _ ctx₂ ctx₁ done₂ done) holds in
    let at_byte = stands_at ctx₁ ctx.pos 16 e in
    let (e₄, runs, pos, memory, loaded, others) =
      exchanged_loads e r (exchanges 0 r) (loads 0 14 (val % 2 ^ 16)) (loads 0 15 (val / 2 ^ 16)) v
        at.0 at.1 (at_byte 0 e.pos ctx.pos at (omega arith) (omega arith) (omega arith) ∙ i1)
        (at_byte 4 (e.pos + 4) (ctx.pos + 4) at (omega arith) refl refl ∙ i2)
        (at_byte 8 (e.pos + 8) (ctx.pos + 8) at (omega arith) refl refl ∙ i3)
        (at_byte 12 (e.pos + 12) (ctx.pos + 12) at (omega arith) refl refl ∙ i4)
        (record {
          exchange = record { opcode_eq = refl; always = refl; first_eq = refl; second_eq = refl };
          beyond = omega arith;
          low_load = record {
            opcode_eq = refl;
            prefix_eq = refl;
            half = omega arith;
            first_eight = omega arith;
          };
          high_load = record {
            opcode_eq = refl;
            prefix_eq = refl;
            half = omega arith;
            first_eight = omega arith;
          };
          low_lt = omega arith;
          high_lt = omega arith;
          low_dst = refl;
          high_dst = refl;
          low_always = refl;
          high_always = refl;
        }) in
    (e₄, runs, pos, memory, loaded ∙ omega arith, others)
