-- ===== src/Tests/Labels.antt =====
-- A program with a label and a reference to it, and a LOAD32, assembled and run.
use Prim.Native.String.{String}
use emylathor.Base.{
  Bool, [], arith, false, if◌then◌else◌, refl, some, suc, true, u32, ℕ, ◌++◌, ◌+◌, ◌<◌, ◌∷◌, ◌≡◌,
  ◌≢◌, ◌≤◌,
}
use emylathor.Machine.{EmulatorContext}
use emylathor.Valid.{IsValid}
use emylathor.Emit.{EmitContext, emitted, exited, overran}
use emylathor.Emit.Buffer.{available}
use emylathor.Cpu.Flags.{condition_holds, cpu_reg_flgs}
use emylathor.Cpu.Execute.{cpu_execute}
use emylathor.Emit.Labels.{LabelContext, label_resolution, loadadr}
use emylathor.Emit.Labels.Order.{AreDefined, AreResolved, IsOutside}
use emylathor.Emit.Labels.Reserve.{IsLabelled, loadadr_lem}
use emylathor.Emit.Labels.Steps.{Steps-IsLabelled}
use emylathor.Emit.Labels.Assembler.{assembled_lem}
use emylathor.Emit.Labels.Run.{reference_lem}
use emylathor.Emit.Load32.Run.{load32_lem}
use emylathor.Tests.Machine.{buffer_at, garbage}
use emylathor.Tests.Table.{
  before_loop-IsLabelled, context, created, created-IsLabelled, empty-IsAligned, load32_buffer,
  load32_emitted, load32_machine, load32_machine-IsValid, loaded_machine, loaded_machine-IsValid,
  loop_name, program-Steps, resolved_buffer, resolved_buffer-HoldsAddress, table, table-IsLawful,
  to_loop,
}

loadadr_lem_example :
    let H = table in
    let fresh = garbage in
    let name = loop_name in
    let reg : ℕ = 3 in
    let cond : ℕ = 0 in
    let ctx = (context 4096 (("_LOOP", 4096) ∷ []) [] 0) in
    (reg < 8
      → ctx.buffer.pos + 4 ≢ ctx.buffer.size
      → (ctx₁ : LabelContext H.State) × (loadadr H (available fresh) true name reg cond ctx
          ≡ emitted ctx₁)
        × IsLabelled H ctx₁
        × (ctx₁.buffer.pos ≡ ctx.buffer.pos + 8)
        × (ctx₁.labels ≡ ctx.labels)
        × (ctx₁.labelrefs
            ≡ ctx.labelrefs
              ++ (record { pos = ctx.buffer.pos; reg = reg; name = name; cond = cond }) ∷ [])
        × ((i : ℕ) → i < ctx.buffer.pos → ctx₁.buffer.buf i ≡ ctx.buffer.buf i)
        × (ctx₁.buffer.size ≤ ctx.buffer.size + 512))
    × (reg < 8
        → ctx.buffer.pos + 4 ≡ ctx.buffer.size
        → loadadr H (available fresh) true name reg cond ctx ≡ overran)
    × ((malloc : Bool)
        → 8 ≤ reg
        → loadadr H (available fresh) malloc name reg cond ctx ≡ exited 255)
    × (loadadr H (available fresh) false name reg cond ctx ≡ exited 255)
loadadr_lem_example =
    loadadr_lem table garbage loop_name 3 0 (context 4096 (("_LOOP", 4096) ∷ []) [] 0)
      before_loop-IsLabelled (omega arith) (omega arith)

Steps-IsLabelled_example :
    let H = table in
    let fresh = garbage in
    let ctx = (context 0 [] [] 0) in
    let ctx₁ = (context 4096 (("_LOOP", 4096) ∷ []) (to_loop ∷ []) 8) in
    IsLabelled H ctx₁
    × ((name : String) (a : ℕ)
        → H.lookup_extended ctx.labels name ≡ some a
        → H.lookup_extended ctx₁.labels name ≡ some a)
Steps-IsLabelled_example =
    Steps-IsLabelled table garbage (context 0 [] [] 0)
      (context 4096 (("_LOOP", 4096) ∷ []) (to_loop ∷ []) 8) table-IsLawful created-IsLabelled
      program-Steps

assembled_lem_example :
    let H = table in
    let fresh = garbage in
    let ctx = (context 0 [] [] 0) in
    let ctx₁ = (context 4096 (("_LOOP", 4096) ∷ []) (to_loop ∷ []) 8) in
    (AreDefined (H.lookup_extended ctx₁.labels) ctx₁.labelrefs
      → (b : EmitContext) × (label_resolution H (available fresh) ctx₁
          ≡ emitted (record ctx₁ { buffer = b }))
        × AreResolved (H.lookup_extended ctx₁.labels) b ctx₁.labelrefs
        × ((i : ℕ) → IsOutside ctx₁.labelrefs i → b.buf i ≡ ctx₁.buffer.buf i))
    × (¬ AreDefined (H.lookup_extended ctx₁.labels) ctx₁.labelrefs
        → label_resolution H (available fresh) ctx₁ ≡ exited 255)
assembled_lem_example =
    assembled_lem table garbage 512 (context 0 [] [] 0)
      (context 4096 (("_LOOP", 4096) ∷ []) (to_loop ∷ []) 8) table-IsLawful refl (omega arith)
      created program-Steps

reference_lem_example :
    let b = resolved_buffer in
    let lr = to_loop in
    let address : ℕ = 4096 in
    let e = loaded_machine in
    (e₂ : EmulatorContext) × ((n : ℕ) → cpu_execute (suc (suc n)) false e ≡ cpu_execute n false e₂)
    × IsValid e₂
    × (e₂.pos ≡ u32 (e.pos + 8))
    × (e₂.memory ≡ e.memory)
    × (e₂.memory_size ≡ e.memory_size)
    × ((j : ℕ) → lr.reg ≢ j → e₂.regs j ≡ e.regs j)
    × (e₂.regs lr.reg
        ≡ (if condition_holds lr.cond (e.regs cpu_reg_flgs) then address else e.regs lr.reg))
reference_lem_example =
    reference_lem resolved_buffer to_loop 4096 loaded_machine (omega arith, omega arith)
      resolved_buffer-HoldsAddress (omega arith) loaded_machine-IsValid
      (omega arith, omega arith, λ k h. refl)

load32_lem_example :
    let r : ℕ = 9 in
    let val : ℕ = 0x1234_5678 in
    let ctx = (buffer_at 0) in
    let ctx₁ = load32_buffer in
    let e = load32_machine in
    (e₄ : EmulatorContext) × ((n : ℕ)
      → cpu_execute (suc (suc (suc (suc n)))) false e ≡ cpu_execute n false e₄)
    × (e₄.pos ≡ u32 (e.pos + 16))
    × (e₄.memory ≡ e.memory)
    × (e₄.regs r ≡ val)
    × ((j : ℕ) → r ≢ j → e₄.regs j ≡ e.regs j)
load32_lem_example =
    load32_lem garbage 9 0x1234_5678 (buffer_at 0) load32_buffer load32_machine (omega arith)
      (omega arith) (omega arith) empty-IsAligned (omega arith) load32_emitted
      load32_machine-IsValid (omega arith, omega arith, λ k h. refl)
