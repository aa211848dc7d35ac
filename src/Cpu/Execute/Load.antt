-- ===== src/Cpu/Execute/Load.antt =====
-- Two LOADI, as the assembler emits them for the address of a label.
use emylathor.Base.{
  ℕ, suc, ◌+◌, ◌*◌, ◌/◌, ◌^◌, ◌<◌, ◌≡◌, ◌≢◌, refl, ap, ◌∙◌, Bool, true, false, some, arith, u32,
  if◌then◌else◌,
}
use mathlib.Core.Path.{subst}
use emylathor.Machine.{EmulatorContext, Instruction, ◌>>=◌}
use emylathor.Valid.{IsValid, IsEncoded}
use emylathor.Decode.{decode_bytes}
use emylathor.Cpu.Flags.{condition_holds, cpu_reg_flgs}
use emylathor.Cpu.Move.{ins_loadi}
use emylathor.Cpu.Move.Laws.{ins_loadi-ins_loadi, ins_loadi-frame, ins_loadi-code, ins_loadi-regs}
use emylathor.Cpu.Move.Valid.{ins_loadi-IsValid}
use emylathor.Cpu.Execute.{dispatch, continues, cpu_execute}
use emylathor.Cpu.Execute.Laws.{fetched, after}
use emylathor.Cpu.Execute.Program.{code_at, IsCode, skips, runs, fetched-IsValid, code_at-IsEncoded}

-- A LOADI of a word into a half of one of the first eight registers.
pub record IsWordLoad (r : ℕ) (ins : Instruction) : Type 0 where
  pub opcode_eq : ins.opcode ≡ 0x06
  pub prefix_eq : ins.prefix ≡ 1
  pub half : ins.dst / 2 ≡ r
  pub first_eight : r < 8

dispatch-ins_loadi :
    (ins : Instruction) (e : EmulatorContext)
    → ins.opcode ≡ 0x06
    → dispatch ins e ≡ some (continues (ins_loadi ins e))
unfolding dispatch
dispatch-ins_loadi ins e h = ground arith

-- The state after the round of a LOADI, by whether it is executed.
abbrev after_load : Bool → Instruction → EmulatorContext → EmulatorContext
after_load true ins e = ins_loadi ins (fetched e)
after_load false ins e = fetched e

module _ (e : EmulatorContext) (ins : Instruction) (v : IsValid e) (c : IsCode e.pos e)
    (stands : code_at e.pos e ≡ ins) (r : ℕ) (w : IsWordLoad r ins) where
  load_step :
      (b : Bool)
      → condition_holds ins.condition (e.regs cpu_reg_flgs) ≡ b
      → (e₁ : EmulatorContext) × ((n : ℕ) → cpu_execute (suc n) false e ≡ cpu_execute n false e₁)
        × (e₁ ≡ after_load b ins e)
        × IsValid e₁
        × (e₁.pos ≡ u32 (e.pos + 4))
        × (e₁.memory ≡ e.memory)
        × (e₁.memory_size ≡ e.memory_size)
        × ((j : ℕ) → r ≢ j → e₁.regs j ≡ e.regs j)
  load_step false h = (
    fetched e,
    (λ n. skips e ins v c stands n h),
    refl,
    fetched-IsValid e v,
    refl,
    refl,
    refl,
    λ j k. refl,
  )
  load_step true h =
      let encoded = subst IsEncoded stands (code_at-IsEncoded e.pos e v) in
      let (pos, memory, size) = ins_loadi-code ins (fetched e) in
      let prefix = w.prefix_eq in
      (
        ins_loadi ins (fetched e),
        (λ n.
            runs e ins v c stands n h
            ∙ ap (λ o. o >>= after n false) (dispatch-ins_loadi ins (fetched e) w.opcode_eq)),
        refl,
        ins_loadi-IsValid ins (fetched e) (fetched-IsValid e v) encoded,
        pos,
        memory,
        size,
        λ j k. ins_loadi-frame ins (fetched e) r j (omega arith) w.half k,
      )

module _ (e : EmulatorContext) (r : ℕ) (low high : Instruction) (v : IsValid e)
    (wl : IsWordLoad r low) (wh : IsWordLoad r high) (il : low.imm16 < 2 ^ 16)
    (ih : high.imm16 < 2 ^ 16) (dl : low.dst ≡ 2 * r) (dh : high.dst ≡ 2 * r + 1) where
  loaded_value :
      (b : Bool) (e₁ e₂ : EmulatorContext)
      → e₁ ≡ after_load b low e
      → e₂ ≡ after_load b high e₁
      → e₂.regs r ≡ (if b then low.imm16 + high.imm16 * 2 ^ 16 else e.regs r)
  loaded_value false e₁ e₂ p q = ap (λ x. x.regs r) q ∙ ap (λ x. x.regs r) p
  loaded_value true e₁ e₂ p q =
      let pl = wl.prefix_eq in
      let ph = wh.prefix_eq in
      ap (λ x. x.regs r) q
      ∙ ap (λ f. f r) (ins_loadi-regs high e₁ (fetched e₁) refl)
      ∙ ap (λ x. (ins_loadi high x).regs r) p
      ∙ ins_loadi-ins_loadi low high r (fetched e) (fetched-IsValid e v) (omega arith) (omega arith)
          il ih dl dh

  -- Two of them in a row, with one condition: if it holds, they load the dword of their data into the
  -- register, and otherwise they do nothing.
  pub two_loads :
      IsCode e.pos e
      → IsCode (e.pos + 4) e
      → code_at e.pos e ≡ low
      → code_at (e.pos + 4) e ≡ high
      → low.condition ≡ high.condition
      → (b : Bool) → condition_holds low.condition (e.regs cpu_reg_flgs) ≡ b
      → (e₂ : EmulatorContext) × ((n : ℕ)
          → cpu_execute (suc (suc n)) false e ≡ cpu_execute n false e₂)
        × IsValid e₂
        × (e₂.pos ≡ u32 (e.pos + 8))
        × (e₂.memory ≡ e.memory)
        × (e₂.memory_size ≡ e.memory_size)
        × ((j : ℕ) → r ≢ j → e₂.regs j ≡ e.regs j)
        × (e₂.regs r ≡ (if b then low.imm16 + high.imm16 * 2 ^ 16 else e.regs r))
  two_loads c c₄ at_low at_high same b holds =
      let (e₁, run₁, is₁, v₁, p₁, m₁, s₁, f₁) = load_step e low v c at_low r wl b holds in
      let small = wl.first_eight in
      let next : e₁.pos ≡ e.pos + 4 = omega (arith, c.0, c₄.0, c.1) in
      let stands : code_at e₁.pos e₁ ≡ high =
        ap (λ p. code_at p e₁) next
        ∙ ap
            (λ m.
              decode_bytes (m (e.pos + 4)) (m (e.pos + 4 + 1)) (m (e.pos + 4 + 2))
                (m (e.pos + 4 + 3)))
            m₁
        ∙ at_high in
      let flags = f₁ cpu_reg_flgs (omega arith) in
      let holds₁ : condition_holds high.condition (e₁.regs cpu_reg_flgs) ≡ b = cc in
      let (e₂, run₂, is₂, v₂, p₂, m₂, s₂, f₂) =
        load_step e₁ high v₁ (omega (arith, c₄.0), omega (arith, c₄.1)) stands r wh b holds₁ in
      (
        e₂,
        (λ n. run₁ (suc n) ∙ run₂ n),
        v₂,
        omega (arith, c₄.0, c₄.1),
        m₂ ∙ m₁,
        s₂ ∙ s₁,
        (λ j k. f₂ j k ∙ f₁ j k),
        loaded_value b e₁ e₂ is₁ is₂,
      )
