-- ===== src/Emit/Labels/Transfer.antt =====
-- LDCALL and LDJMP of `src/assembler/vasm.y` in the emulator.
use mathlib.Core.Bool.{true≢false}
use emylathor.Base.{
  ℕ, suc, ◌+◌, ◌^◌, ◌<◌, ◌≡◌, ◌≢◌, refl, sym, ap, ◌∙◌, Bool, true, false, ◌⊎◌, arith, u32,
  if◌then◌else◌,
}
use emylathor.Machine.{EmulatorContext}
use emylathor.Valid.{IsValid}
use emylathor.Decode.{decode_bytes}
use emylathor.Cpu.Flags.{condition_holds, cpu_reg_flgs}
use emylathor.Cpu.Move.{cpu_reg_rc}
use emylathor.Cpu.Execute.{cpu_execute}
use emylathor.Cpu.Execute.Laws.{fetched}
use emylathor.Cpu.Execute.Program.{code_at}
use emylathor.Cpu.Execute.Transfer.{op_call, transfers, transferred, transfer_step}
use emylathor.Emit.{EmitContext}
use emylathor.Emit.Encode.{instruction_at}
use emylathor.Emit.Loaded.{IsLoadedFrom, stands_at}
use emylathor.Emit.Labels.{LabelRef}
use emylathor.Emit.Labels.Order.{IsWordRef, HoldsAddress}
use emylathor.Emit.Labels.Run.{reference_lem}

-- What three rounds come to: where the condition holds, the address is in the register and is the next
-- position, and a call has left the position behind itself in RC.
pub record Transferred (op cond reg address : ℕ) (e e₃ : EmulatorContext) : Type 0 where
  pub taken :
      condition_holds cond (e.regs cpu_reg_flgs) ≡ true
      → (e₃.pos ≡ address) × (e₃.regs reg ≡ address)
  pub returns :
      condition_holds cond (e.regs cpu_reg_flgs) ≡ true
      → op ≡ op_call
      → e₃.regs cpu_reg_rc ≡ u32 (e.pos + 12)
  pub passed :
      condition_holds cond (e.regs cpu_reg_flgs) ≡ false
      → (e₃.pos ≡ u32 (e.pos + 12)) × (e₃.regs reg ≡ e.regs reg)
  pub others : (j : ℕ) → reg ≢ j → cpu_reg_rc ≢ j → e₃.regs j ≡ e.regs j
  pub memory : e₃.memory ≡ e.memory

module _ (op cond reg address : ℕ) (e e₂ : EmulatorContext)
    (two : (e₂.pos ≡ u32 (e.pos + 8))
      × (e₂.memory ≡ e.memory)
      × ((j : ℕ) → reg ≢ j → e₂.regs j ≡ e.regs j)) where
  transferred_lem :
      (holds : Bool)
      → condition_holds cond (e.regs cpu_reg_flgs) ≡ holds
      → reg < 8
      → e₂.regs reg ≡ (if holds then address else e.regs reg)
      → Transferred op cond reg address e (transferred op reg holds (fetched e₂))
  unfolding transferred
  transferred_lem false h small value = record {
    taken = λ k. absurd (true≢false (sym k ∙ h));
    returns = λ k c. absurd (true≢false (sym k ∙ h));
    passed = λ k. (omega (arith, two.0), value);
    others = λ j k r. two.2 j k;
    memory = two.1;
  }
  transferred_lem true h small value = record {
    taken = λ k. (value, ground (arith, value));
    returns = λ k c. ground (arith, two.0);
    passed = λ k. absurd (true≢false (sym h ∙ k));
    others = λ j k r. ground (arith, two.2 j k);
    memory = two.1;
  }

-- The bytes of a reference and a CALL or JMP, in the memory from the instruction pointer on, are executed
-- in three rounds of the loop: if the condition holds, the emulator goes on at the address of the
-- label, which it has loaded into the register, and LDCALL leaves the position behind itself in RC;
-- otherwise it goes on behind the statement with the register as it was. No other register and no
-- memory changes.
pub transfer_lem :
    (op : ℕ) (b : EmitContext) (lr : LabelRef) (address : ℕ) (e : EmulatorContext)
    → (op ≡ 0x0b) ⊎ (op ≡ 0x0c)
    → IsWordRef lr
    → HoldsAddress b lr address
    → instruction_at (lr.pos + 8) b ≡ transfers op lr.cond lr.reg
    → address < 2 ^ 32
    → IsValid e
    → IsLoadedFrom b lr.pos 12 e
    → (e₃ : EmulatorContext) × ((n : ℕ)
        → cpu_execute (suc (suc (suc n))) false e ≡ cpu_execute n false e₃)
      × Transferred op lr.cond lr.reg address e e₃
transfer_lem op b lr address e h w holds_address call ha v at =
    let holds = condition_holds lr.cond (e.regs cpu_reg_flgs) in
    let (e₂, runs₂, v₂, pos, memory, memory_size, others, value) =
      reference_lem b lr address e w holds_address ha v
        (omega (arith, at.0), at.1, λ k l. at.2 k (omega arith)) in
    let next : e₂.pos ≡ e.pos + 8 = omega (arith, pos, at.0, at.1) in
    let stands : code_at e₂.pos e₂ ≡ transfers op lr.cond lr.reg =
      ap (λ p. code_at p e₂) next
      ∙ ap
          (λ m.
            decode_bytes (m (e.pos + 8)) (m (e.pos + 8 + 1)) (m (e.pos + 8 + 2))
              (m (e.pos + 8 + 3)))
          memory
      ∙ stands_at b lr.pos 12 e 8 (e.pos + 8) (lr.pos + 8) at (omega arith) refl refl
      ∙ call in
    let flags : condition_holds lr.cond (e₂.regs cpu_reg_flgs) ≡ holds =
      ap (condition_holds lr.cond) (others cpu_reg_flgs (omega (arith, w.0))) in
    (
      transferred op lr.reg holds (fetched e₂),
      (λ n.
          runs₂ (suc n)
          ∙ transfer_step op lr.cond lr.reg e₂ holds h w.0 v₂
              (omega (arith, next, at.0, memory_size), omega (arith, at.1, memory_size)) stands
              flags n),
      transferred_lem op lr.cond lr.reg address e e₂ (pos, memory, others) holds refl w.0 value,
    )
