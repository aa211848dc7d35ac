-- ===== src/Cpu/Execute/Straight.antt =====
-- Programs without jumps: the instructions that only change registers.
use mathlib.Core.Bool.{true≢false}
use mathlib.Core.Path.{subst⁻¹}
use emylathor.Base.{
  ℕ, ◌≡◌, refl, sym, ap, ◌∙◌, Bool, true, false, not, ◌&&◌, Option, none, some, ◌==◌, ==_iff,
  Bool-cases, inl, inr, if◌then◌else◌,
}
use emylathor.Machine.{EmulatorContext, Instruction, OnlyRegs}
use emylathor.Cpu.Arith.Frame.{
  ins_add-OnlyRegs, ins_sub-OnlyRegs, ins_mul-OnlyRegs, ins_smul-OnlyRegs, ins_div-OnlyRegs,
  ins_mod-OnlyRegs, ins_sdiv-OnlyRegs,
}
use emylathor.Cpu.Logic.Frame.{
  ins_and-OnlyRegs, ins_or-OnlyRegs, ins_xor-OnlyRegs, ins_not-OnlyRegs, ins_shl-OnlyRegs,
  ins_shr-OnlyRegs, ins_sar-OnlyRegs, ins_sex-OnlyRegs,
}
use emylathor.Cpu.Compare.Frame.{ins_cmp-OnlyRegs, ins_test-OnlyRegs}
use emylathor.Cpu.Move.Frame.{
  ins_loadi-OnlyRegs, ins_mov-OnlyRegs, ins_movfc-OnlyRegs, ins_movtc-OnlyRegs, ins_xchg-OnlyRegs,
  ins_xchgc-OnlyRegs,
}
use emylathor.Cpu.Execute.{Round, continues, returns, dispatch}

-- The opcodes of the switch that neither return nor jump, and access neither the memory nor a port,
-- and those that it does not list.
unfoldable pub is_straight : ℕ → Bool
is_straight op =
    not (op == 0x0c)
    && not (op == 0x1b)
    && not (op == 0x01)
    && not (op == 0x19)
    && not (op == 0x0b)
    && not (op == 0x26)
    && not (op == 0x09)
    && not (op == 0x27)
    && not (op == 0x2e)
    && not (op == 0x00)
    && not (op == 0x28)
    && not (op == 0x08)
    && not (op == 0x29)

-- The round goes on, and has changed registers alone.
GoesOn : EmulatorContext → Option Round → Type 0
GoesOn e none = ⊥
GoesOn e (some (returns x e₁)) = ⊥
GoesOn e (some (continues e₁)) = OnlyRegs e e₁

if_on {ℓ κ} :
    {A : Type ℓ} (P : A → Type κ) (op n : ℕ) (x y : A)
    → (op ≡ n → P x)
    → P y
    → P (if op == n then x else y)
if_on P op n x y h₁ h₂ = elim (Bool-cases (op == n)) [
  | inl h ↦ subst⁻¹ (λ t. P (if t then x else y)) h (h₁ ((==_iff op n).0 h))
  | inr h ↦ subst⁻¹ (λ t. P (if t then x else y)) h h₂
]

module _ (ins : Instruction) (e : EmulatorContext) where
  record Fine (o : Option Round) : Type 0 where
    fine : is_straight ins.opcode ≡ true → GoesOn e o

  record Line (n : ℕ) (x : Option Round) : Type 0 where
    line : ins.opcode ≡ n → Fine x

  goes : (e₁ : EmulatorContext) → OnlyRegs e e₁ → Fine (some (continues e₁))
  unfolding GoesOn
  goes e₁ h = record { fine = λ s. h }

  on : (n : ℕ) {x : Option Round} → Fine x → Line n x
  on n h = record { line = λ p. h }

  leaves : (n : ℕ) {x : Option Round} → is_straight n ≡ false → Line n x
  leaves n h = record {
    line = λ p. record { fine = λ s. absurd (true≢false (sym s ∙ ap is_straight p ∙ h)) };
  }

  -- One more line of the switch.
  infixr 3 ◌▹◌
  ◌▹◌ : {n : ℕ} {x y : Option Round} → Line n x → Fine y → Fine (if ins.opcode == n then x else y)
  ◌▹◌ {n} {x} {y} h k = if_on Fine ins.opcode n x y h.line k

  dispatch-Fine : Fine (dispatch ins e)
  unfolding dispatch is_straight
  dispatch-Fine =
      on 0x2a (goes _ (ins_add-OnlyRegs ins e))
      ▹ on 0x21 (goes _ (ins_and-OnlyRegs ins e))
      ▹ leaves 0x0c refl
      ▹ on 0x18 (goes _ (ins_cmp-OnlyRegs ins e))
      ▹ leaves 0x1b refl
      ▹ on 0x2d (goes _ (ins_div-OnlyRegs ins e))
      ▹ leaves 0x01 refl
      ▹ leaves 0x19 refl
      ▹ leaves 0x0b refl
      ▹ on 0x06 (goes _ (ins_loadi-OnlyRegs ins e))
      ▹ leaves 0x26 refl
      ▹ leaves 0x09 refl
      ▹ leaves 0x27 refl
      ▹ on 0x2c (goes _ (ins_mul-OnlyRegs ins e))
      ▹ on 0x15 (goes _ (ins_mod-OnlyRegs ins e))
      ▹ on 0x1a (goes _ (ins_mov-OnlyRegs ins e))
      ▹ on 0x1e (goes _ (ins_movfc-OnlyRegs ins e))
      ▹ on 0x1d (goes _ (ins_movtc-OnlyRegs ins e))
      ▹ on 0x12 (goes _ (ins_not-OnlyRegs ins e))
      ▹ on 0x22 (goes _ (ins_or-OnlyRegs ins e))
      ▹ leaves 0x2e refl
      ▹ on 0x1f (goes _ (ins_sar-OnlyRegs ins e))
      ▹ on 0x14 (goes _ (ins_sex-OnlyRegs ins e))
      ▹ on 0x11 (goes _ (ins_sdiv-OnlyRegs ins e))
      ▹ on 0x24 (goes _ (ins_shl-OnlyRegs ins e))
      ▹ on 0x25 (goes _ (ins_shr-OnlyRegs ins e))
      ▹ on 0x10 (goes _ (ins_smul-OnlyRegs ins e))
      ▹ leaves 0x00 refl
      ▹ on 0x2b (goes _ (ins_sub-OnlyRegs ins e))
      ▹ leaves 0x28 refl
      ▹ leaves 0x08 refl
      ▹ leaves 0x29 refl
      ▹ on 0x16 (goes _ (ins_test-OnlyRegs ins e))
      ▹ on 0x20 (goes _ (ins_xchg-OnlyRegs ins e))
      ▹ on 0x2f (goes _ (ins_xchgc-OnlyRegs ins e))
      ▹ on 0x23 (goes _ (ins_xor-OnlyRegs ins e))
      ▹ goes e refl

  went :
      (o : Option Round)
      → GoesOn e o
      → (e₁ : EmulatorContext) × (o ≡ some (continues e₁)) × OnlyRegs e e₁
  unfolding GoesOn
  went none h = absurd h
  went (some (returns x e₁)) h = absurd h
  went (some (continues e₁)) h = (e₁, refl, h)

  pub dispatch-OnlyRegs :
      is_straight ins.opcode ≡ true
      → (e₁ : EmulatorContext) × (dispatch ins e ≡ some (continues e₁)) × OnlyRegs e e₁
  dispatch-OnlyRegs s = went (dispatch ins e) (dispatch-Fine.fine s)
