-- ===== src/Cpu/Arith/Laws.antt =====
-- What each arithmetic instruction does to its destination and to the flags.
use emylathor.Base.{
  ℕ, ◌+◌, ◌-◌, ◌*◌, ◌%◌, ◌^◌, ◌<◌, ◌≡◌, ◌≢◌, refl, ◌==◌, ltb, leb, Bool, true, false, not, ◌&&◌,
  if◌then◌else◌, arith, signed32, unsigned32, unsigned32-lt, pos, negsuc, ℤ, ◌||◌, ap, ◌∙◌,
}
use emylathor.Base.Int.{◌+ℤ◌, ◌-ℤ◌, ◌*ℤ◌, div_ℤ, ltb_ℤ}
use native.Mathlib.Nat.{div-add-mod', mod-lt}
use emylathor.Machine.{set_reg, AreDwords, EmulatorContext, Instruction}
use emylathor.Cpu.Flags.{cpu_reg_flgs, assign_flag}
use emylathor.Cpu.Flags.Laws.{flag}
use emylathor.Cpu.Effect.{
  AluEffect, AluEffect-congr, both_flags-AluEffect, carry_first-AluEffect, overflow_first-AluEffect,
  overflow_last-AluEffect,
}
use emylathor.Cpu.Operand.{operand_b, prefix_imm}
use emylathor.Cpu.Arith.{
  addl, subl, imull, ins_add, ins_sub, ins_mul, ins_smul, ins_div, ins_mod, ins_sdiv,
}
use emylathor.Cpu.Arith.Signed.{
  fits32, addl_lem, subl_lem, eq-fits32, fits_exact, signed_product_low, not-fits32, fits32-div_ℤ,
  operand_b-lt,
}

addl_parts :
    (a b : ℕ) → ((addl a b).value ≡ (a + b) % 2 ^ 32) × ((addl a b).carry ≡ leb (2 ^ 32) (a + b))
unfolding addl
addl_parts a b = (refl, refl)

subl_parts :
    (a b : ℕ) → ((subl a b).value ≡ (a + 2 ^ 32 - b) % 2 ^ 32) × ((subl a b).carry ≡ ltb a b)
unfolding subl
subl_parts a b = (refl, refl)

imull_parts :
    (a b : ℕ)
    → a < 2 ^ 32
    → b < 2 ^ 32
    → let p = signed32 a *ℤ signed32 b in
      ((imull a b).value ≡ a * b % 2 ^ 32)
      × ((imull a b).overflow ≡ not (fits32 p))
      × (fits32 p ≡ true → signed32 (imull a b).value ≡ p)
unfolding imull
imull_parts a b ha hb =
    let p = signed32 a *ℤ signed32 b in
    (signed_product_low a b ha hb, ap not (eq-fits32 p), fits_exact p)

value_lem :
    (o l : Bool) (z : ℤ)
    → o ≡ l
    → unsigned32 (if o then pos 0 else z) ≡ (if l then 0 else unsigned32 z)
value_lem true l z h = rw (← h)
value_lem false l z h = rw (← h)

module _ (ins : Instruction) (e : EmulatorContext) (he : AreDwords e.regs) (hi : ins.imm12 < 2 ^ 12)
    (ne : ins.dst ≢ cpu_reg_flgs) where
  abbrev a : ℕ
  a = e.regs ins.opa

  abbrev b : ℕ
  b = operand_b ins e

  hb : b < 2 ^ 32
  hb = operand_b-lt ins e he hi

  -- ADD leaves the sum modulo 2^32, C exactly if the unsigned sum does not fit and O exactly if the
  -- signed sum does not; where it does, the result stands for it. Nothing else changes in the
  -- registers and flags. (The destination is not the flags register.)
  pub ins_add_lem :
      let a = e.regs ins.opa in
      let b = operand_b ins e in
      let sum = signed32 a +ℤ signed32 b in
      let r = ins_add ins e in
      AluEffect ins.dst ((a + b) % 2 ^ 32) (not (fits32 sum)) (leb (2 ^ 32) (a + b)) e r
      × (fits32 sum ≡ true → signed32 (r.regs ins.dst) ≡ sum)
  unfolding ins_add
  ins_add_lem =
      let (value, carry) = addl_parts a b in
      let (over, exact) = addl_lem a b (he ins.opa) hb in
      let effect = AluEffect-congr value over carry (
        both_flags-AluEffect ins.dst (addl a b).value e ne he (rw value (omega arith))
          (addl a b).overflow (addl a b).carry) in
      (effect, λ h. rw (effect.result, ← value) (exact (ground (arith, over))))

  -- SUB leaves the difference modulo 2^32, C exactly if it borrows and O exactly if the signed
  -- difference does not fit; where it does, the result stands for it. Nothing else changes in the
  -- registers and flags. (The destination is not the flags register.)
  pub ins_sub_lem :
      let a = e.regs ins.opa in
      let b = operand_b ins e in
      let difference = signed32 a -ℤ signed32 b in
      let r = ins_sub ins e in
      AluEffect ins.dst ((a + 2 ^ 32 - b) % 2 ^ 32) (not (fits32 difference)) (ltb a b) e r
      × (fits32 difference ≡ true → signed32 (r.regs ins.dst) ≡ difference)
  unfolding ins_sub
  ins_sub_lem =
      let (value, carry) = subl_parts a b in
      let (over, exact) = subl_lem a b (he ins.opa) hb in
      let effect = AluEffect-congr value over carry (
        both_flags-AluEffect ins.dst (subl a b).value e ne he (rw value (omega arith))
          (subl a b).overflow (subl a b).carry) in
      (effect, λ h. rw (effect.result, ← value) (exact (ground (arith, over))))

  -- MUL and SMUL leave the same low half of the product. MUL sets C exactly if the unsigned product
  -- does not fit, SMUL sets O exactly if the signed product does not, and each leaves the other
  -- flag; where the signed product fits, the result stands for it. (The destination is not the
  -- flags register.)
  pub products_lem :
      let a = e.regs ins.opa in
      let b = operand_b ins e in
      let product = signed32 a *ℤ signed32 b in
      AluEffect ins.dst (a * b % 2 ^ 32) (flag 2 e) (leb (2 ^ 32) (a * b)) e (ins_mul ins e)
      × AluEffect ins.dst (a * b % 2 ^ 32) (not (fits32 product)) (flag 1 e) e (ins_smul ins e)
      × (fits32 product ≡ true → signed32 ((ins_smul ins e).regs ins.dst) ≡ product)
  unfolding ins_mul ins_smul
  products_lem =
      let (value, over, exact) = imull_parts a b (he ins.opa) hb in
      let signed = AluEffect-congr value over refl (
        overflow_last-AluEffect ins.dst (imull a b).value e ne he (rw value (omega arith))
          (imull a b).overflow) in
      (
        AluEffect-congr refl refl (ground arith) (
            carry_first-AluEffect ins.dst (a * b % 2 ^ 32) e ne he (omega arith)
              (ltb 0xffff_ffff (a * b))),
        signed,
        λ h. rw (signed.result, ← value) (exact h),
      )

  -- SDIV by a divisor other than 0 leaves the quotient of the signed numbers, rounded towards 0,
  -- and clears O; only the least number divided by -1 leaves 0 and sets O. By 0 it does nothing.
  -- (The destination is not the flags register.)
  pub ins_sdiv_lem :
      let a = e.regs ins.opa in
      let b = operand_b ins e in
      let lost = (a == 2 ^ 31) && (b == 2 ^ 32 - 1) in
      let quotient = div_ℤ (signed32 a) (signed32 b) in
      let r = ins_sdiv ins e in
      (b ≡ 0 → r ≡ e)
      × (b ≢ 0
          → AluEffect ins.dst (if lost then 0 else unsigned32 quotient) lost (flag 1 e) e r
            × (lost ≡ false → signed32 (r.regs ins.dst) ≡ quotient))
  unfolding ins_sdiv
  ins_sdiv_lem = (
    λ z. ground arith,
    λ nz.
        let quotient = div_ℤ (signed32 a) (signed32 b) in
        let lost = (a == 2 ^ 31) && (b == 2 ^ 32 - 1) in
        let overflow = ltb_ℤ (pos (2 ^ 31 - 1)) quotient || ltb_ℤ quotient (negsuc (2 ^ 31 - 1)) in
        let value = unsigned32 (if overflow then pos 0 else quotient) in
        let fits = fits32-div_ℤ a b (he ins.opa) hb nz in
        let over : overflow ≡ lost = not-fits32 quotient ∙ ground (arith, fits) in
        let step : ins_sdiv ins e ≡ set_reg (assign_flag 4 overflow e) ins.dst value =
          ground arith in
        let effect = AluEffect-congr (value_lem overflow lost quotient over) over refl (
          overflow_first-AluEffect ins.dst value e ne he
            (unsigned32-lt (if overflow then pos 0 else quotient)) overflow) in
        (
          rw step effect,
          λ h. rw (step, effect.result, h) (fits_exact quotient (ground (arith, fits))),
        ),
  )

-- DIV and MOD with a register operand other than 0 leave the quotient and the remainder of the
-- unsigned numbers; by 0 both do nothing, and no exception is raised.
pub ins_div-ins_mod :
    (ins : Instruction) (e : EmulatorContext)
    → ins.prefix ≢ prefix_imm
    → let b = e.regs ins.opb in
      let q = (ins_div ins e).regs ins.dst in
      let r = (ins_mod ins e).regs ins.dst in
      (b ≡ 0 → (ins_div ins e ≡ e) × (ins_mod ins e ≡ e))
      × (b ≢ 0 → (q * b + r ≡ e.regs ins.opa) × (r < b))
unfolding ins_div ins_mod
ins_div-ins_mod ins e h = (
  λ z. (ground arith, ground arith),
  λ nz. ground (
    arith,
    div-add-mod' (e.regs ins.opa) (e.regs ins.opb),
    mod-lt (e.regs ins.opa) {m = e.regs ins.opb},
  ),
)
