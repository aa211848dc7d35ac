-- ===== src/Cpu/Arith/Valid.antt =====
-- The range of the state under the arithmetic instructions.
use emylathor.Base.{ℕ, ◌<◌, ◌≤◌, ◌^◌, ◌/◌, ◌%◌, ◌==◌, arith, unsigned32-lt, signed32}
use emylathor.Base.Int.{◌*ℤ◌}
use native.Mathlib.Nat.{div-add-mod'}
use emylathor.Machine.{EmulatorContext, Instruction, set_reg}
use emylathor.Valid.{IsValid, if_both, set_reg-IsValid}
use emylathor.Cpu.Flags.{assign_flag}
use emylathor.Cpu.Flags.Laws.{assign_flag-IsValid}
use emylathor.Cpu.Operand.{operand_b}
use emylathor.Cpu.Arith.{
  AluResult, addl, subl, imull, ins_add, ins_sub, ins_mul, ins_smul, ins_div, ins_mod, ins_sdiv,
}

addl-lt : (a b : ℕ) → (addl a b).value < 2 ^ 32
unfolding addl
addl-lt a b = omega arith

subl-lt : (a b : ℕ) → (subl a b).value < 2 ^ 32
unfolding subl
subl-lt a b = omega arith

imull-lt : (a b : ℕ) → (imull a b).value < 2 ^ 32
unfolding imull
imull-lt a b = unsigned32-lt (signed32 a *ℤ signed32 b)

pub quotient-le : (m n : ℕ) → m / n ≤ m
quotient-le m n = grind (arith, div-add-mod' m n)

remainder-le : (m n : ℕ) → m % n ≤ m
remainder-le m n = grind (arith, div-add-mod' m n)

module _ (ins : Instruction) (e : EmulatorContext) (v : IsValid e) where
  alu-IsValid :
      (r : AluResult)
      → r.value < 2 ^ 32
      → IsValid (assign_flag 2 r.carry (assign_flag 4 r.overflow (set_reg e ins.dst r.value)))
  alu-IsValid r h =
      assign_flag-IsValid 2 r.carry _ (omega arith)
        (assign_flag-IsValid 4 r.overflow _ (omega arith) (set_reg-IsValid e ins.dst r.value v h))

  pub ins_add-IsValid : IsValid (ins_add ins e)
  unfolding ins_add
  ins_add-IsValid = alu-IsValid (addl (e.regs ins.opa) (operand_b ins e)) (addl-lt _ _)

  pub ins_sub-IsValid : IsValid (ins_sub ins e)
  unfolding ins_sub
  ins_sub-IsValid = alu-IsValid (subl (e.regs ins.opa) (operand_b ins e)) (subl-lt _ _)

  pub ins_mul-IsValid : IsValid (ins_mul ins e)
  unfolding ins_mul
  ins_mul-IsValid =
      set_reg-IsValid _ ins.dst _ (assign_flag-IsValid 2 _ e (omega arith) v) (omega arith)

  pub ins_smul-IsValid : IsValid (ins_smul ins e)
  unfolding ins_smul
  ins_smul-IsValid =
      let r = imull (e.regs ins.opa) (operand_b ins e) in
      assign_flag-IsValid 4 r.overflow _ (omega arith)
        (set_reg-IsValid e ins.dst r.value v (imull-lt _ _))

  pub ins_div-IsValid : IsValid (ins_div ins e)
  unfolding ins_div
  ins_div-IsValid =
      let a = e.regs ins.opa in
      if_both IsValid (operand_b ins e == 0) v (
        set_reg-IsValid e ins.dst (a / operand_b ins e) v
          (omega (arith, quotient-le a (operand_b ins e), v.regs_dword ins.opa)))

  pub ins_mod-IsValid : IsValid (ins_mod ins e)
  unfolding ins_mod
  ins_mod-IsValid =
      let a = e.regs ins.opa in
      if_both IsValid (e.regs ins.opb == 0) v (
        set_reg-IsValid e ins.dst (a % e.regs ins.opb) v
          (omega (arith, remainder-le a (e.regs ins.opb), v.regs_dword ins.opa)))

  pub ins_sdiv-IsValid : IsValid (ins_sdiv ins e)
  unfolding ins_sdiv
  ins_sdiv-IsValid =
      if_both IsValid (operand_b ins e == 0) v
        (set_reg-IsValid _ ins.dst _ (assign_flag-IsValid 4 _ e (omega arith) v) (unsigned32-lt _))
