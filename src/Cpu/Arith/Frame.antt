-- ===== src/Cpu/Arith/Frame.antt =====
-- What the instructions of `Cpu/Arith.antt` change: registers, and nothing else.
use emylathor.Base.{refl, ◌==◌}
use emylathor.Machine.{EmulatorContext, Instruction, OnlyRegs, set_reg-OnlyRegs}
use emylathor.Valid.{if_both}
use emylathor.Cpu.Flags.Laws.{assign_flag-OnlyRegs}
use emylathor.Cpu.Operand.{operand_b}
use emylathor.Cpu.Arith.{ins_add, ins_sub, ins_mul, ins_smul, ins_div, ins_mod, ins_sdiv}

module _ (ins : Instruction) (e : EmulatorContext) where
  pub ins_add-OnlyRegs : OnlyRegs e (ins_add ins e)
  unfolding ins_add
  ins_add-OnlyRegs = assign_flag-OnlyRegs _ _ e _ (assign_flag-OnlyRegs _ _ e _ refl)

  pub ins_sub-OnlyRegs : OnlyRegs e (ins_sub ins e)
  unfolding ins_sub
  ins_sub-OnlyRegs = assign_flag-OnlyRegs _ _ e _ (assign_flag-OnlyRegs _ _ e _ refl)

  pub ins_mul-OnlyRegs : OnlyRegs e (ins_mul ins e)
  unfolding ins_mul
  ins_mul-OnlyRegs = set_reg-OnlyRegs e _ _ _ (assign_flag-OnlyRegs _ _ e _ refl)

  pub ins_smul-OnlyRegs : OnlyRegs e (ins_smul ins e)
  unfolding ins_smul
  ins_smul-OnlyRegs = assign_flag-OnlyRegs _ _ e _ refl

  pub ins_div-OnlyRegs : OnlyRegs e (ins_div ins e)
  unfolding ins_div
  ins_div-OnlyRegs = if_both (OnlyRegs e) (operand_b ins e == 0) refl refl

  pub ins_mod-OnlyRegs : OnlyRegs e (ins_mod ins e)
  unfolding ins_mod
  ins_mod-OnlyRegs = if_both (OnlyRegs e) (e.regs ins.opb == 0) refl refl

  pub ins_sdiv-OnlyRegs : OnlyRegs e (ins_sdiv ins e)
  unfolding ins_sdiv
  ins_sdiv-OnlyRegs =
      if_both (OnlyRegs e) (operand_b ins e == 0) refl
        (set_reg-OnlyRegs e _ _ _ (assign_flag-OnlyRegs _ _ e _ refl))
