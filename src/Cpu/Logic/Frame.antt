-- ===== src/Cpu/Logic/Frame.antt =====
-- What the instructions of `Cpu/Logic.antt` change: registers, and nothing else.
use emylathor.Base.{refl}
use emylathor.Machine.{EmulatorContext, Instruction, OnlyRegs, set_reg-OnlyRegs}
use emylathor.Cpu.Flags.Laws.{assign_flag-OnlyRegs}
use emylathor.Cpu.Logic.{ins_and, ins_or, ins_xor, ins_not, ins_shl, ins_shr, ins_sar, ins_sex}

module _ (ins : Instruction) (e : EmulatorContext) where
  pub ins_and-OnlyRegs : OnlyRegs e (ins_and ins e)
  unfolding ins_and
  ins_and-OnlyRegs = refl

  pub ins_or-OnlyRegs : OnlyRegs e (ins_or ins e)
  unfolding ins_or
  ins_or-OnlyRegs = refl

  pub ins_xor-OnlyRegs : OnlyRegs e (ins_xor ins e)
  unfolding ins_xor
  ins_xor-OnlyRegs = refl

  pub ins_not-OnlyRegs : OnlyRegs e (ins_not ins e)
  unfolding ins_not
  ins_not-OnlyRegs = refl

  pub ins_shl-OnlyRegs : OnlyRegs e (ins_shl ins e)
  unfolding ins_shl
  ins_shl-OnlyRegs = set_reg-OnlyRegs e _ _ _ (assign_flag-OnlyRegs _ _ e _ refl)

  pub ins_shr-OnlyRegs : OnlyRegs e (ins_shr ins e)
  unfolding ins_shr
  ins_shr-OnlyRegs = set_reg-OnlyRegs e _ _ _ (assign_flag-OnlyRegs _ _ e _ refl)

  pub ins_sar-OnlyRegs : OnlyRegs e (ins_sar ins e)
  unfolding ins_sar
  ins_sar-OnlyRegs = set_reg-OnlyRegs e _ _ _ (assign_flag-OnlyRegs _ _ e _ refl)

  pub ins_sex-OnlyRegs : OnlyRegs e (ins_sex ins e)
  unfolding ins_sex
  ins_sex-OnlyRegs = refl
