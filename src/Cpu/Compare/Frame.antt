-- ===== src/Cpu/Compare/Frame.antt =====
-- What the instructions of `Cpu/Compare.antt` change: registers, and nothing else.
use emylathor.Base.{refl}
use emylathor.Machine.{EmulatorContext, Instruction, OnlyRegs}
use emylathor.Cpu.Flags.Laws.{assign_flag-OnlyRegs}
use emylathor.Cpu.Compare.{ins_cmp, ins_test}

module _ (ins : Instruction) (e : EmulatorContext) where
  pub ins_cmp-OnlyRegs : OnlyRegs e (ins_cmp ins e)
  unfolding ins_cmp
  ins_cmp-OnlyRegs =
      assign_flag-OnlyRegs _ _ e _
        (assign_flag-OnlyRegs _ _ e _ (assign_flag-OnlyRegs _ _ e _ refl))

  pub ins_test-OnlyRegs : OnlyRegs e (ins_test ins e)
  unfolding ins_test
  ins_test-OnlyRegs = assign_flag-OnlyRegs _ _ e _ (
      assign_flag-OnlyRegs _ _ e _
        (assign_flag-OnlyRegs _ _ e _ (assign_flag-OnlyRegs _ _ e _ refl)))
