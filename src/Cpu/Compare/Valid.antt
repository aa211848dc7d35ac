-- ===== src/Cpu/Compare/Valid.antt =====
-- The range of the state under CMP and TEST.
use emylathor.Base.{arith}
use emylathor.Machine.{EmulatorContext, Instruction}
use emylathor.Valid.{IsValid}
use emylathor.Cpu.Flags.Laws.{assign_flag-IsValid}
use emylathor.Cpu.Compare.{ins_cmp, ins_test}

module _ (ins : Instruction) (e : EmulatorContext) (v : IsValid e) where
  pub ins_cmp-IsValid : IsValid (ins_cmp ins e)
  unfolding ins_cmp
  ins_cmp-IsValid =
      assign_flag-IsValid 16 _ _ (omega arith)
        (assign_flag-IsValid 2 _ _ (omega arith) (assign_flag-IsValid 1 _ _ (omega arith) v))

  pub ins_test-IsValid : IsValid (ins_test ins e)
  unfolding ins_test
  ins_test-IsValid = assign_flag-IsValid 8 _ _ (omega arith) (
      assign_flag-IsValid 32 _ _ (omega arith)
        (assign_flag-IsValid 16 _ _ (omega arith) (assign_flag-IsValid 1 _ _ (omega arith) v)))
