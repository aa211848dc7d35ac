-- ===== src/Cpu/Move/Frame.antt =====
-- What the instructions of `Cpu/Move.antt` change: registers, and nothing else, where they do not jump or use a port.
use emylathor.Base.{refl}
use emylathor.Machine.{EmulatorContext, Instruction, OnlyRegs}
use emylathor.Cpu.Move.{ins_loadi, ins_mov, ins_movfc, ins_movtc, ins_xchg, ins_xchgc}

module _ (ins : Instruction) (e : EmulatorContext) where
  pub ins_loadi-OnlyRegs : OnlyRegs e (ins_loadi ins e)
  unfolding ins_loadi
  ins_loadi-OnlyRegs = refl

  pub ins_mov-OnlyRegs : OnlyRegs e (ins_mov ins e)
  unfolding ins_mov
  ins_mov-OnlyRegs = refl

  pub ins_movfc-OnlyRegs : OnlyRegs e (ins_movfc ins e)
  unfolding ins_movfc
  ins_movfc-OnlyRegs = refl

  pub ins_movtc-OnlyRegs : OnlyRegs e (ins_movtc ins e)
  unfolding ins_movtc
  ins_movtc-OnlyRegs = refl

  pub ins_xchg-OnlyRegs : OnlyRegs e (ins_xchg ins e)
  unfolding ins_xchg
  ins_xchg-OnlyRegs = refl

  pub ins_xchgc-OnlyRegs : OnlyRegs e (ins_xchgc ins e)
  unfolding ins_xchgc
  ins_xchgc-OnlyRegs = refl
