-- ===== src/Cpu/Logic/Valid.antt =====
-- The range of the state under the bitwise instructions.
use emylathor.Base.{◌<◌, ◌^◌, ◌%◌, ◌==◌, arith, unsigned32-lt, bit_and}
use emylathor.Base.Bits.Shift.{bit_and-lt, bit_or-lt, bit_xor-lt}
use emylathor.Machine.{EmulatorContext, Instruction}
use emylathor.Valid.{IsValid, IsEncoded, if_both, set_reg-IsValid}
use emylathor.Cpu.Flags.Laws.{assign_flag-IsValid}
use emylathor.Cpu.Operand.{operand_b, prefix_byte, prefix_word}
use emylathor.Cpu.Arith.Signed.{operand_b-lt}
use emylathor.Cpu.Arith.Valid.{quotient-le}
use emylathor.Cpu.Logic.{ins_and, ins_or, ins_xor, ins_not, ins_shl, ins_shr, ins_sar, ins_sex}

module _ (ins : Instruction) (e : EmulatorContext) (c : IsEncoded ins) (v : IsValid e) where
  ha : e.regs ins.opa < 2 ^ 32
  ha = v.regs_dword ins.opa

  hb : operand_b ins e < 2 ^ 32
  hb = operand_b-lt ins e v.regs_dword c.imm12_lt

  pub ins_and-IsValid : IsValid (ins_and ins e)
  unfolding ins_and
  ins_and-IsValid = set_reg-IsValid e ins.dst _ v (bit_and-lt 32 _ _ ha)

  pub ins_or-IsValid : IsValid (ins_or ins e)
  unfolding ins_or
  ins_or-IsValid = set_reg-IsValid e ins.dst _ v (bit_or-lt 32 _ _ ha hb)

  pub ins_xor-IsValid : IsValid (ins_xor ins e)
  unfolding ins_xor
  ins_xor-IsValid = set_reg-IsValid e ins.dst _ v (bit_xor-lt 32 _ _ ha hb)

  pub ins_not-IsValid : IsValid (ins_not ins e)
  unfolding ins_not
  ins_not-IsValid = set_reg-IsValid e ins.opa _ v (omega arith)

  pub ins_shl-IsValid : IsValid (ins_shl ins e)
  unfolding ins_shl
  ins_shl-IsValid =
      set_reg-IsValid _ ins.dst _ (assign_flag-IsValid 2 _ e (omega arith) v) (omega arith)

  pub ins_shr-IsValid : IsValid (ins_shr ins e)
  unfolding ins_shr
  ins_shr-IsValid =
      set_reg-IsValid _ ins.dst _ (assign_flag-IsValid 2 _ e (omega arith) v)
        (omega (arith, ha, quotient-le (e.regs ins.opa) (2 ^ (operand_b ins e % 32))))

  pub ins_sar-IsValid : IsValid (ins_sar ins e)
  unfolding ins_sar
  ins_sar-IsValid =
      set_reg-IsValid _ ins.dst _ (assign_flag-IsValid 2 _ e (omega arith) v) (unsigned32-lt _)

  pub ins_sex-IsValid : IsValid (ins_sex ins e)
  unfolding ins_sex
  ins_sex-IsValid =
      let b = e.regs ins.opb in
      let hm8 = bit_and-lt 32 b 0xff (v.regs_dword ins.opb) in
      let hm16 = bit_and-lt 32 b 0xffff (v.regs_dword ins.opb) in
      set_reg-IsValid e ins.opa _ v (
        if_both (λ x. x < 2 ^ 32) (ins.prefix == prefix_byte)
          (if_both (λ x. x < 2 ^ 32) (bit_and (bit_and b 0xff) 0x80 == 0) hm8
            (bit_or-lt 32 0xffff_ff00 (bit_and b 0xff) (omega arith) hm8))
          (if_both (λ x. x < 2 ^ 32) (ins.prefix == prefix_word)
            (if_both (λ x. x < 2 ^ 32) (bit_and (bit_and b 0xffff) 0x8000 == 0) hm16
              (bit_or-lt 32 0xffff_0000 (bit_and b 0xffff) (omega arith) hm16))
            ha))
