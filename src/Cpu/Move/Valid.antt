-- ===== src/Cpu/Move/Valid.antt =====
-- The range of the state under the instructions that move values and jump.
use emylathor.Base.{◌<◌, ◌^◌, ◌==◌, arith, u8, bit_and}
use emylathor.Base.Bits.Shift.{bit_and-mask}
use emylathor.Machine.{AreDwords, EmulatorContext, Instruction, store-AreDwords, set_reg}
use emylathor.Valid.{
  IsValid, IsEncoded, Ensures, Ensures-bind, if_both, with_regs-IsValid, with_cregs-IsValid,
  with_pos-IsValid, set_reg-IsValid,
}
use emylathor.Registers.Laws.{
  cpu_set_byte_reg-AreDwords, cpu_set_word_reg-AreDwords, byte_reg-lt, word_reg-lt,
}
use emylathor.Pio.{pio_read}
use emylathor.Pio.Laws.{ReadIsValid, pio_read-IsValid, pio_write-IsValid}
use emylathor.Cpu.Operand.{prefix_dword, prefix_word, prefix_byte, prefix_imm}
use emylathor.Cpu.Move.{
  cpu_reg_rc, relative_pos, ins_call, ins_jmp, ins_loadi, ins_mov, ins_movfc, ins_movtc, ins_xchg,
  ins_xchgc, ins_in, ins_out,
}

relative_pos-lt : (ins : Instruction) (e : EmulatorContext) → relative_pos ins e < 2 ^ 32
unfolding relative_pos
relative_pos-lt ins e = omega arith

imm_byte-lt : (ins : Instruction) → bit_and ins.imm16 0xff < 2 ^ 8
imm_byte-lt ins = omega (arith, bit_and-mask 8 ins.imm16)

module _ (ins : Instruction) (e : EmulatorContext) (v : IsValid e) where
  pub ins_call-IsValid : IsValid (ins_call ins e)
  unfolding ins_call
  ins_call-IsValid =
      let e₁ = set_reg e cpu_reg_rc e.pos in
      let v₁ = set_reg-IsValid e cpu_reg_rc e.pos v v.pos_dword in
      with_pos-IsValid e₁ _ v₁ (
        if_both (λ x. x < 2 ^ 32) (ins.prefix == prefix_imm) (relative_pos-lt ins e₁)
          (v₁.regs_dword ins.dst))

  pub ins_jmp-IsValid : IsValid (ins_jmp ins e)
  unfolding ins_jmp
  ins_jmp-IsValid = with_pos-IsValid e _ v (
      if_both (λ x. x < 2 ^ 32) (ins.prefix == prefix_imm) (relative_pos-lt ins e)
        (v.regs_dword ins.dst))

  pub ins_loadi-IsValid : IsEncoded ins → IsValid (ins_loadi ins e)
  unfolding ins_loadi
  ins_loadi-IsValid c = with_regs-IsValid e _ v (
      if_both AreDwords (ins.prefix == prefix_byte)
        (cpu_set_byte_reg-AreDwords ins.dst _ e.regs v.regs_dword (imm_byte-lt ins))
        (cpu_set_word_reg-AreDwords ins.dst _ e.regs v.regs_dword c.imm16_lt))

  pub ins_mov-IsValid : IsEncoded ins → IsValid (ins_mov ins e)
  unfolding ins_mov
  ins_mov-IsValid c = with_regs-IsValid e _ v (
      if_both AreDwords (ins.prefix == prefix_imm)
        (store-AreDwords e.regs ins.opa _ v.regs_dword (omega (arith, c.imm12_lt)))
        (if_both AreDwords (ins.prefix == prefix_dword)
          (store-AreDwords e.regs ins.opa _ v.regs_dword (v.regs_dword ins.opb))
          (if_both AreDwords (ins.prefix == prefix_word)
            (cpu_set_word_reg-AreDwords ins.opa _ e.regs v.regs_dword (word_reg-lt ins.opb e.regs))
            (if_both AreDwords (ins.prefix == prefix_byte)
              (cpu_set_byte_reg-AreDwords ins.opa _ e.regs v.regs_dword
                (byte_reg-lt ins.opb e.regs))
              v.regs_dword))))

  pub ins_movfc-IsValid : IsValid (ins_movfc ins e)
  unfolding ins_movfc
  ins_movfc-IsValid = set_reg-IsValid e ins.opa _ v (v.cregs_dword ins.opb)

  pub ins_movtc-IsValid : IsValid (ins_movtc ins e)
  unfolding ins_movtc
  ins_movtc-IsValid =
      with_cregs-IsValid e _ v
        (store-AreDwords e.cregs ins.opa _ v.cregs_dword (v.regs_dword ins.opb))

  pub ins_xchg-IsValid : IsValid (ins_xchg ins e)
  unfolding ins_xchg
  ins_xchg-IsValid = with_regs-IsValid e _ v (
      store-AreDwords _ ins.opb _
        (store-AreDwords e.regs ins.opa _ v.regs_dword (v.regs_dword ins.opb))
        (v.regs_dword ins.opa))

  pub ins_xchgc-IsValid : IsValid (ins_xchgc ins e)
  unfolding ins_xchgc
  ins_xchgc-IsValid =
      with_cregs-IsValid (set_reg e ins.opa (e.cregs ins.opb)) _
        (set_reg-IsValid e ins.opa _ v (v.cregs_dword ins.opb))
        (store-AreDwords e.cregs ins.opb _ v.cregs_dword (v.regs_dword ins.opa))

  pub ins_in-IsValid : Ensures IsValid (ins_in ins e)
  unfolding ins_in
  ins_in-IsValid =
      let port = u8 (e.regs (bit_and ins.opb 0x7f)) in
      Ensures-bind ReadIsValid IsValid (pio_read port e) _ (pio_read-IsValid port e v (omega arith))
        λ (x, e₁) (h, v₁). set_reg-IsValid e₁ ins.opa x v₁ h

  pub ins_out-IsValid : Ensures IsValid (ins_out ins e)
  unfolding ins_out
  ins_out-IsValid = pio_write-IsValid _ (e.regs ins.opb) e v (v.regs_dword ins.opb)
