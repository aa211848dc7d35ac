-- ===== src/Cpu/Transfer/Valid.antt =====
-- The range of the state under the loads and stores.
use emylathor.Base.{ℕ, ◌<◌, ◌^◌, ◌+◌, ◌==◌, ◌||◌, ltb, arith, dword_max, pos, signed32}
use emylathor.Base.Int.{◌+ℤ◌, ltb_ℤ}
use emylathor.Machine.{EmulatorContext, Instruction}
use emylathor.Valid.{IsValid, Ensures, Ensures-bind, if_both, with_regs-IsValid, set_reg-IsValid}
use emylathor.Registers.{cpu_get_byte_reg, cpu_get_word_reg}
use emylathor.Registers.Laws.{cpu_set_byte_reg-AreDwords, cpu_set_word_reg-AreDwords}
use emylathor.Memory.{
  mem_get_byte_p, mem_get_word_p, mem_get_dword_p, mem_write_byte_p, mem_write_word_p,
  mem_write_dword_p,
}
use emylathor.Memory.Valid.{
  StateIsValid, ValueBelow, mem_get_dword_p-lt, mem_get_word_p-lt, mem_get_byte_p-lt,
  mem_write_byte_p-IsValid, mem_write_word_p-IsValid, mem_write_dword_p-IsValid,
}
use emylathor.Cpu.Flags.Laws.{assign_flag-IsValid}
use emylathor.Cpu.Operand.{prefix_dword, prefix_word, prefix_byte}
use emylathor.Cpu.Transfer.{
  load_at, store_at, ins_loadid, ins_storeid, ins_loadrd, ins_storerd, compare_exchange,
  ins_cmpxchg,
}

module _ (ins : Instruction) (e : EmulatorContext) (v : IsValid e) where
  load_at-IsValid : (addr : ℕ) → Ensures IsValid (load_at addr ins e)
  unfolding load_at
  load_at-IsValid addr =
      if_both (Ensures IsValid) (ins.prefix == prefix_dword)
        (Ensures-bind (ValueBelow (2 ^ 32)) IsValid (mem_get_dword_p addr e) _
          (mem_get_dword_p-lt addr e v)
          λ (b, x) h. if_both (Ensures IsValid) b (set_reg-IsValid e ins.dst x v h) v)
        (if_both (Ensures IsValid) (ins.prefix == prefix_word)
          (Ensures-bind (ValueBelow (2 ^ 16)) IsValid (mem_get_word_p addr e) _
            (mem_get_word_p-lt addr e v)
            λ (b, x) h.
              if_both (Ensures IsValid) b
                (with_regs-IsValid e _ v
                  (cpu_set_word_reg-AreDwords ins.dst x e.regs v.regs_dword h))
                v)
          (if_both (Ensures IsValid) (ins.prefix == prefix_byte)
            (Ensures-bind (ValueBelow (2 ^ 8)) IsValid (mem_get_byte_p addr e) _
              (mem_get_byte_p-lt addr e v)
              λ (b, x) h.
                if_both (Ensures IsValid) b
                  (with_regs-IsValid e _ v
                    (cpu_set_byte_reg-AreDwords ins.dst x e.regs v.regs_dword h))
                  v)
            v))

  store_at-IsValid : (addr : ℕ) → Ensures IsValid (store_at addr ins e)
  unfolding store_at
  store_at-IsValid addr =
      let reg = e.regs ins.opa in
      if_both (Ensures IsValid) (ins.prefix == prefix_dword)
        (Ensures-bind StateIsValid IsValid (mem_write_dword_p reg addr e) _
          (mem_write_dword_p-IsValid reg addr e v) λ (b, e₁) h. h)
        (if_both (Ensures IsValid) (ins.prefix == prefix_byte)
          (Ensures-bind StateIsValid IsValid
            (mem_write_byte_p (cpu_get_byte_reg ins.opa e.regs) addr e) _
            (mem_write_byte_p-IsValid _ addr e v) λ (b, e₁) h. h)
          (if_both (Ensures IsValid) (ins.prefix == prefix_word)
            (Ensures-bind StateIsValid IsValid
              (mem_write_word_p (cpu_get_word_reg ins.opa e.regs) addr e) _
              (mem_write_word_p-IsValid _ addr e v) λ (b, e₁) h. h)
            v))

  pub ins_loadid-IsValid : Ensures IsValid (ins_loadid ins e)
  unfolding ins_loadid
  ins_loadid-IsValid =
      if_both (Ensures IsValid) (ltb dword_max (e.regs ins.opa + ins.imm12)) v (load_at-IsValid _)

  pub ins_storeid-IsValid : Ensures IsValid (ins_storeid ins e)
  unfolding ins_storeid
  ins_storeid-IsValid =
      if_both (Ensures IsValid) (ltb dword_max (e.regs ins.dst + ins.imm12)) v (store_at-IsValid _)

  pub ins_loadrd-IsValid : Ensures IsValid (ins_loadrd ins e)
  unfolding ins_loadrd
  ins_loadrd-IsValid =
      let sum = pos (e.regs ins.opa) +ℤ signed32 (e.regs ins.opb) in
      if_both (Ensures IsValid) (ltb_ℤ (pos dword_max) sum || ltb_ℤ sum (pos 0)) v
        (load_at-IsValid _)

  pub ins_storerd-IsValid : Ensures IsValid (ins_storerd ins e)
  unfolding ins_storerd
  ins_storerd-IsValid =
      let sum = pos (e.regs ins.dst) +ℤ signed32 (e.regs ins.opb) in
      if_both (Ensures IsValid) (ltb_ℤ (pos dword_max) sum || ltb_ℤ sum (pos 0)) v
        (store_at-IsValid _)

  compare_exchange-IsValid : (x : ℕ) → x < 2 ^ 32 → Ensures IsValid (compare_exchange x ins e)
  unfolding compare_exchange
  compare_exchange-IsValid x h =
      if_both (Ensures IsValid) (x == e.regs ins.opa)
        (Ensures-bind StateIsValid IsValid (mem_write_dword_p (e.regs ins.opb) (e.regs ins.dst) e) _
          (mem_write_dword_p-IsValid _ _ e v)
          λ (b, e₁) h₁.
            if_both (Ensures IsValid) b (assign_flag-IsValid 1 _ e₁ (omega arith) h₁) h₁)
        (assign_flag-IsValid 1 _ _ (omega arith) (set_reg-IsValid e ins.opa x v h))

  pub ins_cmpxchg-IsValid : Ensures IsValid (ins_cmpxchg ins e)
  unfolding ins_cmpxchg
  ins_cmpxchg-IsValid =
      if_both (Ensures IsValid) (ins.prefix == prefix_dword)
        (Ensures-bind (ValueBelow (2 ^ 32)) IsValid (mem_get_dword_p (e.regs ins.dst) e) _
          (mem_get_dword_p-lt (e.regs ins.dst) e v)
          λ (b, x) h. if_both (Ensures IsValid) b (compare_exchange-IsValid x h) v)
        v
