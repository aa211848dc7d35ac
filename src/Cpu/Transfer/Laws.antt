-- ===== src/Cpu/Transfer/Laws.antt =====
-- The loads and stores with a displacement, and the compare and exchange.
use emylathor.Base.{
  ℕ, ◌+◌, ◌^◌, ◌<◌, ◌≤◌, ◌≡◌, ◌≢◌, refl, ap, ◌∙◌, ◌⊎◌, true, false, some, arith, u32,
}
use emylathor.Machine.{EmulatorContext, Instruction, set_reg}
use emylathor.Valid.{IsValid}
use emylathor.Registers.{cpu_get_byte_reg, cpu_set_byte_reg, cpu_get_word_reg, cpu_set_word_reg}
use emylathor.Registers.Laws.{word_reg-lt, byte_reg-lt}
use emylathor.Memory.{mem_get_dword_p}
use emylathor.Memory.Laws.{
  dword_value, dword_value_lem, dword_stored, write_dword_lem, read_dword_lem, word_stored,
  word_stored_lem, byte_stored, byte_stored_lem,
}
use emylathor.Cpu.Flags.{assign_flag, flgs_z}
use emylathor.Cpu.Operand.{prefix_dword, prefix_word, prefix_byte}
use emylathor.Cpu.Transfer.{
  load_at, store_at, ins_loadid, ins_storeid, compare_exchange, ins_cmpxchg,
}

-- Two memories agree but in so many bytes from an address on.
abbrev pub KeepsOutside : ℕ → ℕ → (ℕ → ℕ) → (ℕ → ℕ) → Type 0
KeepsOutside a size before after = (j : ℕ) → (j < a) ⊎ (a + size ≤ j) → after j ≡ before j

-- STOREID and LOADID reach the same address when it does not wrap.
module _ (storing loading : Instruction) (e : EmulatorContext) (hi : loading.imm12 ≡ storing.imm12)
    (hd : loading.opa ≡ storing.dst) (small : e.regs storing.dst + storing.imm12 < 2 ^ 32) where
  ins_storeid-store_at :
      ins_storeid storing e ≡ store_at (e.regs storing.dst + storing.imm12) storing e
  unfolding ins_storeid
  ins_storeid-store_at =
      let h : u32 (e.regs storing.dst + storing.imm12) ≡ e.regs storing.dst + storing.imm12 =
        omega arith in
      ground (arith, h, ap (λ a. store_at a storing e) h)

  ins_loadid-load_at :
      (memory : ℕ → ℕ)
      → ins_loadid loading (record e { memory = memory })
        ≡ load_at (e.regs storing.dst + storing.imm12) loading (record e { memory = memory })
  unfolding ins_loadid
  ins_loadid-load_at memory =
      let same : e.regs loading.opa + loading.imm12 ≡ e.regs storing.dst + storing.imm12 =
        ap (λ r. e.regs r + loading.imm12) hd ∙ ap (λ i. e.regs storing.dst + i) hi in
      let h : u32 (e.regs loading.opa + loading.imm12) ≡ e.regs storing.dst + storing.imm12 =
        omega (arith, same) in
      ground (arith, same, h, ap (λ a. load_at a loading (record e { memory = memory })) h)

-- What a STOREID puts into memory a LOADID of the same prefix and displacement takes out again, in a state
-- in range where the address does not wrap and the four bytes from it on lie in memory: a dword to
-- a register, a word to a word register, a byte to a byte register. The STOREID changes no register and
-- no byte but the four, two or one of its address.
pub ins_loadid-ins_storeid :
    (storing loading : Instruction) (e : EmulatorContext)
    → IsValid e
    → loading.imm12 ≡ storing.imm12
    → loading.opa ≡ storing.dst
    → e.regs storing.dst + storing.imm12 + 3 < e.memory_size
    → e.memory_size ≤ 2 ^ 32
    → (storing.prefix ≡ prefix_dword
        → loading.prefix ≡ prefix_dword
        → (memory : ℕ → ℕ) × (ins_storeid storing e ≡ some (record e { memory = memory }))
          × (ins_loadid loading (record e { memory = memory })
              ≡ some (set_reg (record e { memory = memory }) loading.dst (e.regs storing.opa)))
          × KeepsOutside (e.regs storing.dst + storing.imm12) 4 e.memory memory)
      × (storing.prefix ≡ prefix_word
          → loading.prefix ≡ prefix_word
          → (memory : ℕ → ℕ) × (ins_storeid storing e ≡ some (record e { memory = memory }))
            × (ins_loadid loading (record e { memory = memory })
                ≡ some (record e {
                  memory = memory;
                  regs = cpu_set_word_reg loading.dst (cpu_get_word_reg storing.opa e.regs) e.regs;
                }))
            × KeepsOutside (e.regs storing.dst + storing.imm12) 2 e.memory memory)
      × (storing.prefix ≡ prefix_byte
          → loading.prefix ≡ prefix_byte
          → (memory : ℕ → ℕ) × (ins_storeid storing e ≡ some (record e { memory = memory }))
            × (ins_loadid loading (record e { memory = memory })
                ≡ some (record e {
                  memory = memory;
                  regs = cpu_set_byte_reg loading.dst (cpu_get_byte_reg storing.opa e.regs) e.regs;
                }))
            × KeepsOutside (e.regs storing.dst + storing.imm12) 1 e.memory memory)
unfolding load_at store_at
ins_loadid-ins_storeid storing loading e v hi hd ha hs =
    let a = e.regs storing.dst + storing.imm12 in
    let stores = ins_storeid-store_at storing loading e hi hd (omega arith) in
    let loads = ins_loadid-load_at storing loading e hi hd (omega arith) in
    let d = e.regs storing.opa in
    let wrote = write_dword_lem d a e (v.regs_dword storing.opa) ha hs in
    let read = read_dword_lem d a e (v.regs_dword storing.opa) ha hs in
    let w = cpu_get_word_reg storing.opa e.regs in
    let word = word_stored_lem w a e (word_reg-lt storing.opa e.regs) (omega arith) hs in
    let b = cpu_get_byte_reg storing.opa e.regs in
    let byte = byte_stored_lem b a e (byte_reg-lt storing.opa e.regs) (omega arith) in
    (
      λ p q. (
        (dword_stored d a e).memory,
        stores ∙ ground (arith, wrote),
        loads _ ∙ ground (arith, read),
        λ j h. ground arith,
      ),
      λ p q. (
        (word_stored w a e).memory,
        stores ∙ ground (arith, word.0),
        loads _ ∙ ground (arith, word.1),
        λ j h. ground arith,
      ),
      λ p q. (
        (byte_stored b a e).memory,
        stores ∙ ground (arith, byte.0),
        loads _ ∙ ground (arith, byte.1),
        λ j h. ground arith,
      ),
    )

-- What CMPXCHG of a dword inside the memory does: when the dword equals the register `opa`, it becomes
-- that of `opb`, and the zero flag is set; otherwise the register receives the dword, the memory stays
-- as it was, and the zero flag is cleared.
pub ins_cmpxchg_lem :
    (ins : Instruction) (e : EmulatorContext)
    → IsValid e
    → ins.prefix ≡ prefix_dword
    → e.regs ins.dst + 3 < e.memory_size
    → e.memory_size ≤ 2 ^ 32
    → (dword_value (e.regs ins.dst) e ≡ e.regs ins.opa
        → (e₁ : EmulatorContext) × (ins_cmpxchg ins e ≡ some (assign_flag flgs_z true e₁))
          × (e₁ ≡ record e { memory = e₁.memory })
          × (mem_get_dword_p (e.regs ins.dst) e₁ ≡ some (true, e.regs ins.opb))
          × ((j : ℕ) → (j < e.regs ins.dst) ⊎ (e.regs ins.dst + 3 < j) → e₁.memory j ≡ e.memory j))
      × (dword_value (e.regs ins.dst) e ≢ e.regs ins.opa
          → ins_cmpxchg ins e
            ≡ some (assign_flag flgs_z false (set_reg e ins.opa (dword_value (e.regs ins.dst) e))))
unfolding ins_cmpxchg compare_exchange
ins_cmpxchg_lem ins e v hp ha hs =
    let a = e.regs ins.dst in
    let x = e.regs ins.opb in
    let read = dword_value_lem a e v.memory_byte ha hs in
    let wrote = write_dword_lem x a e (v.regs_dword ins.opb) ha hs in
    (
      (λ same. (
        dword_stored x a e,
        ground (arith, read, wrote, hp),
        refl,
        read_dword_lem x a e (v.regs_dword ins.opb) ha hs,
        λ j h. ground arith,
      )),
      (λ differ. ground (arith, read, hp)),
    )
