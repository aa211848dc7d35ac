-- ===== src/Cpu/Transfer.antt =====
-- The loads and stores of `src/cpu/cpu.c` with a displacement, and the compare and exchange.
pub mod Laws
pub mod Valid
use emylathor.Base.{
  ℕ, ◌+◌, true, false, Option, some, ◌==◌, ◌||◌, ltb, if◌then◌else◌, u32, dword_max, pos, signed32,
  unsigned32,
}
use emylathor.Base.Int.{◌+ℤ◌, ltb_ℤ}
use emylathor.Machine.{EmulatorContext, Instruction, set_reg, ◌>>=◌}
use emylathor.Registers.{cpu_get_byte_reg, cpu_set_byte_reg, cpu_get_word_reg, cpu_set_word_reg}
use emylathor.Memory.{
  mem_get_byte_p, mem_get_word_p, mem_get_dword_p, mem_write_byte_p, mem_write_word_p,
  mem_write_dword_p,
}
use emylathor.Cpu.Flags.{assign_flag, flgs_z}
use emylathor.Cpu.Operand.{prefix_dword, prefix_word, prefix_byte}

-- The branches over the prefix that `ins_loadid` and `ins_loadrd` share.
pub load_at : ℕ → Instruction → EmulatorContext → Option EmulatorContext
load_at addr ins e =
    if ins.prefix == prefix_dword
    then (do
      (success, val) ← mem_get_dword_p addr e
      if success then some (set_reg e ins.dst val) else some e)
    else if ins.prefix == prefix_word
    then (do
      (success, val) ← mem_get_word_p addr e
      if success then some (record e { regs = cpu_set_word_reg ins.dst val e.regs }) else some e)
    else if ins.prefix == prefix_byte
    then (do
      (success, val) ← mem_get_byte_p addr e
      if success then some (record e { regs = cpu_set_byte_reg ins.dst val e.regs }) else some e)
    else some e

-- The branches over the prefix that `ins_storeid` and `ins_storerd` share.
pub store_at : ℕ → Instruction → EmulatorContext → Option EmulatorContext
store_at addr ins e =
    if ins.prefix == prefix_dword
    then (do (success, e₁) ← mem_write_dword_p (e.regs ins.opa) addr e; some e₁)
    else if ins.prefix == prefix_byte
    then (do (success, e₁) ← mem_write_byte_p (cpu_get_byte_reg ins.opa e.regs) addr e; some e₁)
    else if ins.prefix == prefix_word
    then (do (success, e₁) ← mem_write_word_p (cpu_get_word_reg ins.opa e.regs) addr e; some e₁)
    else some e

pub ins_loadid : Instruction → EmulatorContext → Option EmulatorContext
unfolding load_at
ins_loadid ins e =
    let sum = e.regs ins.opa + ins.imm12 in
    if ltb dword_max sum then some e else load_at (u32 sum) ins e

pub ins_storeid : Instruction → EmulatorContext → Option EmulatorContext
unfolding store_at
ins_storeid ins e =
    let sum = e.regs ins.dst + ins.imm12 in
    if ltb dword_max sum then some e else store_at (u32 sum) ins e

-- The sum of the base and the signed displacement is taken in 64 bits for the test, and modulo
-- 2 ^ 32 for the address.
pub ins_loadrd : Instruction → EmulatorContext → Option EmulatorContext
unfolding load_at
ins_loadrd ins e =
    let disp = signed32 (e.regs ins.opb) in
    let sum = pos (e.regs ins.opa) +ℤ disp in
    if ltb_ℤ (pos dword_max) sum || ltb_ℤ sum (pos 0)
    then some e
    else load_at (u32 (e.regs ins.opa + unsigned32 disp)) ins e

pub ins_storerd : Instruction → EmulatorContext → Option EmulatorContext
unfolding store_at
ins_storerd ins e =
    let disp = signed32 (e.regs ins.opb) in
    let sum = pos (e.regs ins.dst) +ℤ disp in
    if ltb_ℤ (pos dword_max) sum || ltb_ℤ sum (pos 0)
    then some e
    else store_at (u32 (e.regs ins.dst + unsigned32 disp)) ins e

-- The two branches of `ins_cmpxchg` after its read.
pub compare_exchange : ℕ → Instruction → EmulatorContext → Option EmulatorContext
compare_exchange mem_value ins e =
    if mem_value == e.regs ins.opa
    then (do
      (success, e₁) ← mem_write_dword_p (e.regs ins.opb) (e.regs ins.dst) e
      if success then some (assign_flag flgs_z true e₁) else some e₁)
    else some (assign_flag flgs_z false (set_reg e ins.opa mem_value))

pub ins_cmpxchg : Instruction → EmulatorContext → Option EmulatorContext
unfolding compare_exchange
ins_cmpxchg ins e =
    if ins.prefix == prefix_dword
    then (do
      (success, mem_value) ← mem_get_dword_p (e.regs ins.dst) e
      if success then compare_exchange mem_value ins e else some e)
    else some e
