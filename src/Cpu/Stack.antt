-- ===== src/Cpu/Stack.antt =====
-- `cpu_push_dword`, `cpu_pop_dword`, `ins_storema` and `ins_loadma` of `src/cpu/cpu.c`. Each loop runs
-- over the registers from the start to the end of a range, and recurs on the rounds that are left.
pub mod Push
pub mod Pop
pub mod RoundTrip
pub mod Valid
use emylathor.Base.{
  ℕ, zero, suc, ◌+◌, ◌-◌, ◌^◌, Bool, true, false, Option, some, if◌then◌else◌, u32, bit_and, ◌>>>◌,
}
use emylathor.Machine.{EmulatorContext, Instruction, set_reg, ◌>>=◌}
use emylathor.Memory.{mem_get_dword_p, mem_write_dword_p}

-- The success, `*reg` and the state after the call.
pub cpu_push_dword : ℕ → ℕ → EmulatorContext → Option (Bool × ℕ × EmulatorContext)
cpu_push_dword reg val e = do
  (success, e₁) ← mem_write_dword_p val reg e
  if success then some (true, u32 (reg + 2 ^ 32 - 4), e₁) else some (false, reg, e₁)

-- The success, `*reg` and `*val` after the call.
pub cpu_pop_dword : ℕ → EmulatorContext → Option (Bool × ℕ × ℕ)
cpu_pop_dword reg e = do
  (success, val) ← mem_get_dword_p (u32 (reg + 4)) e
  if success then some (true, u32 (reg + 4), val) else some (false, reg, val)

-- `for (; regp <= regend; regp++)`: whether the loop ran to its end, `temp` and the state.
pub storema_loop : ℕ → ℕ → ℕ → EmulatorContext → Option (Bool × ℕ × EmulatorContext)
storema_loop zero regp temp e = some (true, temp, e)
storema_loop (suc n) regp temp e = do
  (success, temp₁, e₁) ← cpu_push_dword temp (e.regs regp) e
  elim success [ true ↦ storema_loop n (regp + 1) temp₁ e₁ | false ↦ some (false, temp₁, e₁) ]

pub ins_storema : Instruction → EmulatorContext → Option EmulatorContext
ins_storema ins e =
    let immr = bit_and ins.imm16 0x00ff in
    let regstart = immr >>> 4 in
    let regend = bit_and immr 0xf in
    let sp = e.regs ins.dst in
    do
      (success, temp, e₁) ← storema_loop (regend + 1 - regstart) regstart sp e
      some (set_reg e₁ ins.dst (if success then temp else sp))

-- `for (; regp >= regstart; regp--)`, left by the `break` at `regstart`. A register that was loaded
-- before a failure keeps what was loaded.
pub loadma_loop : ℕ → ℕ → ℕ → EmulatorContext → Option (Bool × ℕ × EmulatorContext)
loadma_loop zero regp temp e = some (true, temp, e)
loadma_loop (suc n) regp temp e = do
  (success, temp₁, val) ← cpu_pop_dword temp e
  elim success [
    | true ↦ loadma_loop n (regp - 1) temp₁ (set_reg e regp val)
    | false ↦ some (false, temp₁, e)
  ]

pub ins_loadma : Instruction → EmulatorContext → Option EmulatorContext
ins_loadma ins e =
    let immr = bit_and ins.imm16 0x00ff in
    let regstart = immr >>> 4 in
    let regend = bit_and immr 0xf in
    let sp = e.regs ins.dst in
    do
      (success, temp, e₁) ← loadma_loop (regend + 1 - regstart) regend sp e
      some (set_reg e₁ ins.dst (if success then temp else sp))
