-- ===== src/Tests/Store.antt =====
-- Registers and memory of the machine.
use emylathor.Base.{
  arith, false, if◌then◌else◌, none, refl, some, true, ℕ, ◌*◌, ◌+◌, ◌-◌, ◌<◌, ◌==◌, ◌^◌, ◌↔◌, ◌≡◌,
  ◌≢◌, ◌≤◌, ◌⊎◌,
}
use emylathor.Machine.{EmulatorContext, set_reg, store}
use emylathor.Memory.{mem_get_dword_p, mem_write_dword_p}
use emylathor.Memory.Laws.{dword_access_defined_iff, dword_value, mem_get_dword_p-mem_write_dword_p}
use emylathor.Registers.{cpu_get_byte_reg, cpu_get_word_reg, cpu_set_byte_reg, cpu_set_word_reg}
use emylathor.Registers.Laws.{sub_registers_lem}
use emylathor.Cpu.Flags.{assign_flag, flgs_z}
use emylathor.Cpu.Operand.{prefix_byte, prefix_dword, prefix_word}
use emylathor.Cpu.Transfer.{ins_cmpxchg, ins_loadid, ins_storeid}
use emylathor.Cpu.Transfer.Laws.{KeepsOutside, ins_cmpxchg_lem, ins_loadid-ins_storeid}
use emylathor.Cpu.Stack.{ins_loadma, ins_storema}
use emylathor.Cpu.Stack.RoundTrip.{first_reg, ins_loadma-ins_storema, last_reg, reg_count}
use emylathor.Tests.Machine.{instruction, machine, machine-IsValid}

mem_get_dword_p-mem_write_dword_p_example :
    let d : ℕ = 0x12345678 in
    let a : ℕ = 17 in
    let e = machine in
    (e' : EmulatorContext) × (mem_write_dword_p d a e ≡ some (true, e'))
    × (mem_get_dword_p a e' ≡ some (true, d))
    × (e'.memory_size ≡ e.memory_size)
    × (e'.memory a
          + e'.memory (a + 1) * 2 ^ 8
          + e'.memory (a + 2) * 2 ^ 16
          + e'.memory (a + 3) * 2 ^ 24
        ≡ d)
    × ((j : ℕ) → (j < a) ⊎ (a + 3 < j) → e'.memory j ≡ e.memory j)
mem_get_dword_p-mem_write_dword_p_example =
    mem_get_dword_p-mem_write_dword_p 0x12345678 17 machine (omega arith) (omega arith)
      (omega arith)

dword_access_defined_iff_example :
    let d : ℕ = 7 in
    let a : ℕ = 253 in
    let e = machine in
    ((mem_write_dword_p d a e ≢ none) ↔ (a + 3 < e.memory_size))
    × ((mem_get_dword_p a e ≢ none) ↔ (a + 3 < e.memory_size))
dword_access_defined_iff_example =
    dword_access_defined_iff 7 253 machine (omega arith) (omega arith)

ins_cmpxchg_lem_example :
    let ins = (instruction 0x1b 0 4 1 2 0) in
    let e = machine in
    (dword_value (e.regs ins.dst) e ≡ e.regs ins.opa
      → (e₁ : EmulatorContext) × (ins_cmpxchg ins e ≡ some (assign_flag flgs_z true e₁))
        × (e₁ ≡ record e { memory = e₁.memory })
        × (mem_get_dword_p (e.regs ins.dst) e₁ ≡ some (true, e.regs ins.opb))
        × ((j : ℕ) → (j < e.regs ins.dst) ⊎ (e.regs ins.dst + 3 < j) → e₁.memory j ≡ e.memory j))
    × (dword_value (e.regs ins.dst) e ≢ e.regs ins.opa
        → ins_cmpxchg ins e
          ≡ some (assign_flag flgs_z false (set_reg e ins.opa (dword_value (e.regs ins.dst) e))))
ins_cmpxchg_lem_example =
    ins_cmpxchg_lem (instruction 0x1b 0 4 1 2 0) machine machine-IsValid refl (omega arith)
      (omega arith)

ins_loadid-ins_storeid_example :
    let storing = (instruction 0x28 0 5 3 0 0) in
    let loading = (instruction 0x26 0 6 5 0 0) in
    let e = machine in
    (storing.prefix ≡ prefix_dword
      → loading.prefix ≡ prefix_dword
      → (memory : ℕ → ℕ) × (ins_storeid storing e ≡ some (record e { memory = memory }))
        × (ins_loadid loading (record e { memory = memory })
            ≡ some (set_reg (record e { memory = memory }) loading.dst (e.regs storing.opa)))
        × KeepsOutside (e.regs storing.dst + storing.imm12) 4 e.memory memory)
    × (storing.prefix ≡ prefix_word
        → loading.prefix ≡ prefix_word
        → (memory : ℕ → ℕ) × (ins_storeid storing e ≡ some (record e { memory = memory }))
          × (ins_loadid loading (record e { memory = memory })
              ≡ some (record e {
                memory = memory;
                regs = cpu_set_word_reg loading.dst (cpu_get_word_reg storing.opa e.regs) e.regs;
              }))
          × KeepsOutside (e.regs storing.dst + storing.imm12) 2 e.memory memory)
    × (storing.prefix ≡ prefix_byte
        → loading.prefix ≡ prefix_byte
        → (memory : ℕ → ℕ) × (ins_storeid storing e ≡ some (record e { memory = memory }))
          × (ins_loadid loading (record e { memory = memory })
              ≡ some (record e {
                memory = memory;
                regs = cpu_set_byte_reg loading.dst (cpu_get_byte_reg storing.opa e.regs) e.regs;
              }))
          × KeepsOutside (e.regs storing.dst + storing.imm12) 1 e.memory memory)
ins_loadid-ins_storeid_example =
    ins_loadid-ins_storeid (instruction 0x28 0 5 3 0 0) (instruction 0x26 0 6 5 0 0) machine
      machine-IsValid refl refl (omega arith) (omega arith)

ins_loadma-ins_storema_example :
    let ins = (instruction 0x08 0 14 0 0 0x47) in
    let e = machine in
    let later = (store (λ r. 9) 14 (machine.regs 14 - 16)) in
    (e₁ e₂ : EmulatorContext) × (ins_storema ins e ≡ some e₁)
    × ((k : ℕ)
        → k < reg_count ins
        → dword_value (e.regs ins.dst - 4 * k) e₁ ≡ e.regs (first_reg ins + k))
    × ((j : ℕ)
        → (e.regs ins.dst + 3 < j) ⊎ (j + 4 * reg_count ins < e.regs ins.dst + 4)
        → e₁.memory j ≡ e.memory j)
    × (e₁.regs ≡ store e.regs ins.dst (e.regs ins.dst - 4 * reg_count ins))
    × (ins_loadma ins (record e₁ { regs = later }) ≡ some e₂)
    × ((i : ℕ) → first_reg ins ≤ i → i ≤ last_reg ins → e₂.regs i ≡ e.regs i)
    × (e₂.regs ins.dst ≡ e.regs ins.dst)
    × ((i : ℕ) → ins.dst ≢ i → (i < first_reg ins) ⊎ (last_reg ins < i) → e₂.regs i ≡ later i)
ins_loadma-ins_storema_example =
    ins_loadma-ins_storema (instruction 0x08 0 14 0 0 0x47) machine
      (store (λ r. 9) 14 (machine.regs 14 - 16)) machine-IsValid (omega arith) (omega arith)
      (omega arith) (omega arith)

sub_registers_lem_example :
    let r : ℕ = 7 in
    let s : ℕ = 3 in
    let b : ℕ = 0xab in
    let w : ℕ = 0x1234 in
    let regs = machine.regs in
    (cpu_get_byte_reg s (cpu_set_byte_reg r b regs)
      ≡ (if r == s then b else cpu_get_byte_reg s regs))
    × (cpu_get_word_reg s (cpu_set_word_reg r w regs)
        ≡ (if r == s then w else cpu_get_word_reg s regs))
    × (cpu_get_word_reg s (cpu_set_byte_reg r b regs)
        ≡ (if r == 2 * s then b else cpu_get_byte_reg (2 * s) regs)
          + (if r == 2 * s + 1 then b else cpu_get_byte_reg (2 * s + 1) regs) * 2 ^ 8)
    × (cpu_set_byte_reg r b regs s
        ≡ cpu_get_word_reg (2 * s) (cpu_set_byte_reg r b regs)
          + cpu_get_word_reg (2 * s + 1) (cpu_set_byte_reg r b regs) * 2 ^ 16)
sub_registers_lem_example =
    sub_registers_lem 7 3 0xab 0x1234 machine.regs machine-IsValid.regs_dword (omega arith)
      (omega arith)
