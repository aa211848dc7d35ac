-- ===== src/Tests/Run.antt =====
-- Runs of the machine, jumps, ports and decoding.
use emylathor.Base.{
  arith, false, none, refl, some, true, ℕ, ◌%◌, ◌*◌, ◌+◌, ◌-◌, ◌<◌, ◌^◌, ◌↔◌, ◌≡◌, ◌≢◌, ◌≤◌,
}
use emylathor.Machine.{EmulatorContext}
use emylathor.Memory.{mem_get_instruction_p}
use emylathor.Cpu.Operand.{prefix_imm}
use emylathor.Cpu.Move.{ins_call, ins_in, ins_jmp, ins_out}
use emylathor.Cpu.Move.Laws.{ins_jmp-ins_call, ports_in_range}
use emylathor.Cpu.Execute.{cpu_execute}
use emylathor.Start.{emu_init, emu_load_img, main, va_default_memory_size}
use emylathor.Start.Laws.{main-first}
use emylathor.Tests.Machine.{instruction, machine, machine-IsValid}

ins_jmp-ins_call_example :
    let call = (instruction 0x0c prefix_imm 0 0 0 0x10) in
    let jump = (instruction 0x0b 0 12 0 0 0) in
    let e = machine in
    ((ins_jmp jump (ins_call call e)).pos ≡ e.pos)
    × ((ins_jmp call e).pos ≡ (ins_call call e).pos)
    × (call.imm16 < 2 ^ 15 → (ins_call call e).pos ≡ (e.pos + call.imm16) % 2 ^ 32)
    × (2 ^ 15 ≤ call.imm16
        → (ins_call call e).pos ≡ (e.pos + 2 ^ 32 - (2 ^ 16 - call.imm16)) % 2 ^ 32)
ins_jmp-ins_call_example =
    ins_jmp-ins_call (instruction 0x0c prefix_imm 0 0 0 0x10) (instruction 0x0b 0 12 0 0 0) machine
      refl (omega arith) (omega arith) refl (omega arith)

ports_in_range_example :
    let ins = (instruction 0x19 0 0 5 9 0) in
    let e = machine in
    ((ins_in ins e ≢ none) ↔ (e.regs ins.opb % 2 ^ 8 < 128)) × (ins_out ins e ≢ none)
ports_in_range_example = ports_in_range (instruction 0x19 0 0 5 9 0) machine (omega arith)

main-first_example :
    let regs = machine.regs in
    let cregs = machine.cregs in
    let filedata = machine.memory in
    let length : ℕ = 8 in
    ((emu_load_img filedata length (emu_init regs cregs) ≢ none)
      ↔ (4096 + length ≤ va_default_memory_size))
    × (4096 + length ≤ va_default_memory_size
        → (e : EmulatorContext) × ((rounds : ℕ)
            → main rounds regs cregs filedata length ≡ cpu_execute rounds false e)
          × (mem_get_instruction_p e.pos e
              ≡ some (
                true,
                filedata 0 + filedata 1 * 2 ^ 8 + filedata 2 * 2 ^ 16 + filedata 3 * 2 ^ 24,
              ))
          × (e.instruction_count ≡ 0)
          × (e.regs 0x0e ≡ 0x600))
main-first_example =
    main-first machine.regs machine.cregs machine.memory 8 (omega arith) machine-IsValid.memory_byte
