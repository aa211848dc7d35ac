-- ===== src/Cpu/Execute.antt =====
-- `cpu_execute` of `src/cpu/cpu.c`: one round of its loop, and the loop.
pub mod Valid
pub mod Laws
pub mod Program
pub mod Load
pub mod Transfer
pub mod Exchange
pub mod Straight
pub mod Halts
use emylathor.Base.{
  ℕ, zero, suc, ◌+◌, ◌%◌, ◌^◌, Bool, true, false, Option, none, some, ◌==◌, if◌then◌else◌,
}
use emylathor.Machine.{EmulatorContext, Instruction, ◌>>=◌}
use emylathor.Decode.{dec_fetch_ins}
use emylathor.Cpu.Flags.{condition_holds, cpu_reg_flgs}
use emylathor.Cpu.Arith.{ins_add, ins_sub, ins_mul, ins_smul, ins_div, ins_mod, ins_sdiv}
use emylathor.Cpu.Logic.{ins_and, ins_or, ins_xor, ins_not, ins_shl, ins_shr, ins_sar, ins_sex}
use emylathor.Cpu.Compare.{ins_cmp, ins_test}
use emylathor.Cpu.Move.{
  ins_call, ins_jmp, ins_loadi, ins_mov, ins_movfc, ins_movtc, ins_xchg, ins_xchgc, ins_in, ins_out,
}
use emylathor.Cpu.Transfer.{ins_loadid, ins_storeid, ins_loadrd, ins_storerd, ins_cmpxchg}
use emylathor.Cpu.Stack.{ins_storema, ins_loadma}

-- What one round of the loop comes to: the next round, or a `return` with its value.
pub data Round : Type 0 where
  continues : EmulatorContext → Round
  returns : ℕ → EmulatorContext → Round

abbrev pub goes_on : Option EmulatorContext → Option Round
goes_on m = m >>= λ e. some (continues e)

-- The switch over `ins->opcode`. OP_STOP returns 0, since its counter `fu` is never above 0; a code
-- that is not listed does nothing.
pub dispatch : Instruction → EmulatorContext → Option Round
dispatch ins e =
    let op = ins.opcode in
    if op == 0x2a
    then some (continues (ins_add ins e))
    else if op == 0x21
    then some (continues (ins_and ins e))
    else if op == 0x0c
    then some (continues (ins_call ins e))
    else if op == 0x18
    then some (continues (ins_cmp ins e))
    else if op == 0x1b
    then goes_on (ins_cmpxchg ins e)
    else if op == 0x2d
    then some (continues (ins_div ins e))
    else if op == 0x01
    then some (returns ins.imm16 e)
    else if op == 0x19
    then goes_on (ins_in ins e)
    else if op == 0x0b
    then some (continues (ins_jmp ins e))
    else if op == 0x06
    then some (continues (ins_loadi ins e))
    else if op == 0x26
    then goes_on (ins_loadid ins e)
    else if op == 0x09
    then goes_on (ins_loadma ins e)
    else if op == 0x27
    then goes_on (ins_loadrd ins e)
    else if op == 0x2c
    then some (continues (ins_mul ins e))
    else if op == 0x15
    then some (continues (ins_mod ins e))
    else if op == 0x1a
    then some (continues (ins_mov ins e))
    else if op == 0x1e
    then some (continues (ins_movfc ins e))
    else if op == 0x1d
    then some (continues (ins_movtc ins e))
    else if op == 0x12
    then some (continues (ins_not ins e))
    else if op == 0x22
    then some (continues (ins_or ins e))
    else if op == 0x2e
    then goes_on (ins_out ins e)
    else if op == 0x1f
    then some (continues (ins_sar ins e))
    else if op == 0x14
    then some (continues (ins_sex ins e))
    else if op == 0x11
    then some (continues (ins_sdiv ins e))
    else if op == 0x24
    then some (continues (ins_shl ins e))
    else if op == 0x25
    then some (continues (ins_shr ins e))
    else if op == 0x10
    then some (continues (ins_smul ins e))
    else if op == 0x00
    then some (returns 0 e)
    else if op == 0x2b
    then some (continues (ins_sub ins e))
    else if op == 0x28
    then goes_on (ins_storeid ins e)
    else if op == 0x08
    then goes_on (ins_storema ins e)
    else if op == 0x29
    then goes_on (ins_storerd ins e)
    else if op == 0x16
    then some (continues (ins_test ins e))
    else if op == 0x20
    then some (continues (ins_xchg ins e))
    else if op == 0x2f
    then some (continues (ins_xchgc ins e))
    else if op == 0x23
    then some (continues (ins_xor ins e))
    else some (continues e)

-- The body of the loop after the fetch: a failed fetch and an instruction whose condition does not
-- hold go on to the next round.
pub execute_fetched : Option Instruction → EmulatorContext → Option Round
unfolding dispatch
execute_fetched none e = some (continues e)
execute_fetched (some ins) e =
    if condition_holds ins.condition (e.regs cpu_reg_flgs)
    then dispatch ins e
    else some (continues e)

-- One round. The counter of instructions is a `qword`.
pub cpu_round : EmulatorContext → Option Round
unfolding execute_fetched
cpu_round e = do
  (ins, e₁) ← dec_fetch_ins e
  execute_fetched ins (record e₁ { instruction_count = (e₁.instruction_count + 1) % 2 ^ 64 })

-- How a run of the loop ends: by a `return`, by the single step that `step` asks for (the value -1),
-- or not within the rounds given.
pub data Exit : Type 0 where
  returned : ℕ → EmulatorContext → Exit
  stepped : EmulatorContext → Exit
  running : EmulatorContext → Exit

-- `do { … } while (!step);`, for at most the given number of rounds.
pub cpu_execute : ℕ → Bool → EmulatorContext → Option Exit
unfolding cpu_round
cpu_execute zero step e = some (running e)
cpu_execute (suc n) step e = do
  r ← cpu_round e
  elim r [
    | returns v e₁ ↦ some (returned v e₁)
    | continues e₁ ↦ elim step [ true ↦ some (stepped e₁) | false ↦ cpu_execute n false e₁ ]
  ]
