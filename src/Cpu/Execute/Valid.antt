-- ===== src/Cpu/Execute/Valid.antt =====
-- The range of the state over a round of the loop and over a run of it.
use emylathor.Base.{
  ℕ, zero, suc, ◌+◌, ◌%◌, ◌^◌, ◌<◌, ◌≡◌, Bool, true, false, Option, none, some, ◌==◌, if◌then◌else◌,
  arith,
}
use mathlib.Core.Path.{subst}
use emylathor.Machine.{EmulatorContext, Instruction}
use emylathor.Valid.{IsValid, IsEncoded, Ensures, Ensures-bind, if_both}
use emylathor.Decode.{dec_fetch_ins}
use emylathor.Decode.Laws.{FetchIsValid, dec_fetch_ins-IsValid}
use emylathor.Cpu.Flags.{condition_holds, cpu_reg_flgs}
use emylathor.Cpu.Arith.Valid.{
  ins_add-IsValid, ins_sub-IsValid, ins_mul-IsValid, ins_smul-IsValid, ins_div-IsValid,
  ins_mod-IsValid, ins_sdiv-IsValid,
}
use emylathor.Cpu.Logic.Valid.{
  ins_and-IsValid, ins_or-IsValid, ins_xor-IsValid, ins_not-IsValid, ins_shl-IsValid,
  ins_shr-IsValid, ins_sar-IsValid, ins_sex-IsValid,
}
use emylathor.Cpu.Compare.Valid.{ins_cmp-IsValid, ins_test-IsValid}
use emylathor.Cpu.Move.Valid.{
  ins_call-IsValid, ins_jmp-IsValid, ins_loadi-IsValid, ins_mov-IsValid, ins_movfc-IsValid,
  ins_movtc-IsValid, ins_xchg-IsValid, ins_xchgc-IsValid, ins_in-IsValid, ins_out-IsValid,
}
use emylathor.Cpu.Transfer.Valid.{
  ins_loadid-IsValid, ins_storeid-IsValid, ins_loadrd-IsValid, ins_storerd-IsValid,
  ins_cmpxchg-IsValid,
}
use emylathor.Cpu.Stack.Valid.{ins_storema-IsValid, ins_loadma-IsValid}
use emylathor.Cpu.Execute.{
  Round, continues, returns, goes_on, dispatch, execute_fetched, cpu_round, Exit, returned, stepped,
  running, cpu_execute,
}

-- The state that a round leaves, and what a `return` gives, are in range: a dword at most, and the
-- value of a FAIL or of a STOP a word.
abbrev pub RoundIsValid : Round → Type 0
RoundIsValid (continues e) = IsValid e
RoundIsValid (returns x e) = (x < 2 ^ 16) × IsValid e

-- The same of the end of a run.
abbrev pub ExitIsValid : Exit → Type 0
ExitIsValid (returned x e) = (x < 2 ^ 16) × IsValid e
ExitIsValid (stepped e) = IsValid e
ExitIsValid (running e) = IsValid e

-- What holds of the outcome of a round.
record Kept (o : Option Round) : Type 0 where
  kept : Ensures RoundIsValid o

-- What holds of one line of the switch, for an opcode and the outcome.
record Line (n : ℕ) (x : Option Round) : Type 0 where
  line : Kept x

on : (n : ℕ) {x : Option Round} → Kept x → Line n x
on n h = record { line = h }

returns-IsValid : (x : ℕ) (e : EmulatorContext) → x < 2 ^ 16 → IsValid e → Kept (some (returns x e))
returns-IsValid x e h v = record { kept = (h, v) }

continues-IsValid : (e : EmulatorContext) → IsValid e → Kept (some (continues e))
continues-IsValid e v = record { kept = v }

goes_on-IsValid : (o : Option EmulatorContext) → Ensures IsValid o → Kept (goes_on o)
goes_on-IsValid o h = record { kept = Ensures-bind IsValid RoundIsValid o _ h λ e v. v }

module _ (ins : Instruction) (e : EmulatorContext) (c : IsEncoded ins) (v : IsValid e) where
  -- One more line of the switch.
  infixr 3 ◌▹◌
  ◌▹◌ : {n : ℕ} {x y : Option Round} → Line n x → Kept y → Kept (if ins.opcode == n then x else y)
  ◌▹◌ {n} h k = if_both Kept (ins.opcode == n) h.line k

  dispatch-IsValid : Kept (dispatch ins e)
  unfolding dispatch
  dispatch-IsValid =
      on 0x2a (continues-IsValid _ (ins_add-IsValid ins e v))
      ▹ on 0x21 (continues-IsValid _ (ins_and-IsValid ins e c v))
      ▹ on 0x0c (continues-IsValid _ (ins_call-IsValid ins e v))
      ▹ on 0x18 (continues-IsValid _ (ins_cmp-IsValid ins e v))
      ▹ on 0x1b (goes_on-IsValid _ (ins_cmpxchg-IsValid ins e v))
      ▹ on 0x2d (continues-IsValid _ (ins_div-IsValid ins e v))
      ▹ on 0x01 (returns-IsValid ins.imm16 e c.imm16_lt v)
      ▹ on 0x19 (goes_on-IsValid _ (ins_in-IsValid ins e v))
      ▹ on 0x0b (continues-IsValid _ (ins_jmp-IsValid ins e v))
      ▹ on 0x06 (continues-IsValid _ (ins_loadi-IsValid ins e v c))
      ▹ on 0x26 (goes_on-IsValid _ (ins_loadid-IsValid ins e v))
      ▹ on 0x09 (goes_on-IsValid _ (ins_loadma-IsValid ins e v))
      ▹ on 0x27 (goes_on-IsValid _ (ins_loadrd-IsValid ins e v))
      ▹ on 0x2c (continues-IsValid _ (ins_mul-IsValid ins e v))
      ▹ on 0x15 (continues-IsValid _ (ins_mod-IsValid ins e v))
      ▹ on 0x1a (continues-IsValid _ (ins_mov-IsValid ins e v c))
      ▹ on 0x1e (continues-IsValid _ (ins_movfc-IsValid ins e v))
      ▹ on 0x1d (continues-IsValid _ (ins_movtc-IsValid ins e v))
      ▹ on 0x12 (continues-IsValid _ (ins_not-IsValid ins e c v))
      ▹ on 0x22 (continues-IsValid _ (ins_or-IsValid ins e c v))
      ▹ on 0x2e (goes_on-IsValid _ (ins_out-IsValid ins e v))
      ▹ on 0x1f (continues-IsValid _ (ins_sar-IsValid ins e c v))
      ▹ on 0x14 (continues-IsValid _ (ins_sex-IsValid ins e c v))
      ▹ on 0x11 (continues-IsValid _ (ins_sdiv-IsValid ins e v))
      ▹ on 0x24 (continues-IsValid _ (ins_shl-IsValid ins e c v))
      ▹ on 0x25 (continues-IsValid _ (ins_shr-IsValid ins e c v))
      ▹ on 0x10 (continues-IsValid _ (ins_smul-IsValid ins e v))
      ▹ on 0x00 (returns-IsValid 0 e (omega arith) v)
      ▹ on 0x2b (continues-IsValid _ (ins_sub-IsValid ins e v))
      ▹ on 0x28 (goes_on-IsValid _ (ins_storeid-IsValid ins e v))
      ▹ on 0x08 (goes_on-IsValid _ (ins_storema-IsValid ins e v))
      ▹ on 0x29 (goes_on-IsValid _ (ins_storerd-IsValid ins e v))
      ▹ on 0x16 (continues-IsValid _ (ins_test-IsValid ins e v))
      ▹ on 0x20 (continues-IsValid _ (ins_xchg-IsValid ins e v))
      ▹ on 0x2f (continues-IsValid _ (ins_xchgc-IsValid ins e v))
      ▹ on 0x23 (continues-IsValid _ (ins_xor-IsValid ins e c v))
      ▹ continues-IsValid e v

pub continues-IsValid_after :
    (ins : Instruction) (e e₁ : EmulatorContext)
    → IsEncoded ins
    → IsValid e
    → dispatch ins e ≡ some (continues e₁)
    → IsValid e₁
continues-IsValid_after ins e e₁ c v h =
    subst (Ensures RoundIsValid) h (dispatch-IsValid ins e c v).kept

execute_fetched-IsValid :
    (o : Option Instruction) (e : EmulatorContext)
    → Ensures IsEncoded o
    → IsValid e
    → Ensures RoundIsValid (execute_fetched o e)
unfolding execute_fetched
execute_fetched-IsValid none e c v = v
execute_fetched-IsValid (some ins) e c v =
    if_both (Ensures RoundIsValid) (condition_holds ins.condition (e.regs cpu_reg_flgs))
      (dispatch-IsValid ins e c v).kept v

counted-IsValid :
    (e : EmulatorContext)
    → IsValid e
    → IsValid (record e { instruction_count = (e.instruction_count + 1) % 2 ^ 64 })
counted-IsValid e v = record {
  regs_dword = v.regs_dword;
  cregs_dword = v.cregs_dword;
  pos_dword = v.pos_dword;
  memory_byte = v.memory_byte;
  latch_dword = v.latch_dword;
  count_qword = omega arith;
}

cpu_round-IsValid : (e : EmulatorContext) → IsValid e → Ensures RoundIsValid (cpu_round e)
unfolding cpu_round
cpu_round-IsValid e v =
    Ensures-bind FetchIsValid RoundIsValid (dec_fetch_ins e) _ (dec_fetch_ins-IsValid e v)
      λ (o, e₁) (c, v₁). execute_fetched-IsValid o _ c (counted-IsValid e₁ v₁)

-- From a state in which every register, the instruction pointer and the latch hold dwords, every cell
-- of memory a byte and the counter a qword, each run of the loop, of any length, that has no undefined
-- behaviour ends in such a state, and a value that it returns is a word.
pub cpu_execute-IsValid :
    (n : ℕ) (step : Bool) (e : EmulatorContext)
    → IsValid e
    → Ensures ExitIsValid (cpu_execute n step e)
unfolding cpu_execute
cpu_execute-IsValid zero step e v = v
cpu_execute-IsValid (suc n) step e v =
    Ensures-bind RoundIsValid ExitIsValid (cpu_round e) _ (cpu_round-IsValid e v) λ r.
      elim r
        as (λ t.
          RoundIsValid t
          → Ensures ExitIsValid (elim t [
            | returns x e₁ ↦ some (returned x e₁)
            | continues e₁ ↦ elim step [ true ↦ some (stepped e₁) | false ↦ cpu_execute n false e₁ ]
          ])) [
            | returns x e₁ ↦ λ h. h
            | continues e₁ ↦ λ h.
                elim step
                  as (λ u.
                    Ensures ExitIsValid
                      (elim u [ true ↦ some (stepped e₁) | false ↦ cpu_execute n false e₁ ])) [
                        | true ↦ h
                        | false ↦ cpu_execute-IsValid n false e₁ h
                      ]
          ]
