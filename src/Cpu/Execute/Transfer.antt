-- ===== src/Cpu/Execute/Transfer.antt =====
-- CALL and JMP through a register, in the loop of `src/cpu/cpu.c`.
use emylathor.Base.{
  ℕ, suc, ◌<◌, ◌≡◌, ap, ◌∙◌, Bool, true, false, some, ◌⊎◌, arith, ◌==◌, if◌then◌else◌,
}
use emylathor.Machine.{EmulatorContext, Instruction, store, ◌>>=◌}
use emylathor.Valid.{IsValid}
use emylathor.Cpu.Flags.{condition_holds, cpu_reg_flgs}
use emylathor.Cpu.Move.{cpu_reg_rc, ins_call, ins_jmp}
use emylathor.Cpu.Execute.{dispatch, continues, cpu_execute}
use emylathor.Cpu.Execute.Laws.{fetched, after}
use emylathor.Cpu.Execute.Program.{code_at, IsCode, skips, runs}

-- The instruction that LDCALL or LDJMP has behind the address.
abbrev pub transfers : ℕ → ℕ → ℕ → Instruction
transfers op cond reg = record {
  opcode = op;
  dst = reg;
  opa = 0;
  opb = 0;
  imm12 = 0;
  imm16 = 0;
  prefix = 0;
  condition = cond;
}

abbrev pub op_call : ℕ
op_call = 0x0c

-- The state after a transfer, by its operation and by whether it is executed.
unfoldable pub transferred : ℕ → ℕ → Bool → EmulatorContext → EmulatorContext
transferred op reg holds e =
    if holds
    then record e {
      regs = if op == op_call then store e.regs cpu_reg_rc e.pos else e.regs;
      pos = e.regs reg;
    }
    else e

dispatch-transfers :
    (op cond reg : ℕ) (e : EmulatorContext)
    → (op ≡ 0x0b) ⊎ (op ≡ 0x0c)
    → reg < 8
    → dispatch (transfers op cond reg) e ≡ some (continues (transferred op reg true e))
unfolding dispatch transferred ins_call ins_jmp
dispatch-transfers op cond reg e h small = ground arith

pub transfer_step :
    (op cond reg : ℕ) (e : EmulatorContext) (holds : Bool)
    → (op ≡ 0x0b) ⊎ (op ≡ 0x0c)
    → reg < 8
    → IsValid e
    → IsCode e.pos e
    → code_at e.pos e ≡ transfers op cond reg
    → condition_holds cond (e.regs cpu_reg_flgs) ≡ holds
    → (n : ℕ)
    → cpu_execute (suc n) false e ≡ cpu_execute n false (transferred op reg holds (fetched e))
unfolding transferred
transfer_step op cond reg e false h small v c stands holds n = skips e _ v c stands n holds
transfer_step op cond reg e true h small v c stands holds n =
    runs e _ v c stands n holds
    ∙ ap (λ o. o >>= after n false) (dispatch-transfers op cond reg (fetched e) h small)
