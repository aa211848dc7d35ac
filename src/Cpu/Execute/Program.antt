-- ===== src/Cpu/Execute/Program.antt =====
-- Runs of instructions that lie in the memory.
use emylathor.Base.{ℕ, suc, ◌+◌, ◌^◌, ◌≤◌, ◌≡◌, ap, ◌∙◌, true, false, some, arith}
use emylathor.Machine.{EmulatorContext, Instruction, ◌>>=◌}
use emylathor.Valid.{IsValid, IsEncoded}
use emylathor.Memory.{mem_get_instruction_p}
use emylathor.Memory.Laws.{dword_value, dword_value_lem, mem_get_instruction_p-eq}
use emylathor.Decode.{decode_bytes, decode_dword}
use emylathor.Decode.Laws.{decode_dword-bytes, decode_bytes-IsEncoded}
use emylathor.Cpu.Flags.{condition_holds, cpu_reg_flgs}
use emylathor.Cpu.Execute.{dispatch, returned, cpu_execute}
use emylathor.Cpu.Execute.Laws.{fetched, after, cpu_execute-fetched}

-- The instruction at an address.
abbrev pub code_at : ℕ → EmulatorContext → Instruction
code_at a e = decode_bytes (e.memory a) (e.memory (a + 1)) (e.memory (a + 2)) (e.memory (a + 3))

-- The four bytes from an address on are in the memory, which has at most 4 GB.
abbrev pub IsCode : ℕ → EmulatorContext → Type 0
IsCode a e = (a + 4 ≤ e.memory_size) × (e.memory_size ≤ 2 ^ 32)

pub fetched-IsValid : (e : EmulatorContext) → IsValid e → IsValid (fetched e)
fetched-IsValid e v = record {
  regs_dword = v.regs_dword;
  cregs_dword = v.cregs_dword;
  pos_dword = omega arith;
  memory_byte = v.memory_byte;
  latch_dword = v.latch_dword;
  count_qword = omega arith;
}

pub code_at-IsEncoded : (a : ℕ) (e : EmulatorContext) → IsValid e → IsEncoded (code_at a e)
code_at-IsEncoded a e v =
    decode_bytes-IsEncoded _ _ _ _ (v.memory_byte _) (v.memory_byte _) (v.memory_byte _)
      (v.memory_byte _)

module _ (e : EmulatorContext) (ins : Instruction) (v : IsValid e) (c : IsCode e.pos e)
    (stands : code_at e.pos e ≡ ins) where
  fetch_lem : mem_get_instruction_p e.pos e ≡ some (true, dword_value e.pos e)
  fetch_lem =
      mem_get_instruction_p-eq e.pos e
      ∙ dword_value_lem e.pos e v.memory_byte (omega (arith, c.0)) c.1

  code_lem : decode_dword (dword_value e.pos e) ≡ ins
  code_lem =
      decode_dword-bytes _ _ _ _ (v.memory_byte _) (v.memory_byte _) (v.memory_byte _)
        (v.memory_byte _)
      ∙ stands

  pub skips :
      (n : ℕ)
      → condition_holds ins.condition (e.regs cpu_reg_flgs) ≡ false
      → cpu_execute (suc n) false e ≡ cpu_execute n false (fetched e)
  skips n h =
      (cpu_execute-fetched e (dword_value e.pos e) fetch_lem n).0
        (ap (λ i. condition_holds i.condition (e.regs cpu_reg_flgs)) code_lem ∙ h)

  pub runs :
      (n : ℕ)
      → condition_holds ins.condition (e.regs cpu_reg_flgs) ≡ true
      → cpu_execute (suc n) false e ≡ (dispatch ins (fetched e) >>= after n false)
  runs n h =
      ((cpu_execute-fetched e (dword_value e.pos e) fetch_lem n).1
        (ap (λ i. condition_holds i.condition (e.regs cpu_reg_flgs)) code_lem ∙ h)).2
      ∙ ap (λ i. dispatch i (fetched e) >>= after n false) code_lem

  pub stops :
      (n : ℕ)
      → condition_holds ins.condition (e.regs cpu_reg_flgs) ≡ true
      → ins.opcode ≡ 0x00
      → cpu_execute (suc n) false e ≡ some (returned 0 (fetched e))
  stops n h op =
      ((cpu_execute-fetched e (dword_value e.pos e) fetch_lem n).1
          (ap (λ i. condition_holds i.condition (e.regs cpu_reg_flgs)) code_lem ∙ h)).0
        (ap (λ i. i.opcode) code_lem ∙ op)
