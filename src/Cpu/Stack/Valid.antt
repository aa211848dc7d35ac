-- ===== src/Cpu/Stack/Valid.antt =====
-- The range of the state under STOREMA and LOADMA.
use emylathor.Base.{
  ℕ, zero, suc, ◌<◌, ◌^◌, ◌+◌, ◌-◌, Bool, true, false, Option, some, if◌then◌else◌, arith, u32,
}
use emylathor.Machine.{EmulatorContext, Instruction, set_reg, ◌>>=◌}
use emylathor.Valid.{IsValid, Ensures, Ensures-bind, if_both, set_reg-IsValid}
use emylathor.Memory.{mem_get_dword_p, mem_write_dword_p}
use emylathor.Memory.Valid.{StateIsValid, ValueBelow, mem_get_dword_p-lt, mem_write_dword_p-IsValid}
use emylathor.Cpu.Stack.{
  cpu_push_dword, cpu_pop_dword, storema_loop, ins_storema, loadma_loop, ins_loadma,
}

-- The stack pointer and the state that a push or a loop leaves.
abbrev pub PushIsValid : Bool × ℕ × EmulatorContext → Type 0
PushIsValid (success, temp, e) = (temp < 2 ^ 32) × IsValid e

-- The stack pointer and the value that a pop leaves.
abbrev PopIsDword : Bool × ℕ × ℕ → Type 0
PopIsDword (success, temp, val) = (temp < 2 ^ 32) × (val < 2 ^ 32)

cpu_push_dword-IsValid :
    (reg val : ℕ) (e : EmulatorContext)
    → IsValid e
    → reg < 2 ^ 32
    → Ensures PushIsValid (cpu_push_dword reg val e)
unfolding cpu_push_dword
cpu_push_dword-IsValid reg val e v h =
    Ensures-bind StateIsValid PushIsValid (mem_write_dword_p val reg e) _
      (mem_write_dword_p-IsValid val reg e v)
      λ (b, e₁) v₁. if_both (Ensures PushIsValid) b (omega arith, v₁) (h, v₁)

cpu_pop_dword-lt :
    (reg : ℕ) (e : EmulatorContext)
    → IsValid e
    → reg < 2 ^ 32
    → Ensures PopIsDword (cpu_pop_dword reg e)
unfolding cpu_pop_dword
cpu_pop_dword-lt reg e v h =
    Ensures-bind (ValueBelow (2 ^ 32)) PopIsDword (mem_get_dword_p (u32 (reg + 4)) e) _
      (mem_get_dword_p-lt (u32 (reg + 4)) e v)
      λ (b, x) hx. if_both (Ensures PopIsDword) b (omega arith, hx) (h, hx)

storema_loop-IsValid :
    (n regp temp : ℕ) (e : EmulatorContext)
    → IsValid e
    → temp < 2 ^ 32
    → Ensures PushIsValid (storema_loop n regp temp e)
unfolding storema_loop
storema_loop-IsValid zero regp temp e v h = (h, v)
storema_loop-IsValid (suc n) regp temp e v h =
    Ensures-bind PushIsValid PushIsValid (cpu_push_dword temp (e.regs regp) e) _
      (cpu_push_dword-IsValid temp (e.regs regp) e v h)
      λ (b, temp₁, e₁) (h₁, v₁).
        elim b
          as (λ t. Ensures PushIsValid (elim t [
            | true ↦ storema_loop n (regp + 1) temp₁ e₁
            | false ↦ some (false, temp₁, e₁)
          ])) [ true ↦ storema_loop-IsValid n (regp + 1) temp₁ e₁ v₁ h₁ | false ↦ (h₁, v₁) ]

loadma_loop-IsValid :
    (n regp temp : ℕ) (e : EmulatorContext)
    → IsValid e
    → temp < 2 ^ 32
    → Ensures PushIsValid (loadma_loop n regp temp e)
unfolding loadma_loop
loadma_loop-IsValid zero regp temp e v h = (h, v)
loadma_loop-IsValid (suc n) regp temp e v h =
    Ensures-bind PopIsDword PushIsValid (cpu_pop_dword temp e) _ (cpu_pop_dword-lt temp e v h)
      λ (b, temp₁, x) (h₁, hx).
        elim b
          as (λ t. Ensures PushIsValid (elim t [
            | true ↦ loadma_loop n (regp - 1) temp₁ (set_reg e regp x)
            | false ↦ some (false, temp₁, e)
          ])) [
            | true ↦
                loadma_loop-IsValid n (regp - 1) temp₁ (set_reg e regp x)
                  (set_reg-IsValid e regp x v hx) h₁
            | false ↦ (h₁, v)
          ]

module _ (ins : Instruction) (e : EmulatorContext) (v : IsValid e) where
  sp_set :
      (o : Option (Bool × ℕ × EmulatorContext))
      → Ensures PushIsValid o
      → Ensures IsValid (do
        (success, temp, e₁) ← o
        some (set_reg e₁ ins.dst (if success then temp else e.regs ins.dst)))
  sp_set o h = Ensures-bind PushIsValid IsValid o _ h λ (b, temp, e₁) (h₁, v₁).
      set_reg-IsValid e₁ ins.dst _ v₁ (if_both (λ x. x < 2 ^ 32) b h₁ (v.regs_dword ins.dst))

  pub ins_storema-IsValid : Ensures IsValid (ins_storema ins e)
  unfolding ins_storema
  ins_storema-IsValid = sp_set _ (storema_loop-IsValid _ _ _ e v (v.regs_dword ins.dst))

  pub ins_loadma-IsValid : Ensures IsValid (ins_loadma ins e)
  unfolding ins_loadma
  ins_loadma-IsValid = sp_set _ (loadma_loop-IsValid _ _ _ e v (v.regs_dword ins.dst))
