-- ===== src/Cpu/Stack/RoundTrip.antt =====
-- STOREMA followed by LOADMA of the same registers.
use emylathor.Base.{
  ℕ, ◌+◌, ◌-◌, ◌*◌, ◌^◌, ◌<◌, ◌≤◌, ◌≡◌, ◌≢◌, refl, sym, ap, ◌∙◌, Bool-cases, ◌⊎◌, inl, inr, true,
  some, if◌then◌else◌, ◌==◌, arith, bit_and, ◌>>>◌,
}
use emylathor.Machine.{EmulatorContext, Instruction, store, set_reg, ◌>>=◌}
use emylathor.Valid.{IsValid}
use emylathor.Memory.Laws.{dword_value}
use emylathor.Cpu.Stack.{ins_storema, loadma_loop, ins_loadma}
use emylathor.Cpu.Stack.Push.{Pushed, storema_loop-Pushed}
use emylathor.Cpu.Stack.Pop.{Popped, loadma_loop-Popped}

-- The first and the last register of the range in the immediate data, and the number of registers.
abbrev pub first_reg : Instruction → ℕ
first_reg ins = bit_and ins.imm16 0x00ff >>> 4

abbrev pub last_reg : Instruction → ℕ
last_reg ins = bit_and (bit_and ins.imm16 0x00ff) 0xf

abbrev pub reg_count : Instruction → ℕ
reg_count ins = last_reg ins + 1 - first_reg ins

module _ (ins : Instruction) (e : EmulatorContext) where
  -- The registers after STOREMA: the stack pointer has moved.
  abbrev moved : EmulatorContext → EmulatorContext
  moved e₁ = set_reg e₁ ins.dst (e.regs ins.dst - 4 * reg_count ins)

  ins_storema-Pushed :
      (e₁ : EmulatorContext)
      → Pushed (reg_count ins) (first_reg ins) (e.regs ins.dst) e e₁
      → ins_storema ins e ≡ some (moved e₁)
  unfolding ins_storema
  ins_storema-Pushed e₁ p =
      ap
        (λ o. o >>= λ (success, temp, e₂).
          some (set_reg e₂ ins.dst (if success then temp else e.regs ins.dst)))
        p.done

  ins_loadma-Popped :
      (e₁ : EmulatorContext) (t : ℕ) (target regs : ℕ → ℕ)
      → e₁.regs ins.dst ≡ t
      → Popped (reg_count ins) (last_reg ins) t target e₁ regs
      → ins_loadma ins e₁
        ≡ some (set_reg (record e₁ { regs = regs }) ins.dst (t + 4 * reg_count ins))
  unfolding ins_loadma
  ins_loadma-Popped e₁ t target regs at p =
      ap
        (λ s. loadma_loop (reg_count ins) (last_reg ins) s e₁ >>= λ (success, temp, e₂).
          some (set_reg e₂ ins.dst (if success then temp else s)))
        at
      ∙ ap
          (λ o.
            o >>= λ (success, temp, e₂). some (set_reg e₂ ins.dst (if success then temp else t)))
          p.done

outside_cases : (i f l n : ℕ) → n ≡ l + 1 - f → (i < f) ⊎ (l < i) → (l < i) ⊎ (i + n ≤ l)
outside_cases i f l n size (inl h) = ground arith
outside_cases i f l n size (inr h) = inl h

-- After the pops, the registers of the range and the stack pointer hold what they held before the
-- pushes, and the others what they held before the pops.
module _ (e e₂ : EmulatorContext) (d t n f l : ℕ) (regs : ℕ → ℕ) (size : n ≡ l + 1 - f)
    (at : e.regs d ≡ t) (hn : 4 * n ≤ t) (p : Popped n l (t - 4 * n) e.regs e₂ regs) where
  restored_pointer : (i : ℕ) → (d == i) ≡ true → store regs d (t - 4 * n + 4 * n) i ≡ e.regs i
  restored_pointer i h =
      ap (λ b. if b then t - 4 * n + 4 * n else regs i) h
      ∙ omega arith
      ∙ sym at
      ∙ ap e.regs (same h)
    where
      same : (d == i) ≡ true → d ≡ i
      same h = ground arith

  restored : (i : ℕ) → f ≤ i → i ≤ l → store regs d (t - 4 * n + 4 * n) i ≡ e.regs i
  restored i hf hl = elim (Bool-cases (d == i)) [
    | inl h ↦ restored_pointer i h
    | inr h ↦
        ap (λ b. if b then t - 4 * n + 4 * n else regs i) h ∙ p.loaded i hl (omega (arith, size))
  ]

  others_kept : (i : ℕ) → d ≢ i → (i < f) ⊎ (l < i) → store regs d (t - 4 * n + 4 * n) i ≡ e₂.regs i
  others_kept i h out =
      let same : store regs d (t - 4 * n + 4 * n) i ≡ regs i = ground arith in
      same ∙ p.kept i (outside_cases i f l n size out)

-- The pops read what the pushes stored.
popped :
    (e e₁ : EmulatorContext) (later : ℕ → ℕ) (t n f l : ℕ)
    → n ≡ l + 1 - f
    → t + 3 < e.memory_size
    → e.memory_size ≤ 2 ^ 32
    → 4 * n ≤ t
    → Pushed n f t e e₁
    → (regs : ℕ → ℕ) × Popped n l (t - 4 * n) e.regs (record e₁ { regs = later }) regs
popped e e₁ later t n f l size ht hs hn p =
    let same_size : e₁.memory_size ≡ e.memory_size = ap (λ x. x.memory_size) p.rest in
    loadma_loop-Popped n l (t - 4 * n) e.regs (record e₁ { regs = later }) p.bytes (omega arith)
      (omega arith) (omega arith)
      λ k h.
        ap (λ a. dword_value a e₁) (omega arith)
        ∙ p.values (n - 1 - k) (omega arith)
        ∙ ap e.regs (omega arith)

-- STOREMA of a range of registers, in any state in range with room for them below the stack pointer
-- and with the dword at the stack pointer inside the memory, completes: the first register is the
-- dword at the stack pointer, each next one is the dword below, no other byte of the memory changes, and of
-- the registers only the stack pointer, by 4 for each register. LOADMA of the same range, once the
-- registers have other values but the stack pointer and the memory are as STOREMA left them, completes
-- too: every register of the range and the stack pointer hold what they held before STOREMA, the
-- other registers keep their new values.
pub ins_loadma-ins_storema :
    (ins : Instruction) (e : EmulatorContext) (later : ℕ → ℕ)
    → IsValid e
    → e.regs ins.dst + 3 < e.memory_size
    → e.memory_size ≤ 2 ^ 32
    → 4 * reg_count ins ≤ e.regs ins.dst
    → later ins.dst ≡ e.regs ins.dst - 4 * reg_count ins
    → (e₁ e₂ : EmulatorContext) × (ins_storema ins e ≡ some e₁)
      × ((k : ℕ)
          → k < reg_count ins
          → dword_value (e.regs ins.dst - 4 * k) e₁ ≡ e.regs (first_reg ins + k))
      × ((j : ℕ)
          → (e.regs ins.dst + 3 < j) ⊎ (j + 4 * reg_count ins < e.regs ins.dst + 4)
          → e₁.memory j ≡ e.memory j)
      × (e₁.regs ≡ store e.regs ins.dst (e.regs ins.dst - 4 * reg_count ins))
      × (ins_loadma ins (record e₁ { regs = later }) ≡ some e₂)
      × ((i : ℕ) → first_reg ins ≤ i → i ≤ last_reg ins → e₂.regs i ≡ e.regs i)
      × (e₂.regs ins.dst ≡ e.regs ins.dst)
      × ((i : ℕ) → ins.dst ≢ i → (i < first_reg ins) ⊎ (last_reg ins < i) → e₂.regs i ≡ later i)
ins_loadma-ins_storema ins e later v ht hs hn at =
    let n = reg_count ins in
    let t = e.regs ins.dst in
    let f = first_reg ins in
    let l = last_reg ins in
    let (e₁, p) = storema_loop-Pushed n f t e v.regs_dword v.memory_byte ht hs hn in
    let (regs, q) = popped e e₁ later t n f l refl ht hs hn p in
    let after = record (moved ins e e₁) { regs = later } in
    (
      moved ins e e₁,
      set_reg (record after { regs = regs }) ins.dst (t - 4 * n + 4 * n),
      ins_storema-Pushed ins e e₁ p,
      p.values,
      λ j h. elim h [ inl a ↦ p.above j a | inr b ↦ p.below j b ],
      ap (λ x. store x.regs ins.dst (t - 4 * n)) p.rest,
      ins_loadma-Popped ins e after (t - 4 * n) e.regs regs at q,
      restored e after ins.dst t n f l regs refl refl hn q,
      restored_pointer e after ins.dst t n f l regs refl refl hn q ins.dst (ground arith),
      others_kept e after ins.dst t n f l regs refl refl hn q,
    )
