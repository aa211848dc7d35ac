-- ===== src/Cpu/Execute/Exchange.antt =====
-- Two LOADI between two exchanges with R7.
use emylathor.Base.{
  ℕ, suc, ◌+◌, ◌*◌, ◌^◌, ◌<◌, ◌≤◌, ◌≡◌, ◌≢◌, sym, ap, ◌∙◌, true, false, some, arith, u32,
}
use emylathor.Machine.{EmulatorContext, Instruction, store, ◌>>=◌}
use emylathor.Valid.{IsValid}
use emylathor.Decode.{decode_bytes}
use emylathor.Cpu.Flags.{condition_holds, cpu_reg_flgs}
use emylathor.Cpu.Flags.Laws.{condition_holds-always}
use emylathor.Cpu.Move.{ins_xchg}
use emylathor.Cpu.Move.Laws.{ins_xchg-eq}
use emylathor.Cpu.Move.Valid.{ins_xchg-IsValid}
use emylathor.Cpu.Execute.{dispatch, continues, cpu_execute}
use emylathor.Cpu.Execute.Laws.{fetched, after}
use emylathor.Cpu.Execute.Program.{code_at, IsCode, runs, fetched-IsValid}
use emylathor.Cpu.Execute.Load.{IsWordLoad, two_loads}

dispatch-ins_xchg :
    (ins : Instruction) (e : EmulatorContext)
    → ins.opcode ≡ 0x20
    → dispatch ins e ≡ some (continues (ins_xchg ins e))
unfolding dispatch
dispatch-ins_xchg ins e h = ground arith

-- An XCHG without a condition.
pub record IsExchange (a b : ℕ) (ins : Instruction) : Type 0 where
  pub opcode_eq : ins.opcode ≡ 0x20
  pub always : ins.condition ≡ 0
  pub first_eq : ins.opa ≡ a
  pub second_eq : ins.opb ≡ b

-- The registers after an exchange.
abbrev pub swapped : ℕ → ℕ → (ℕ → ℕ) → ℕ → ℕ
swapped a b regs = store (store regs a (regs b)) b (regs a)

exchange_step :
    (e : EmulatorContext) (ins : Instruction) (a b : ℕ)
    → IsValid e
    → IsCode e.pos e
    → code_at e.pos e ≡ ins
    → IsExchange a b ins
    → (e₁ : EmulatorContext) × ((n : ℕ) → cpu_execute (suc n) false e ≡ cpu_execute n false e₁)
      × IsValid e₁
      × (e₁.pos ≡ u32 (e.pos + 4))
      × (e₁.memory ≡ e.memory)
      × (e₁.memory_size ≡ e.memory_size)
      × (e₁.regs ≡ swapped a b e.regs)
exchange_step e ins a b v c stands w =
    let done = ins_xchg-eq ins (fetched e) in
    let holds : condition_holds ins.condition (e.regs cpu_reg_flgs) ≡ true =
      ap (λ i. condition_holds i (e.regs cpu_reg_flgs)) w.always
      ∙ condition_holds-always (e.regs cpu_reg_flgs) in
    let first = w.first_eq in
    let second = w.second_eq in
    (
      ins_xchg ins (fetched e),
      (λ n.
          runs e ins v c stands n holds
          ∙ ap (λ o. o >>= after n false) (dispatch-ins_xchg ins (fetched e) w.opcode_eq)),
      ins_xchg-IsValid ins (fetched e) (fetched-IsValid e v),
      ap (λ x. x.pos) done,
      ap (λ x. x.memory) done,
      ap (λ x. x.memory_size) done,
      ap (λ x. x.regs) done
          ∙ ap (λ i. swapped i ins.opb e.regs) first
          ∙ ap (λ i. swapped a i e.regs) second,
    )

-- The instruction further on is still there.
still_there :
    (e e₁ : EmulatorContext) (a b : ℕ) → e₁.memory ≡ e.memory → b ≡ a → code_at b e₁ ≡ code_at a e
still_there e e₁ a b m h =
    ap (λ p. code_at p e₁) h ∙ ap (λ f. decode_bytes (f a) (f (a + 1)) (f (a + 2)) (f (a + 3))) m

-- The registers after the four instructions: the loaded one, and all others as they were.
swapped_twice :
    (r d : ℕ) (regs mid : ℕ → ℕ)
    → 7 < r
    → mid 7 ≡ d
    → ((j : ℕ) → 7 ≢ j → mid j ≡ swapped 7 r regs j)
    → (swapped 7 r mid r ≡ d) × ((j : ℕ) → r ≢ j → swapped 7 r mid j ≡ regs j)
swapped_twice r d regs mid h loaded others =
    (ground (arith, loaded), λ j k. ground (arith, others j, others r))

-- What the four instructions are.
pub record AreExchangedLoads (r : ℕ) (x low high : Instruction) : Type 0 where
  pub exchange : IsExchange 7 r x
  pub beyond : 7 < r
  pub low_load : IsWordLoad 7 low
  pub high_load : IsWordLoad 7 high
  pub low_lt : low.imm16 < 2 ^ 16
  pub high_lt : high.imm16 < 2 ^ 16
  pub low_dst : low.dst ≡ 14
  pub high_dst : high.dst ≡ 15
  pub low_always : low.condition ≡ 0
  pub high_always : high.condition ≡ 0

pub exchanged_loads :
    (e : EmulatorContext) (r : ℕ) (x low high : Instruction)
    → IsValid e
    → e.pos + 16 ≤ e.memory_size
    → e.memory_size ≤ 2 ^ 32
    → code_at e.pos e ≡ x
    → code_at (e.pos + 4) e ≡ low
    → code_at (e.pos + 8) e ≡ high
    → code_at (e.pos + 12) e ≡ x
    → AreExchangedLoads r x low high
    → (e₄ : EmulatorContext) × ((n : ℕ)
        → cpu_execute (suc (suc (suc (suc n)))) false e ≡ cpu_execute n false e₄)
      × (e₄.pos ≡ u32 (e.pos + 16))
      × (e₄.memory ≡ e.memory)
      × (e₄.regs r ≡ low.imm16 + high.imm16 * 2 ^ 16)
      × ((j : ℕ) → r ≢ j → e₄.regs j ≡ e.regs j)
exchanged_loads e r x low high v inside small at_x at_low at_high at_end w =
    let (e₁, run₁, v₁, p₁, m₁, s₁, r₁) =
      exchange_step e x 7 r v (omega (arith, inside), small) at_x w.exchange in
    let here₁ : e₁.pos ≡ e.pos + 4 = omega (arith, p₁, inside, small) in
    let (e₃, run₃, v₃, p₃, m₃, s₃, others, loaded) =
      two_loads e₁ 7 low high v₁ w.low_load w.high_load w.low_lt w.high_lt (w.low_dst ∙ omega arith)
        (w.high_dst ∙ omega arith) (omega (arith, here₁, inside, s₁), omega (arith, s₁, small))
        (omega (arith, here₁, inside, s₁), omega (arith, s₁, small))
        (still_there e e₁ (e.pos + 4) e₁.pos m₁ here₁ ∙ at_low)
        (still_there e e₁ (e.pos + 8) (e₁.pos + 4) m₁ (omega (arith, here₁)) ∙ at_high)
        (w.low_always ∙ sym w.high_always) true
        (ap (λ c. condition_holds c (e₁.regs cpu_reg_flgs)) w.low_always
          ∙ condition_holds-always (e₁.regs cpu_reg_flgs)) in
    let here₃ : e₃.pos ≡ e.pos + 12 = omega (arith, p₃, here₁, inside, small) in
    let (e₄, run₄, v₄, p₄, m₄, s₄, r₄) =
      exchange_step e₃ x 7 r v₃ (omega (arith, here₃, inside, s₁, s₃), omega (arith, s₁, s₃, small))
        (still_there e e₃ (e.pos + 12) e₃.pos (m₃ ∙ m₁) here₃ ∙ at_end) w.exchange in
    let mid : (j : ℕ) → 7 ≢ j → e₃.regs j ≡ swapped 7 r e.regs j =
      λ j k. others j k ∙ ap (λ f. f j) r₁ in
    let (final, kept) =
      swapped_twice r (low.imm16 + high.imm16 * 2 ^ 16) e.regs e₃.regs w.beyond loaded mid in
    (
      e₄,
      (λ n. run₁ (suc (suc (suc n))) ∙ run₃ (suc n) ∙ run₄ n),
      omega (arith, p₄, here₃),
      m₄ ∙ m₃ ∙ m₁,
      ap (λ f. f r) r₄ ∙ final,
      λ j k. ap (λ f. f j) r₄ ∙ kept j k,
    )
