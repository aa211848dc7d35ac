-- ===== src/Cpu/Execute/Laws.antt =====
-- What runs of the loop of `cpu_execute` have in common, whatever the program.
use emylathor.Base.{
  ℕ, zero, suc, ◌+◌, ◌%◌, ◌^◌, ◌≡◌, refl, sym, ap, ◌∙◌, Bool, true, false, Option, none, some,
  if◌then◌else◌, u32, arith,
}
use native.Mathlib.Nat.{zero-add, suc-add}
use emylathor.Machine.{EmulatorContext, ◌>>=◌}
use emylathor.Memory.{mem_get_instruction_p}
use emylathor.Decode.{decode_dword}
use emylathor.Decode.Laws.{dec_fetch_ins-fetched}
use emylathor.Cpu.Flags.{condition_holds, cpu_reg_flgs}
use emylathor.Cpu.Execute.{
  Round, continues, returns, dispatch, execute_fetched, cpu_round, Exit, returned, stepped, running,
  cpu_execute,
}

-- A run that goes on for more rounds after it has ended in the given way.
abbrev pub resume : ℕ → Exit → Option Exit
resume n (returned x e) = some (returned x e)
resume n (stepped e) = cpu_execute n false e
resume n (running e) = cpu_execute n false e

-- The two ends of a round, for a run of at most `suc n` rounds.
abbrev pub after : ℕ → Bool → Round → Option Exit
after n step (returns x e) = some (returned x e)
after n true (continues e) = some (stepped e)
after n false (continues e) = cpu_execute n false e

cpu_execute-suc :
    (n : ℕ) (step : Bool) (e : EmulatorContext)
    → cpu_execute (suc n) step e ≡ (cpu_round e >>= after n step)
unfolding cpu_execute
cpu_execute-suc n true e = elim (cpu_round e) [
  | none ↦ refl
  | some (returns x e₁) ↦ refl
  | some (continues e₁) ↦ refl
]
cpu_execute-suc n false e = elim (cpu_round e) [
  | none ↦ refl
  | some (returns x e₁) ↦ refl
  | some (continues e₁) ↦ refl
]

after-add :
    (m n : ℕ) (r : Option Round)
    → ((e : EmulatorContext) → cpu_execute (m + n) false e ≡ (cpu_execute m false e >>= resume n))
    → (r >>= after (m + n) false) ≡ ((r >>= after m false) >>= resume n)
after-add m n none k = refl
after-add m n (some (returns x e)) k = refl
after-add m n (some (continues e)) k = k e

-- After a single step the number of rounds makes no difference, and a run goes on from there.
after-step :
    (n : ℕ) (r : Option Round)
    → ((r >>= after n true) ≡ (r >>= after 0 true))
      × ((r >>= after n false) ≡ ((r >>= after 0 true) >>= resume n))
after-step n none = (refl, refl)
after-step n (some (returns x e)) = (refl, refl)
after-step n (some (continues e)) = (refl, refl)

-- A run of at most `m + n` rounds is a run of at most `m` rounds that goes on, if no instruction has
-- returned by then, for at most `n` more.
pub cpu_execute-add :
    (m n : ℕ) (e : EmulatorContext)
    → cpu_execute (m + n) false e ≡ (cpu_execute m false e >>= resume n)
unfolding cpu_execute
cpu_execute-add zero n e = ap (λ k. cpu_execute k false e) (zero-add n)
cpu_execute-add (suc m) n e =
    ap (λ k. cpu_execute k false e) (suc-add m n)
    ∙ cpu_execute-suc (m + n) false e
    ∙ after-add m n (cpu_round e) (cpu_execute-add m n)
    ∙ ap (λ o. o >>= resume n) (sym (cpu_execute-suc m false e))

-- A run that has returned returns the same, with the same state, when it is given more rounds.
pub cpu_execute-returned :
    (m n x : ℕ) (e e₁ : EmulatorContext)
    → cpu_execute m false e ≡ some (returned x e₁)
    → cpu_execute (m + n) false e ≡ some (returned x e₁)
cpu_execute-returned m n x e e₁ h = cpu_execute-add m n e ∙ ap (λ o. o >>= resume n) h

-- With `step`, one call runs exactly one round, however many are allowed; and a run without it is what
-- a caller gets who calls with `step` and then goes on, if that call did not return.
pub cpu_execute-step :
    (n : ℕ) (e : EmulatorContext)
    → (cpu_execute (suc n) true e ≡ cpu_execute 1 true e)
      × (cpu_execute (suc n) false e ≡ (cpu_execute 1 true e >>= resume n))
cpu_execute-step n e =
    let one = sym (cpu_execute-suc 0 true e) in
    let (same, goes) = after-step n (cpu_round e) in
    (
      cpu_execute-suc n true e ∙ same ∙ one,
      cpu_execute-suc n false e ∙ goes ∙ ap (λ o. o >>= resume n) one,
    )

-- The state after the fetch: the pointer to the next instruction, and one more counted.
abbrev pub fetched : EmulatorContext → EmulatorContext
fetched e = record e {
  pos = u32 (e.pos + 4);
  instruction_count = (e.instruction_count + 1) % 2 ^ 64;
}

module _ (e : EmulatorContext) (d : ℕ) (h : mem_get_instruction_p e.pos e ≡ some (true, d)) where
  cpu_round-fetched : cpu_round e ≡ execute_fetched (some (decode_dword d)) (fetched e)
  unfolding cpu_round
  cpu_round-fetched = simp (dec_fetch_ins-fetched e d h)

  chosen :
      (b : Bool)
      → condition_holds (decode_dword d).condition (e.regs cpu_reg_flgs) ≡ b
      → cpu_round e
        ≡ (if b then dispatch (decode_dword d) (fetched e) else some (continues (fetched e)))
  unfolding execute_fetched
  chosen b hc =
      cpu_round-fetched
      ∙ ap (λ b. if b then dispatch (decode_dword d) (fetched e) else some (continues (fetched e)))
          hc

  -- One round of a run, when the fetch at the instruction pointer succeeds. In every case the pointer
  -- has moved on by four and the counter by one. An instruction whose condition does not hold in the
  -- flags has no other effect. When it holds, STOP returns 0, FAIL its immediate data, and any other
  -- instruction does what the switch does for its opcode, before the run goes on.
  pub cpu_execute-fetched :
      (n : ℕ)
      → (condition_holds (decode_dword d).condition (e.regs cpu_reg_flgs) ≡ false
          → cpu_execute (suc n) false e ≡ cpu_execute n false (fetched e))
        × (condition_holds (decode_dword d).condition (e.regs cpu_reg_flgs) ≡ true
            → ((decode_dword d).opcode ≡ 0x00
                → cpu_execute (suc n) false e ≡ some (returned 0 (fetched e)))
              × ((decode_dword d).opcode ≡ 0x01
                  → cpu_execute (suc n) false e
                    ≡ some (returned (decode_dword d).imm16 (fetched e)))
              × (cpu_execute (suc n) false e
                  ≡ (dispatch (decode_dword d) (fetched e) >>= after n false)))
  unfolding dispatch
  cpu_execute-fetched n =
      let round = cpu_execute-suc n false e in
      (
        (λ hc. round ∙ ap (λ r. r >>= after n false) (chosen false hc)),
        (λ hc.
            let run = round ∙ ap (λ r. r >>= after n false) (chosen true hc) in
            (
              (λ op. run ∙ ap (λ r. r >>= after n false) (stop op)),
              (λ op. run ∙ ap (λ r. r >>= after n false) (fail op)),
              run,
            )),
      )
    where
      stop :
          (decode_dword d).opcode ≡ 0x00
          → dispatch (decode_dword d) (fetched e) ≡ some (returns 0 (fetched e))
      stop op = ground arith

      fail :
          (decode_dword d).opcode ≡ 0x01
          → dispatch (decode_dword d) (fetched e)
            ≡ some (returns (decode_dword d).imm16 (fetched e))
      fail op = ground arith
