-- ===== src/Cpu/Stack/Push.antt =====
-- The loop of STOREMA stores the registers downwards from the stack pointer.
use emylathor.Base.{
  ℕ, zero, suc, ◌+◌, ◌-◌, ◌*◌, ◌^◌, ◌<◌, ◌≤◌, ◌≡◌, refl, ap, ◌∙◌, true, false, some, arith,
}
use emylathor.Machine.{EmulatorContext, AreDwords, ◌>>=◌}
use emylathor.Memory.Laws.{dword_stored, write_dword_lem, dword_value}
use emylathor.Cpu.Stack.{cpu_push_dword, storema_loop}

abbrev pub AreBytes : EmulatorContext → Type 0
AreBytes e = (i : ℕ) → e.memory i < 2 ^ 8

push_lem :
    (t v : ℕ) (e : EmulatorContext)
    → v < 2 ^ 32
    → t + 3 < e.memory_size
    → e.memory_size ≤ 2 ^ 32
    → 4 ≤ t
    → cpu_push_dword t v e ≡ some (true, t - 4, dword_stored v t e)
unfolding cpu_push_dword
push_lem t v e hv ht hs h4 = ground (arith, write_dword_lem v t e hv ht hs)

stored-AreBytes :
    (v t : ℕ) (e : EmulatorContext) → v < 2 ^ 32 → AreBytes e → AreBytes (dword_stored v t e)
stored-AreBytes v t e hv hb = λ i. ground (arith, hb i)

-- What `n` pushes of the registers from `regp` on leave behind, with the stack pointer at `t` before.
pub record Pushed (n regp t : ℕ) (e e₁ : EmulatorContext) : Type 0 where
  pub done : storema_loop n regp t e ≡ some (true, t - 4 * n, e₁)
  pub rest : e₁ ≡ record e { memory = e₁.memory }
  pub bytes : AreBytes e₁
  pub values : (k : ℕ) → k < n → dword_value (t - 4 * k) e₁ ≡ e.regs (regp + k)
  pub above : (j : ℕ) → t + 3 < j → e₁.memory j ≡ e.memory j
  pub below : (j : ℕ) → j + 4 * n < t + 4 → e₁.memory j ≡ e.memory j

none_done : (regp t : ℕ) (e : EmulatorContext) → storema_loop 0 regp t e ≡ some (true, t - 4 * 0, e)
unfolding storema_loop
none_done regp t e = ap (λ x. some (true, x, e)) (omega arith)

-- One more push, before the others.
module _ (n regp t : ℕ) (e e₁ : EmulatorContext) (hv : e.regs regp < 2 ^ 32)
    (ht : t + 3 < e.memory_size) (hs : e.memory_size ≤ 2 ^ 32) (hn : 4 * suc n ≤ t)
    (p : Pushed n (regp + 1) (t - 4) (dword_stored (e.regs regp) t e) e₁) where
  suc-done : storema_loop (suc n) regp t e ≡ some (true, t - 4 * suc n, e₁)
  unfolding storema_loop
  suc-done =
      ap
        (λ o. o >>= λ (success, temp₁, e₂). elim success [
          | true ↦ storema_loop n (regp + 1) temp₁ e₂
          | false ↦ some (false, temp₁, e₂)
        ])
        (push_lem t (e.regs regp) e hv ht hs (omega arith))
      ∙ p.done
      ∙ ap (λ x. some (true, x, e₁)) (omega arith)

  suc-values : (k : ℕ) → k < suc n → dword_value (t - 4 * k) e₁ ≡ e.regs (regp + k)
  suc-values zero h =
      let h0 = p.above t (omega arith) in
      let h1 = p.above (t + 1) (omega arith) in
      let h2 = p.above (t + 2) (omega arith) in
      let h3 = p.above (t + 3) (omega arith) in ground arith
  suc-values (suc k) h =
      ap (λ a. dword_value a e₁) (omega arith) ∙ p.values k (omega arith) ∙ ap e.regs (omega arith)

  suc-Pushed : Pushed (suc n) regp t e e₁
  suc-Pushed = record {
    done = suc-done;
    rest = p.rest;
    bytes = p.bytes;
    values = suc-values;
    above = λ j h. p.above j (omega arith) ∙ ground arith;
    below = λ j h. p.below j (omega arith) ∙ ground arith;
  }

pub storema_loop-Pushed :
    (n regp t : ℕ) (e : EmulatorContext)
    → AreDwords e.regs
    → AreBytes e
    → t + 3 < e.memory_size
    → e.memory_size ≤ 2 ^ 32
    → 4 * n ≤ t
    → (e₁ : EmulatorContext) × Pushed n regp t e e₁
storema_loop-Pushed zero regp t e hr hb ht hs hn = (
  e,
  record {
    done = none_done regp t e;
    rest = refl;
    bytes = hb;
    values = λ k h. ground arith;
    above = λ j h. refl;
    below = λ j h. refl;
  },
)
storema_loop-Pushed (suc n) regp t e hr hb ht hs hn =
    let (e₁, p) =
      storema_loop-Pushed n (regp + 1) (t - 4) (dword_stored (e.regs regp) t e) hr
        (stored-AreBytes (e.regs regp) t e (hr regp) hb) (omega arith) hs (omega arith) in
    (e₁, suc-Pushed n regp t e e₁ (hr regp) ht hs hn p)
