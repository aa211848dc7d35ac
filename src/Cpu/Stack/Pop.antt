-- ===== src/Cpu/Stack/Pop.antt =====
-- The loop of LOADMA loads the registers upwards from the stack pointer.
use emylathor.Base.{
  ℕ, zero, suc, ◌+◌, ◌-◌, ◌*◌, ◌^◌, ◌<◌, ◌≤◌, ◌≡◌, refl, sym, ap, ◌∙◌, ◌⊎◌, inl, inr, true, false,
  some, if◌then◌else◌, arith,
}
use emylathor.Machine.{EmulatorContext, set_reg, ◌>>=◌}
use emylathor.Memory.{mem_get_dword_p}
use emylathor.Memory.Laws.{dword_value, dword_value_lem}
use emylathor.Cpu.Stack.{cpu_pop_dword, loadma_loop}
use emylathor.Cpu.Stack.Push.{AreBytes}

pop_lem :
    (t : ℕ) (e : EmulatorContext)
    → AreBytes e
    → t + 7 < e.memory_size
    → e.memory_size ≤ 2 ^ 32
    → cpu_pop_dword t e ≡ some (true, t + 4, dword_value (t + 4) e)
unfolding cpu_pop_dword
pop_lem t e hb ht hs =
    ap
      (λ a. mem_get_dword_p a e >>= λ (success, val).
        if success then some (true, a, val) else some (false, t, val))
      (omega arith)
    ∙ ap
        (λ o.
          o >>= λ (success, val). if success then some (true, t + 4, val) else some (false, t, val))
        (dword_value_lem (t + 4) e hb (omega arith) hs)

le_lt_cases : (i n : ℕ) → i ≤ n → (i ≡ n) ⊎ (i < n)
le_lt_cases i n h = ground arith

-- What `n` pops into the registers down from `regp` leave behind, with the stack pointer at `t` before,
-- when the values on the stack are the ones that `target` gives to those registers.
pub record Popped (n regp t : ℕ) (target : ℕ → ℕ) (e : EmulatorContext) (regs : ℕ → ℕ)
    : Type 0 where
  pub done : loadma_loop n regp t e ≡ some (true, t + 4 * n, record e { regs = regs })
  pub loaded : (i : ℕ) → i ≤ regp → regp < i + n → regs i ≡ target i
  pub kept : (i : ℕ) → (regp < i) ⊎ (i + n ≤ regp) → regs i ≡ e.regs i

module _ (n regp t : ℕ) (target : ℕ → ℕ) (e : EmulatorContext) (regs : ℕ → ℕ) (hb : AreBytes e)
    (ht : t + 4 * suc n + 3 < e.memory_size) (hs : e.memory_size ≤ 2 ^ 32) (hn : suc n ≤ regp + 1)
    (hv : dword_value (t + 4) e ≡ target regp)
    (p : Popped n (regp - 1) (t + 4) target (set_reg e regp (dword_value (t + 4) e)) regs) where
  suc-done : loadma_loop (suc n) regp t e ≡ some (true, t + 4 * suc n, record e { regs = regs })
  unfolding loadma_loop
  suc-done =
      ap
        (λ o. o >>= λ (success, temp₁, val). elim success [
          | true ↦ loadma_loop n (regp - 1) temp₁ (set_reg e regp val)
          | false ↦ some (false, temp₁, e)
        ])
        (pop_lem t e hb (omega arith) hs)
      ∙ p.done
      ∙ ap (λ x. some (true, x, record e { regs = regs })) (omega arith)

  -- The register of this pop is not touched by the others.
  here : regs regp ≡ target regp
  here = p.kept regp (here_apart) ∙ ground arith
    where
      here_apart : (regp - 1 < regp) ⊎ (regp + n ≤ regp - 1)
      here_apart = ground arith

  suc-loaded : (i : ℕ) → i ≤ regp → regp < i + suc n → regs i ≡ target i
  suc-loaded i h k = elim (le_lt_cases i regp h) [
    | inl same ↦ ap regs same ∙ here ∙ ap target (sym same)
    | inr below ↦ p.loaded i (omega arith) (omega arith)
  ]

  suc-kept : (i : ℕ) → (regp < i) ⊎ (i + suc n ≤ regp) → regs i ≡ e.regs i
  suc-kept i h = p.kept i (apart i h) ∙ ground arith
    where
      apart : (i : ℕ) → (regp < i) ⊎ (i + suc n ≤ regp) → (regp - 1 < i) ⊎ (i + n ≤ regp - 1)
      apart i (inl h) = inl (omega arith)
      apart i (inr h) = inr (omega arith)

  suc-Popped : Popped (suc n) regp t target e regs
  suc-Popped = record { done = suc-done; loaded = suc-loaded; kept = suc-kept }

none_done : (regp t : ℕ) (e : EmulatorContext) → loadma_loop 0 regp t e ≡ some (true, t + 4 * 0, e)
unfolding loadma_loop
none_done regp t e = ap (λ x. some (true, x, e)) (omega arith)

pub loadma_loop-Popped :
    (n regp t : ℕ) (target : ℕ → ℕ) (e : EmulatorContext)
    → AreBytes e
    → t + 4 * n + 3 < e.memory_size
    → e.memory_size ≤ 2 ^ 32
    → n ≤ regp + 1
    → ((k : ℕ) → k < n → dword_value (t + 4 + 4 * k) e ≡ target (regp - k))
    → (regs : ℕ → ℕ) × Popped n regp t target e regs
loadma_loop-Popped zero regp t target e hb ht hs hn hv = (
  e.regs,
  record { done = none_done regp t e; loaded = λ i h k. ground arith; kept = λ i h. refl },
)
loadma_loop-Popped (suc n) regp t target e hb ht hs hn hv =
    let first : dword_value (t + 4) e ≡ target regp =
      ap (λ a. dword_value a e) (omega arith) ∙ hv 0 (omega arith) ∙ ap target (omega arith) in
    let others : (k : ℕ) → k < n → dword_value (t + 4 + 4 + 4 * k) e ≡ target (regp - 1 - k) =
      λ k h.
        ap (λ a. dword_value a e) (omega arith)
        ∙ hv (suc k) (omega arith)
        ∙ ap target (omega arith) in
    let (regs, p) =
      loadma_loop-Popped n (regp - 1) (t + 4) target (set_reg e regp (dword_value (t + 4) e)) hb
        (omega arith) hs (omega arith) others in
    (regs, suc-Popped n regp t target e regs hb ht hs hn first p)
