-- ===== src/Cpu/Effect.antt =====
-- The common effect of the instructions that write one register and the flags O and C.
use emylathor.Base.{ℕ, ◌^◌, ◌<◌, ◌≡◌, ◌≢◌, ◌==◌, Bool, if◌then◌else◌, arith, ◌∙◌}
use emylathor.Machine.{AreDwords, store-AreDwords, EmulatorContext, set_reg}
use emylathor.Cpu.Flags.{cpu_reg_flgs, assign_flag}
use emylathor.Cpu.Flags.Laws.{flag, flag-assign_flag, regs-assign_flag, assign_flag-AreDwords}

-- What an instruction did that writes one register other than FLGS and the flags O and C.
pub record AluEffect (dst value : ℕ) (o c : Bool) (e r : EmulatorContext) : Type 0 where
  pub result : r.regs dst ≡ value
  pub overflow : flag 2 r ≡ o
  pub carry : flag 1 r ≡ c
  pub other_flags : (j : ℕ) → j ≢ 1 → j ≢ 2 → flag j r ≡ flag j e
  pub other_regs : (i : ℕ) → i ≢ dst → i ≢ cpu_reg_flgs → r.regs i ≡ e.regs i

module _ (dst v : ℕ) (e : EmulatorContext) (ne : dst ≢ cpu_reg_flgs) (he : AreDwords e.regs)
    (hv : v < 2 ^ 32) where
  pub both_flags-AluEffect :
      (o c : Bool) → AluEffect dst v o c e (assign_flag 2 c (assign_flag 4 o (set_reg e dst v)))
  both_flags-AluEffect o c =
      let e₁ = set_reg e dst v in
      let e₂ = assign_flag 4 o e₁ in
      let h₁ : AreDwords e₁.regs = store-AreDwords e.regs dst v he hv in
      let h₂ = assign_flag-AreDwords 4 o e₁ (omega arith) h₁ in
      let two : (j : ℕ)
          → flag j (assign_flag 2 c e₂) ≡ (if j == 1 then c else if j == 2 then o else flag j e) =
        λ j. ground (
          arith,
          flag-assign_flag 1 j c e₂ (omega arith) (h₂ 15),
          flag-assign_flag 2 j o e₁ (omega arith) (h₁ 15),
        ) in
      record {
        result = rw (regs-assign_flag 2 c e₂ dst ne, regs-assign_flag 4 o e₁ dst ne) (ground arith);
        overflow = two 2;
        carry = two 1;
        other_flags = λ j p q. ground (arith, two j);
        other_regs =
            λ i p q. rw (regs-assign_flag 2 c e₂ i q, regs-assign_flag 4 o e₁ i q) (ground arith);
      }

  pub overflow_last-AluEffect :
      (o : Bool) → AluEffect dst v o (flag 1 e) e (assign_flag 4 o (set_reg e dst v))
  overflow_last-AluEffect o =
      let e₁ = set_reg e dst v in
      let one : (j : ℕ) → flag j (assign_flag 4 o e₁) ≡ (if j == 2 then o else flag j e) = λ j.
        ground (
          arith,
          flag-assign_flag 2 j o e₁ (omega arith) (store-AreDwords e.regs dst v he hv 15),
        ) in
      record {
        result = rw (regs-assign_flag 4 o e₁ dst ne) (ground arith);
        overflow = one 2;
        carry = one 1;
        other_flags = λ j p q. ground (arith, one j);
        other_regs = λ i p q. rw (regs-assign_flag 4 o e₁ i q) (ground arith);
      }

  flag-set_reg : (j : ℕ) (x : EmulatorContext) → flag j (set_reg x dst v) ≡ flag j x
  flag-set_reg j x = ground arith

  pub overflow_first-AluEffect :
      (o : Bool) → AluEffect dst v o (flag 1 e) e (set_reg (assign_flag 4 o e) dst v)
  overflow_first-AluEffect o =
      let one : (j : ℕ)
          → flag j (set_reg (assign_flag 4 o e) dst v) ≡ (if j == 2 then o else flag j e) =
        λ j. flag-set_reg j (assign_flag 4 o e) ∙ flag-assign_flag 2 j o e (omega arith) (he 15) in
      record {
        result = ground arith;
        overflow = one 2;
        carry = one 1;
        other_flags = λ j p q. ground (arith, one j);
        other_regs = λ i p q. ground (arith, regs-assign_flag 4 o e i q);
      }

  pub carry_first-AluEffect :
      (c : Bool) → AluEffect dst v (flag 2 e) c e (set_reg (assign_flag 2 c e) dst v)
  carry_first-AluEffect c =
      let one : (j : ℕ)
          → flag j (set_reg (assign_flag 2 c e) dst v) ≡ (if j == 1 then c else flag j e) =
        λ j. flag-set_reg j (assign_flag 2 c e) ∙ flag-assign_flag 1 j c e (omega arith) (he 15) in
      record {
        result = ground arith;
        overflow = one 2;
        carry = one 1;
        other_flags = λ j p q. ground (arith, one j);
        other_regs = λ i p q. ground (arith, regs-assign_flag 2 c e i q);
      }

pub AluEffect-congr :
    {dst v v' : ℕ} {o o' c c' : Bool} {e r : EmulatorContext}
    → v ≡ v'
    → o ≡ o'
    → c ≡ c'
    → AluEffect dst v o c e r
    → AluEffect dst v' o' c' e r
AluEffect-congr p q s f = record {
  result = f.result ∙ p;
  overflow = f.overflow ∙ q;
  carry = f.carry ∙ s;
  other_flags = f.other_flags;
  other_regs = f.other_regs;
}
