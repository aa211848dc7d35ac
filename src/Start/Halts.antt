-- ===== src/Start/Halts.antt =====
-- The emulator on an image without jumps.
use mathlib.Core.Path.{subst}
use emylathor.Base.{
  u8, ℕ, zero, suc, ◌+◌, ◌-◌, ◌^◌, ◌<◌, ◌≤◌, ◌≡◌, refl, ap, ◌∙◌, true, false, Option, none, some,
  ltb, if◌then◌else◌, arith,
}
use emylathor.Machine.{AreDwords, ◌>>=◌}
use emylathor.Valid.{IsValid}
use emylathor.Cpu.Execute.{Exit, returned, stepped, running, cpu_execute}
use emylathor.Cpu.Execute.Straight.{is_straight}
use emylathor.Cpu.Execute.Halts.{code_in, IsStraightLine, cpu_execute_halts}
use emylathor.Start.{va_default_memory_size, emu_init, main, Outcome, status, looping, main_checked}
use emylathor.Start.Laws.{loaded, loaded_lem, emu_init-IsValid}

moved_code :
    (a b : ℕ) (m f : ℕ → ℕ) → ((i : ℕ) → i < 4 → m (b + i) ≡ f (a + i)) → code_in b m ≡ code_in a f
moved_code a b m f same =
    let h0 : m b ≡ f a = ap m (omega arith) ∙ same 0 (omega arith) ∙ ap f (omega arith) in
    let h1 = same 1 (omega arith) in
    let h2 = same 2 (omega arith) in let h3 = same 3 (omega arith) in simp (h0, h1, h2, h3)

moved_bytes :
    (a length : ℕ) (m f : ℕ → ℕ)
    → ((i : ℕ) → i < length → m (4096 + i) ≡ f i)
    → a + 4 ≤ length
    → (i : ℕ) → i < 4
    → m (4096 + a + i) ≡ f (a + i)
moved_bytes a length m f same h i hi = ap m (omega arith) ∙ same (a + i) (omega arith)

-- A program keeps its form when it is moved.
moved_line :
    (k a length size : ℕ) (m f : ℕ → ℕ)
    → ((i : ℕ) → i < length → m (4096 + i) ≡ f i)
    → 4096 + length ≤ size
    → IsStraightLine k a f length
    → IsStraightLine k (4096 + a) m size
unfolding IsStraightLine
moved_line zero a length size m f same fits (op, always, inside) =
    let code = moved_code a (4096 + a) m f (moved_bytes a length m f same (omega arith)) in
    let small : 4096 + a + 4 ≤ size = omega (arith, inside, fits) in
    (ap (λ i. i.opcode) code ∙ op, ap (λ i. i.condition) code ∙ always, small)
moved_line (suc k) a length size m f same fits (straight, inside, rest) =
    let code = moved_code a (4096 + a) m f (moved_bytes a length m f same (omega arith)) in
    let small : 4096 + a + 4 ≤ size = omega (arith, inside, fits) in
    let next : 4096 + (a + 4) ≡ 4096 + a + 4 = omega arith in
    (
      ap (λ i. is_straight i.opcode) code ∙ straight,
      small,
      subst (λ b. IsStraightLine k b m size) next
          (moved_line k (a + 4) length size m f same fits rest),
    )

module _ (regs cregs filedata : ℕ → ℕ) (length : ℕ) (hr : AreDwords regs) (hc : AreDwords cregs)
    (hf : (i : ℕ) → filedata i < 2 ^ 8) where
  loaded-IsValid : IsValid (loaded filedata length (emu_init regs cregs))
  loaded-IsValid =
      let v = emu_init-IsValid regs cregs filedata length hr hc hf in
      record {
        regs_dword = v.regs_dword;
        cregs_dword = v.cregs_dword;
        pos_dword = omega arith;
        memory_byte = λ a. ground (arith, hf (a - 4096), v.memory_byte a);
        latch_dword = v.latch_dword;
        count_qword = v.count_qword;
      }

  -- The emulator, started with the name of a file whose contents are any number of instructions that
  -- only change registers, under any conditions, and a STOP behind them, and that fits the memory,
  -- exits with 0 within one round for each instruction, whatever the registers held. Without
  -- an argument, or without memory, it exits with 10, and for a file that it cannot read with 11.
  pub main_checked_halts :
      (argc k n : ℕ)
      → 2 ≤ argc
      → 4096 + length ≤ va_default_memory_size
      → IsStraightLine k 0 filedata length
      → (main_checked argc true (some (filedata, length)) (suc k + n) regs cregs ≡ some (status 0))
        × (main_checked 1 true (some (filedata, length)) (suc k + n) regs cregs ≡ some (status 10))
        × (main_checked argc false (some (filedata, length)) (suc k + n) regs cregs
            ≡ some (status 10))
        × (main_checked argc true none (suc k + n) regs cregs ≡ some (status 11))
  unfolding main_checked main emu_init
  main_checked_halts argc k n h fits line =
      let e = loaded filedata length (emu_init regs cregs) in
      let many : ltb argc 2 ≡ false = ground arith in
      let start : IsStraightLine k e.pos e.memory e.memory_size =
        moved_line k 0 length va_default_memory_size e.memory filedata (λ i hi. ground arith) fits
          line in
      let (e₁, halted, rest) = cpu_execute_halts k n e loaded-IsValid (omega arith) start in
      let outcome : Exit → Outcome = λ x. elim x [
        | returned v e₂ ↦ status (u8 v)
        | stepped e₂ ↦ looping
        | running e₂ ↦ looping
      ] in
      let finish : Option Exit → Option Outcome = λ o. o >>= λ x. some (outcome x) in
      (
        ap
              (λ t.
                if t
                then some (status 10)
                else finish (main (suc k + n) regs cregs filedata length))
              many
            ∙ ap (λ o. finish (o >>= cpu_execute (suc k + n) false))
                (loaded_lem filedata length (emu_init regs cregs) fits)
            ∙ ap finish halted,
        refl,
        ground arith,
        ground arith,
      )
