-- ===== src/Assembler/Execution.antt =====
-- The assembler and the emulator as programs, one after the other.
use Prim.Native.String.{String}
use mathlib.Core.Path.{subst}
use emylathor.Base.{
  ℕ, zero, suc, ◌+◌, ◌-◌, ◌*◌, ◌^◌, ◌<◌, ◌≤◌, ◌≡◌, refl, sym, ap, ◌∙◌, true, Bool, Option, none,
  some, List, [], ◌∷◌, ◌++◌, arith, ltb, Bool-cases, inl, inr,
}
use emylathor.Machine.{AreDwords}
use emylathor.Cpu.Execute.Straight.{is_straight}
use emylathor.Cpu.Execute.Halts.{code_in, IsStraightLine}
use emylathor.Start.{va_default_memory_size, status, main_checked}
use emylathor.Start.Halts.{main_checked_halts}
use emylathor.Lookup.{get_op_for_name}
use emylathor.Emit.{EmitContext, emitted}
use emylathor.Emit.Buffer.{available}
use emylathor.Emit.Encode.{instruction_at}
use emylathor.Emit.Labels.{HashTable}
use emylathor.Emit.Bytes.{write_file}
use emylathor.Emit.Bytes.Append.{length, length-append}
use emylathor.Assembler.{Statement, op_fmt_i, condition_code}
use emylathor.Assembler.Meaning.{meaning, accepted}
use emylathor.Assembler.Image.{element, contents, length-first_of, element-first_of}
use emylathor.Assembler.Program.{Exp, asm_file, img_file, vasm}
use emylathor.Assembler.Sequence.{program, AreAccepted, HoldsProgram, vasm-Writes}

abbrev pub stop : Statement
stop = op_fmt_i none "STOP"

-- The statements and a STOP behind them.
abbrev pub ended : List Statement → List Statement
ended sts = sts ++ stop ∷ []

-- Statements that only change registers.
abbrev pub AreStraight : List Statement → Type 0
AreStraight [] = Unit
AreStraight (st ∷ rest) = (is_straight (meaning st).opcode ≡ true) × AreStraight rest

accepted_ended : (sts : List Statement) → AreAccepted sts → AreAccepted (ended sts)
unfolding accepted
accepted_ended [] h = ((tt, refl), tt)
accepted_ended (st ∷ sts) (h, hs) = (h, accepted_ended sts hs)

length-ended : (sts : List Statement) → length (ended sts) ≡ length sts + 1
unfolding length
length-ended sts = length-append sts (stop ∷ [])

-- The bytes that a file has in common with the buffer.
same_code :
    (f : ℕ → ℕ) (b : EmitContext) (p size : ℕ)
    → ((i : ℕ) → i < size → f i ≡ b.buf i)
    → p + 4 ≤ size
    → code_in p f ≡ instruction_at p b
same_code f b p size same h =
    let h0 = same p (omega arith) in
    let h1 = same (p + 1) (omega arith) in
    let h2 = same (p + 2) (omega arith) in
    let h3 = same (p + 3) (omega arith) in simp (h0, h1, h2, h3)

line_lem :
    (f : ℕ → ℕ) (b : EmitContext) (size : ℕ)
    → ((i : ℕ) → i < size → f i ≡ b.buf i)
    → (sts : List Statement) (p : ℕ) → p + 4 * (length sts + 1) ≤ size
    → AreStraight sts
    → HoldsProgram p (ended sts) b
    → IsStraightLine (length sts) p f size
unfolding HoldsProgram IsStraightLine length meaning condition_code get_op_for_name
line_lem f b size same [] p fits h (decoded, bytes, held) =
    let code = same_code f b p size same (omega arith) ∙ decoded in
    (ap (λ i. i.opcode) code, ap (λ i. i.condition) code, omega arith)
line_lem f b size same (st ∷ sts) p fits (h, hs) (decoded, bytes, held) =
    let code = same_code f b p size same (omega arith) ∙ decoded in
    (
      ap (λ i. is_straight i.opcode) code ∙ h,
      omega arith,
      line_lem f b size same sts (p + 4) (omega arith) hs held,
    )

four_bytes :
    (f : ℕ → ℕ) (p k i : ℕ)
    → i ≡ p + k
    → f p < 2 ^ 8
    → f (p + 1) < 2 ^ 8
    → f (p + 2) < 2 ^ 8
    → f (p + 3) < 2 ^ 8
    → k < 4
    → f i < 2 ^ 8
four_bytes f p zero i at h0 h1 h2 h3 l = subst (λ j. f j < 2 ^ 8) (omega (arith, at)) h0
four_bytes f p (suc zero) i at h0 h1 h2 h3 l = subst (λ j. f j < 2 ^ 8) (omega (arith, at)) h1
four_bytes f p (suc (suc zero)) i at h0 h1 h2 h3 l = subst (λ j. f j < 2 ^ 8) (omega (arith, at)) h2
four_bytes f p (suc (suc (suc zero))) i at h0 h1 h2 h3 l =
    subst (λ j. f j < 2 ^ 8) (omega (arith, at)) h3
four_bytes f p (suc (suc (suc (suc k)))) i at h0 h1 h2 h3 l = absurd (omega arith)

bytes_lem :
    (b : EmitContext) (sts : List Statement) (p i : ℕ)
    → HoldsProgram p sts b
    → p ≤ i
    → i < p + 4 * length sts
    → b.buf i < 2 ^ 8
unfolding HoldsProgram length
bytes_lem b [] p i held lo hi = absurd (omega arith)
bytes_lem b (st ∷ sts) p i (decoded, (h0, h1, h2, h3), held) lo hi =
    elim (Bool-cases (ltb i (p + 4))) [
      | inl here ↦ four_bytes b.buf p (i - p) i (omega arith) h0 h1 h2 h3 (ground arith)
      | inr later ↦ bytes_lem b sts (p + 4) i held (ground arith) (omega arith)
    ]

-- Behind the end of the contents there is a 0.
element-lt :
    (xs : List ℕ) (i : ℕ) → ((j : ℕ) → j < length xs → element xs j < 2 ^ 8) → element xs i < 2 ^ 8
unfolding element length
element-lt [] i h = omega arith
element-lt (x ∷ xs) zero h = h zero (omega arith)
element-lt (x ∷ xs) (suc i) h = element-lt xs i (λ j l. h (suc j) (omega arith))

-- From the source to the exit status. A list of instructions of the grammar that only change registers,
-- under any conditions and whatever their names, with data that fits, and a STOP behind them, is
-- written by `vasm --asm <path> --img <image>` to a file, with files that can be opened and memory
-- available; and if the file fits the memory of the emulator, the emulator that is started with it
-- exits with 0 within one round for each statement, whatever its registers held.
pub vasm-main_checked :
    (H : HashTable) (fresh : ℕ → ℕ → ℕ) (sts : List Statement) (read : String → Option (List Exp))
    (writable : String → Bool) (argc : ℕ) (path img : String) (rounds : ℕ) (regs cregs : ℕ → ℕ)
    (argc₁ n : ℕ)
    → read path ≡ some (program (ended sts))
    → writable img ≡ true
    → 3 ≤ argc
    → AreAccepted sts
    → AreStraight sts
    → 4096 + 4 * (length sts + 1) ≤ va_default_memory_size
    → AreDwords regs
    → AreDwords cregs
    → 2 ≤ argc₁
    → (file : List ℕ) × (vasm H
          (available fresh)
          true
          read
          writable
          true
          true
          rounds
          argc
          (asm_file path ∷ img_file img ∷ [])
        ≡ some (emitted file))
      × (main_checked argc₁ true (some (contents file)) (suc (length sts) + n) regs cregs
          ≡ some (status 0))
unfolding write_file
vasm-main_checked H fresh sts read writable argc path img rounds regs cregs argc₁ n reads writes
      enough h straight fits hr hc started =
    let more = length-ended sts in
    let (b, (done, a, at, held)) =
      vasm-Writes H fresh read writable rounds argc path img (ended sts) reads writes enough
        (accepted_ended sts h) (omega (arith, more)) in
    let long : length (write_file b) ≡ 4 * (length sts + 1) =
      length-first_of b.highest_pos b.buf ∙ omega (arith, a.at_end, at, more) in
    let same : (i : ℕ) → i < length (write_file b) → element (write_file b) i ≡ b.buf i =
      λ i l. element-first_of b.highest_pos b.buf i (omega (arith, a.at_end, at, long, more)) in
    let bytes : (i : ℕ) → element (write_file b) i < 2 ^ 8 = λ i. element-lt (write_file b) i λ j l.
      subst (λ x. x < 2 ^ 8) (sym (same j l))
        (bytes_lem b (ended sts) 0 j held (omega arith) (omega (arith, long, more))) in
    (
      write_file b,
      done,
      (main_checked_halts regs cregs (element (write_file b)) (length (write_file b)) hr hc bytes
          argc₁ (length sts) n started (omega (arith, long))
          (line_lem (element (write_file b)) b (length (write_file b)) same sts 0
            (omega (arith, long)) straight held)).0,
    )
