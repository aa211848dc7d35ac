-- ===== src/Assembler/Sequence.antt =====
-- A program of instructions in the buffer of the assembler, and in the file that it writes.
use Prim.Native.String.{String}
use mathlib.Core.List.{map}
use mathlib.Core.Path.{subst}
use emylathor.Base.{
  ℕ, ◌+◌, ◌*◌, ◌^◌, ◌<◌, ◌≤◌, ◌≡◌, refl, ap, ◌∙◌, true, false, Bool, Option, some, List, [], ◌∷◌,
  ltb, if◌then◌else◌, arith,
}
use emylathor.Emit.{EmitContext, Emitted, emitted, exited, ◌>=>◌}
use emylathor.Emit.Buffer.{IsAligned, available}
use emylathor.Emit.Encode.{AreBytes, instruction_at}
use emylathor.Emit.Labels.{HashTable, LabelContext, emit_create_context, label_resolution}
use emylathor.Emit.Bytes.{write_file}
use emylathor.Emit.Bytes.Append.{length}
use emylathor.Assembler.{Statement}
use emylathor.Assembler.Meaning.{meaning, accepted, IsLexed}
use emylathor.Assembler.Encode.{instruction_lem}
use emylathor.Assembler.Program.{
  Exp, statement, behind, on_buffer, action, exps, finish, asm_file, img_file, initial, options,
  file_names, assemble, vasm,
}

abbrev pub program : List Statement → List Exp
program sts = map statement sts

-- Every statement has a number that the lexer can have read, and is accepted.
abbrev pub AreAccepted : List Statement → Type 0
AreAccepted [] = Unit
AreAccepted (st ∷ rest) = (IsLexed st × (accepted st ≡ true)) × AreAccepted rest

-- From a position on, the buffer holds the instructions that the statements stand for.
unfoldable pub HoldsProgram : ℕ → List Statement → EmitContext → Type 0
HoldsProgram p [] b = Unit
HoldsProgram p (st ∷ rest) b =
    (instruction_at p b ≡ meaning st) × AreBytes p b × HoldsProgram (p + 4) rest b

-- The instruction at a position that two buffers have in common.
instruction_at-same :
    (b c : EmitContext) (p : ℕ)
    → ((i : ℕ) → i < p + 4 → b.buf i ≡ c.buf i)
    → instruction_at p b ≡ instruction_at p c
instruction_at-same b c p same =
    let h0 = same p (omega arith) in
    let h1 = same (p + 1) (omega arith) in
    let h2 = same (p + 2) (omega arith) in
    let h3 = same (p + 3) (omega arith) in simp (h0, h1, h2, h3)

AreBytes-same :
    (b c : EmitContext) (p : ℕ)
    → ((i : ℕ) → i < p + 4 → b.buf i ≡ c.buf i)
    → AreBytes p c
    → AreBytes p b
AreBytes-same b c p same (h0, h1, h2, h3) = (
  omega (arith, same p (omega arith)),
  omega (arith, same (p + 1) (omega arith)),
  omega (arith, same (p + 2) (omega arith)),
  omega (arith, same (p + 3) (omega arith)),
)

module _ (H : HashTable) (fresh : ℕ → ℕ → ℕ) (malloc : Bool) (rounds : ℕ) where
  program_lem :
      (sts : List Statement) (ctx : LabelContext H.State)
      → IsAligned ctx.buffer
      → ctx.buffer.size + 512 * length sts < 2 ^ 32
      → AreAccepted sts
      → (b : EmitContext) × (exps H (available fresh) malloc rounds (program sts) ctx
          ≡ some (emitted (record ctx { buffer = b })))
        × IsAligned b
        × (b.pos ≡ ctx.buffer.pos + 4 * length sts)
        × HoldsProgram ctx.buffer.pos sts b
        × ((i : ℕ) → i < ctx.buffer.pos → b.buf i ≡ ctx.buffer.buf i)
  unfolding HoldsProgram exps action behind on_buffer length
  program_lem [] ctx a l h = (ctx.buffer, refl, a, omega arith, tt, λ i k. refl)
  program_lem (st ∷ sts) ctx a l ((h, k), hs) =
      let (b₁, done₁, a₁, at₁, decoded, kept₁, size, bytes) =
        (instruction_lem fresh ctx.buffer a (omega arith) st h).0 k in
      let ctx₁ = record ctx { buffer = b₁ } in
      let (b, done, a₂, at, holds, kept) = program_lem sts ctx₁ a₁ (omega (arith, size)) hs in
      let same : (i : ℕ) → i < ctx.buffer.pos + 4 → b.buf i ≡ b₁.buf i =
        λ i l. kept i (omega (arith, at₁)) in
      (
        b,
        ap
              (λ r.
                behind (exps H (available fresh) malloc rounds (program sts))
                  (some (r >=> λ c. emitted (record ctx { buffer = c }))))
              done₁
            ∙ done,
        a₂,
        omega (arith, at₁, at),
        (
          instruction_at-same b b₁ ctx.buffer.pos same ∙ decoded,
          AreBytes-same b b₁ ctx.buffer.pos same bytes,
          subst (λ p. HoldsProgram p sts b) at₁ holds,
        ),
        λ i l. kept i (omega (arith, at₁)) ∙ kept₁ i l,
      )

-- The context that `main` starts with.
abbrev started : (H : HashTable) → LabelContext H.State
started H = record {
  buffer = record {
    buf = λ i. 0;
    allocated = 512;
    buf_len_fixed = false;
    pos = 0;
    highest_pos = 0;
    size = 512;
  };
  labels = H.new;
  labelrefs = [];
  offset = 4096;
}

started-IsAligned : (H : HashTable) → IsAligned (started H).buffer
started-IsAligned H = record {
  dynamic = refl;
  whole = refl;
  at_end = refl;
  dwords = refl;
  blocks = refl;
  within = omega arith;
}

-- The file of a program without references, from the arguments `--asm` and `--img`.
vasm_lem :
    (H : HashTable) (fresh : ℕ → ℕ → ℕ) (read : String → Option (List Exp))
    (writable : String → Bool) (rounds argc : ℕ) (path img : String) (sts : List Statement)
    (b : EmitContext)
    → read path ≡ some (program sts)
    → writable img ≡ true
    → 3 ≤ argc
    → exps H (available fresh) true rounds (program sts) (started H)
      ≡ some (emitted (record (started H) { buffer = b }))
    → vasm H
        (available fresh)
        true
        read
        writable
        true
        true
        rounds
        argc
        (asm_file path ∷ img_file img ∷ [])
      ≡ some (emitted (write_file b))
unfolding vasm options file_names assemble emit_create_context finish label_resolution behind
vasm_lem H fresh read writable rounds argc path img sts b reads writes enough done =
    let named = record initial { path = some path; img = some img } in
    let go : Emitted (String × String) → Option (Emitted (List ℕ)) = λ r.
      behind
        (λ (p, i). assemble H (available fresh) true rounds named (read p) true true (writable i))
        (some r) in
    let given : ltb argc 3 ≡ false = ground arith in
    ap (λ t. go (if t then exited 1 else emitted (path, img))) given
    ∙ ap (λ x. assemble H (available fresh) true rounds named x true true (writable img)) reads
    ∙ ap (λ w. assemble H (available fresh) true rounds named (some (program sts)) true true w)
        writes
    ∙ ap (behind (finish H (available fresh) true true)) done

-- What `vasm --asm <path> --img <image>` writes of a program of accepted instructions.
abbrev pub Writes :
    (H : HashTable)
    → (ℕ → ℕ → ℕ)
    → (String → Option (List Exp))
    → (String → Bool)
    → ℕ
    → ℕ
    → String
    → String
    → List Statement
    → EmitContext
    → Type 0
Writes H fresh read writable rounds argc path img sts b =
    (vasm H (available fresh) true read writable true true rounds argc
        (asm_file path ∷ img_file img ∷ [])
      ≡ some (emitted (write_file b)))
    × IsAligned b
    × (b.pos ≡ 4 * length sts)
    × HoldsProgram 0 sts b

pub vasm-Writes :
    (H : HashTable) (fresh : ℕ → ℕ → ℕ) (read : String → Option (List Exp))
    (writable : String → Bool) (rounds argc : ℕ) (path img : String) (sts : List Statement)
    → read path ≡ some (program sts)
    → writable img ≡ true
    → 3 ≤ argc
    → AreAccepted sts
    → 512 * length sts + 512 < 2 ^ 32
    → (b : EmitContext) × Writes H fresh read writable rounds argc path img sts b
vasm-Writes H fresh read writable rounds argc path img sts reads writes enough h l =
    let (b, done, a, at, holds, kept) =
      program_lem H fresh true rounds sts (started H) (started-IsAligned H) (omega arith) h in
    (
      b,
      (
        vasm_lem H fresh read writable rounds argc path img sts b reads writes enough done,
        a,
        omega (arith, at),
        holds,
      ),
    )
