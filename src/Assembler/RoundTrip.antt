-- ===== src/Assembler/RoundTrip.antt =====
-- The assembler and the disassembler as programs, one after the other.
use Prim.Native.String.{String}
use mathlib.Core.List.{map}
use emylathor.Base.{
  ℕ, ◌+◌, ◌*◌, ◌^◌, ◌<◌, ◌≤◌, ◌≡◌, refl, ap, ◌∙◌, Bool, true, Option, some, List, [], ◌∷◌, arith,
  inl,
}
use emylathor.Disassembler.Arguments.{Disassembly}
use emylathor.Disassembler.Arguments.Laws.{shown, shown_lem}
use emylathor.Disassembler.Program.{disasm_at, vdis_main, printed}
use emylathor.Disassembler.Program.Laws.{lines_from, vdis_main_lem}
use emylathor.Emit.{EmitContext, emitted}
use emylathor.Emit.Buffer.{IsAligned, available}
use emylathor.Emit.Labels.{HashTable}
use emylathor.Emit.Bytes.{write_file}
use emylathor.Emit.Bytes.Append.{length}
use emylathor.Assembler.{Statement}
use emylathor.Assembler.Meaning.{accepted, IsLexed}
use emylathor.Assembler.Listed.{written, IsTyped, IsRegular}
use emylathor.Assembler.Image.{
  element, contents, length-first_of, element-first_of, lines_from-kept,
}
use emylathor.Assembler.Regular.{shown-meaning}
use emylathor.Assembler.Program.{Exp, asm_file, img_file, vasm}
use emylathor.Assembler.Sequence.{program, AreAccepted, HoldsProgram, vasm-Writes}

-- A statement that the lexer and the parser can have read, that is accepted and that is not encoded as
-- another one.
abbrev pub IsFaithful : Statement → Type 0
IsFaithful st = IsLexed st × IsTyped st × IsRegular st × (accepted st ≡ true)

abbrev pub AreFaithful : List Statement → Type 0
AreFaithful [] = Unit
AreFaithful (st ∷ rest) = IsFaithful st × AreFaithful rest

abbrev pub listing : List Statement → List Disassembly
listing sts = map written sts

accepted_all : (sts : List Statement) → AreFaithful sts → AreAccepted sts
accepted_all [] h = tt
accepted_all (st ∷ sts) ((l, t, q, k), hs) = ((l, k), accepted_all sts hs)

-- The instructions of the statements are listed as the statements.
lines_lem :
    (sts : List Statement) (p : ℕ) (b : EmitContext)
    → AreFaithful sts
    → HoldsProgram p sts b
    → lines_from b.buf p (length sts) ≡ listing sts
unfolding HoldsProgram lines_from length disasm_at
lines_lem [] p b h held = refl
lines_lem (st ∷ sts) p b ((l, t, q, k), hs) (decoded, (b0, b1, b2, b3), held) = cc (
  shown_lem _ _ _ _ b0 b1 b2 b3 ∙ ap shown decoded ∙ shown-meaning st t q k,
  lines_lem sts (p + 4) b hs held,
)

lines-printed :
    (b : EmitContext) (k : ℕ) (ds : List Disassembly)
    (load_contents : String → Option ((ℕ → ℕ) × ℕ)) (fopen : String → Bool) (img_name : String)
    (rounds : ℕ)
    → load_contents img_name ≡ some (contents (write_file b))
    → IsAligned b
    → b.pos ≡ 4 * k
    → b.pos + 4 < 2 ^ 32
    → k < rounds
    → lines_from b.buf 0 k ≡ ds
    → vdis_main load_contents fopen rounds ("--img" ∷ img_name ∷ []) ≡ printed ds
unfolding write_file
lines-printed b k ds load_contents fopen img_name rounds loaded a at small enough lines =
    let long : length (write_file b) ≡ 4 * k =
      length-first_of b.highest_pos b.buf ∙ omega (arith, a.at_end, at) in
    let (whole, torn) =
      vdis_main_lem load_contents fopen img_name (element (write_file b)) (length (write_file b))
        rounds loaded (omega (arith, long)) (omega (arith, long)) in
    whole (inl (omega (arith, long)))
    ∙ ap (λ n. printed (lines_from (element (write_file b)) 0 n)) (omega (arith, long))
    ∙ ap printed (
        lines_from-kept (element (write_file b)) b.buf 0 k
          (λ i h. element-first_of b.highest_pos b.buf i (omega (arith, a.at_end, at)))
        ∙ lines)

-- The disassembler undoes the assembler. On a list of instructions of the grammar, with texts of the
-- token classes, numbers of 16 bits, data that fits and none of the irregular forms, `vasm --asm <path>
-- --img <image>` with its dynamic buffer, files that can be opened and memory available, below four
-- gigabytes, ends and writes a file; and `vdis --img <image>` on this file ends within one round more
-- than there are instructions and has printed one line for each of them, with its operation, its
-- condition and its operands as they were written (for PUSH and POP the STOREMA and LOADMA that they
-- stand for).
pub vdis_main-vasm :
    (H : HashTable) (fresh : ℕ → ℕ → ℕ) (sts : List Statement) (read : String → Option (List Exp))
    (writable : String → Bool) (argc : ℕ) (load_contents : List ℕ → String → Option ((ℕ → ℕ) × ℕ))
    (fopen : String → Bool) (path img_name : String) (rounds : ℕ)
    → read path ≡ some (program sts)
    → writable img_name ≡ true
    → 3 ≤ argc
    → ((file : List ℕ) → load_contents file img_name ≡ some (contents file))
    → AreFaithful sts
    → 512 * length sts + 1024 < 2 ^ 32
    → length sts < rounds
    → (file : List ℕ) × (vasm H
          (available fresh)
          true
          read
          writable
          true
          true
          rounds
          argc
          (asm_file path ∷ img_file img_name ∷ [])
        ≡ some (emitted file))
      × (vdis_main (load_contents file) fopen rounds ("--img" ∷ img_name ∷ [])
          ≡ printed (listing sts))
vdis_main-vasm H fresh sts read writable argc load_contents fopen path img_name rounds found writes
      given reads h l enough =
    let (b, (done, a, at, held)) =
      vasm-Writes H fresh read writable rounds argc path img_name sts found writes given
        (accepted_all sts h) (omega arith) in
    (
      write_file b,
      done,
      lines-printed b (length sts) (listing sts) (load_contents (write_file b)) fopen img_name
          rounds (reads (write_file b)) a at (omega (arith, at)) enough (lines_lem sts 0 b h held),
    )
