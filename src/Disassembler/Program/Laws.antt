-- ===== src/Disassembler/Program/Laws.antt =====
-- What `src/disassembler/vdis.c` prints of an image.
use Prim.Native.String.{String}
use emylathor.Base.{
  ℕ, zero, suc, ◌+◌, ◌*◌, ◌/◌, ◌%◌, ◌^◌, ◌<◌, ◌≤◌, ◌≡◌, refl, ap, Bool, true, Option, none, some,
  ◌∙◌, List, [], ◌∷◌, ◌⊎◌, arith, u32, ltb, leb, if◌then◌else◌,
}
use emylathor.Disassembler.Arguments.{Disassembly}
use emylathor.Disassembler.Program.{
  Listing, printed, exit_with, read_outside, print_line, disasm_at, print_image, disassemble,
  output_name, vdis_main,
}

-- The instructions from a position on.
unfoldable pub lines_from : (ℕ → ℕ) → ℕ → ℕ → List Disassembly
lines_from filedata pos zero = []
lines_from filedata pos (suc k) = disasm_at filedata pos ∷ lines_from filedata (pos + 4) k

module _ (filedata : ℕ → ℕ) (size : ℕ) (small : size + 4 < 2 ^ 32) where
  one_line :
      (rounds pos : ℕ)
      → pos + 3 ≤ size
      → print_image (suc rounds) filedata size pos
        ≡ print_line (disasm_at filedata pos) (print_image rounds filedata size (pos + 4))
  unfolding print_image
  one_line rounds pos h =
      let next : u32 (pos + 4) ≡ pos + 4 = omega arith in
      let more : ltb pos size ≡ true = ground arith in
      let fits : leb (pos + 3) size ≡ true = ground arith in
      let rest : ℕ → Listing =
        λ p. print_line (disasm_at filedata pos) (print_image rounds filedata size p) in
      ap
        (λ t.
          if t
          then (if leb (pos + 3) size then rest (u32 (pos + 4)) else read_outside)
          else printed [])
        more
      ∙ ap (λ t. if t then rest (u32 (pos + 4)) else read_outside) fits
      ∙ ap rest next

  whole_lines :
      (k rounds pos : ℕ)
      → k < rounds
      → (pos + 4 * k ≡ size) ⊎ (pos + 4 * k ≡ size + 1)
      → print_image rounds filedata size pos ≡ printed (lines_from filedata pos k)
  unfolding lines_from print_image print_line
  whole_lines k zero pos h w = absurd (omega arith)
  whole_lines zero (suc rounds) pos h w = ground arith
  whole_lines (suc k) (suc rounds) pos h w =
      one_line rounds pos (omega arith)
      ∙ ap (print_line (disasm_at filedata pos))
          (whole_lines k rounds (pos + 4) (omega arith) (ground arith))
      ∙ refl

  torn_line :
      (k rounds pos : ℕ)
      → k < rounds
      → (pos + 4 * k + 1 ≡ size) ⊎ (pos + 4 * k + 2 ≡ size)
      → print_image rounds filedata size pos ≡ read_outside
  unfolding print_image print_line
  torn_line k zero pos h w = absurd (omega arith)
  torn_line zero (suc rounds) pos h w = ground arith
  torn_line (suc k) (suc rounds) pos h w =
      one_line rounds pos (omega arith)
      ∙ ap (print_line (disasm_at filedata pos))
          (torn_line k rounds (pos + 4) (omega arith) (ground arith))

-- `vdis --img <file>` on a file that can be read, of less than four gigabytes: within one round for
-- each four bytes and one more it ends, and has printed one line for each four bytes, if the length of
-- the file is a multiple of four or one less, when the byte 0 behind the contents is the last one of
-- the last line. Otherwise it reads outside the contents.
pub vdis_main_lem :
    (load_contents : String → Option ((ℕ → ℕ) × ℕ)) (fopen : String → Bool) (img_name : String)
    (filedata : ℕ → ℕ) (size rounds : ℕ)
    → load_contents img_name ≡ some (filedata, size)
    → size + 4 < 2 ^ 32
    → (size + 1) / 4 < rounds
    → ((size % 4 ≡ 0) ⊎ (size % 4 ≡ 3)
        → vdis_main load_contents fopen rounds ("--img" ∷ img_name ∷ [])
          ≡ printed (lines_from filedata 0 ((size + 1) / 4)))
      × ((size % 4 ≡ 1) ⊎ (size % 4 ≡ 2)
          → vdis_main load_contents fopen rounds ("--img" ∷ img_name ∷ []) ≡ read_outside)
unfolding vdis_main output_name disassemble
vdis_main_lem load_contents fopen img_name filedata size rounds loaded small enough =
    let run : Option ((ℕ → ℕ) × ℕ) → Listing = λ o. elim o [
      | none ↦ exit_with 11
      | some (contents, length) ↦ print_image rounds contents length 0
    ] in
    (
      λ h.
          ap run loaded
          ∙ whole_lines filedata size small ((size + 1) / 4) rounds 0 enough (ground arith),
      λ h.
          ap run loaded
          ∙ torn_line filedata size small (size / 4) rounds 0 (omega arith) (ground arith),
    )
