-- ===== src/Disassembler/Program.antt =====
-- The disassembler program, `src/disassembler/vdis.c`: `main`, and its loop over the image.
--
-- The files are parameters: what glib reads, with the byte 0 that it puts behind the contents, and
-- whether `fopen` opens the output. The text of an instruction is a Disassembly.
pub mod Laws
use Prim.Native.String.{String}
use text.Mathlib.Text as Text
use emylathor.Base.{
  ℕ, zero, suc, ◌+◌, Bool, true, false, Option, none, some, List, [], ◌∷◌, ltb, leb, if◌then◌else◌,
  u32,
}
use emylathor.Disassembler.Arguments.{Disassembly, vasmdis_disasm_instruction}

-- The program prints lines and ends, exits with a status, reads outside the image, or is still running.
pub data Listing : Type 0 where
  printed : List Disassembly → Listing
  exit_with : ℕ → Listing
  read_outside : Listing
  unfinished : Listing

-- `fprintf(file, "%s\n", …)` before the rest of the output.
pub print_line : Disassembly → Listing → Listing
print_line d (printed lines) = printed (d ∷ lines)
print_line d (exit_with status) = exit_with status
print_line d read_outside = read_outside
print_line d unfinished = unfinished

-- The bytes at a position.
unfoldable pub disasm_at : (ℕ → ℕ) → ℕ → Disassembly
unfolding vasmdis_disasm_instruction
disasm_at filedata pos =
    vasmdis_disasm_instruction (filedata pos) (filedata (pos + 1)) (filedata (pos + 2))
      (filedata (pos + 3))

-- `while(pos < size)`, for at most the given number of rounds. `pos` is a `uint32_t`.
pub print_image : ℕ → (ℕ → ℕ) → ℕ → ℕ → Listing
unfolding print_line disasm_at
print_image zero filedata size pos = unfinished
print_image (suc rounds) filedata size pos =
    let rest = print_image rounds filedata size (u32 (pos + 4)) in
    if ltb pos size
    then (if leb (pos + 3) size then print_line (disasm_at filedata pos) rest else read_outside)
    else printed []

-- The output that the arguments after `--img <input file>` ask for.
pub output_name : List String → String
output_name [] = "stdout"
output_name (option ∷ []) = "stdout"
output_name (option ∷ name ∷ rest) = if Text.◌==◌ option "--outfile" then name else "stdout"

module _ (load_contents : String → Option ((ℕ → ℕ) × ℕ)) (fopen : String → Bool) where
  -- `vdis_load_img`, and `main` from there.
  pub disassemble : ℕ → String → String → Listing
  unfolding print_image
  disassemble rounds img_name out = elim (load_contents img_name) [
    | none ↦ exit_with 11
    | some (filedata, size) ↦
        if Text.◌==◌ out "stdout"
        then print_image rounds filedata size 0
        else if fopen out
        then print_image rounds filedata size 0
        else exit_with 255
  ]

  -- The list is `argv` without the name of the program.
  pub vdis_main : ℕ → List String → Listing
  unfolding disassemble output_name
  vdis_main rounds [] = exit_with 1
  vdis_main rounds (option ∷ []) = exit_with 1
  vdis_main rounds (option ∷ img_name ∷ rest) =
      if Text.◌==◌ option "--img"
      then disassemble rounds img_name (output_name rest)
      else exit_with 1
