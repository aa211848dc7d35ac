-- ===== src/Emit/Bytes.antt =====
-- The actions of `src/assembler/vasm.y` for single bytes: `.byte`, `.word`, `.dword`, `.bytes` and
-- `.align`, and the file that `write_file` writes.
pub mod Laws
pub mod Append
pub mod Image
pub mod Align
use emylathor.Base.{
  ℕ, zero, suc, ◌%◌, Option, none, some, List, [], ◌∷◌, ◌++◌, ◌==◌, ltb, if◌then◌else◌, u8,
}
use emylathor.Memory.{
  hhbyte_from_dword, hlbyte_from_dword, lhbyte_from_dword, llbyte_from_dword, hbyte_from_word,
  lbyte_from_word,
}
use emylathor.Emit.{EmitContext, Emitted, emitted, exited, overran, ◌>=>◌, emit_byte}

-- The first elements of an array.
unfoldable pub first_of : ℕ → (ℕ → ℕ) → List ℕ
first_of zero a = []
first_of (suc n) a = first_of n a ++ a n ∷ []

-- `fwrite(ectx->buf, ectx->highest_pos, sizeof(byte), fp)`
unfoldable pub write_file : EmitContext → List ℕ
unfolding first_of
write_file ctx = first_of ctx.highest_pos ctx.buf

module _ (realloc : ℕ → Option (ℕ → ℕ)) where
  -- `.byte`, and a byte of `.bytes`
  unfoldable pub directive_byte : ℕ → EmitContext → Emitted EmitContext
  unfolding emit_byte
  directive_byte n ctx = if ltb 0xff n then exited 255 else emit_byte realloc (u8 n) ctx

  unfoldable pub directive_bytes : List ℕ → EmitContext → Emitted EmitContext
  unfolding directive_byte
  directive_bytes [] ctx = emitted ctx
  directive_bytes (n ∷ rest) ctx = directive_byte n ctx >=> directive_bytes rest

  unfoldable pub directive_word : ℕ → EmitContext → Emitted EmitContext
  unfolding emit_byte
  directive_word n ctx =
      emit_byte realloc (lbyte_from_word n) ctx >=> emit_byte realloc (hbyte_from_word n)

  unfoldable pub directive_dword : ℕ → EmitContext → Emitted EmitContext
  unfolding emit_byte
  directive_dword n ctx =
      emit_byte realloc (llbyte_from_dword n) ctx
      >=> emit_byte realloc (lhbyte_from_dword n)
      >=> emit_byte realloc (hlbyte_from_dword n)
      >=> emit_byte realloc (hhbyte_from_dword n)

  -- `while(emctx->pos % n) emit_byte(filler, emctx)`, for at most the given number of rounds; `none`
  -- is a loop that is still running. The word `filler` is converted to a byte, and a remainder by 0 is
  -- undefined.
  unfoldable pub align_loop : ℕ → ℕ → ℕ → EmitContext → Option (Emitted EmitContext)
  unfolding emit_byte
  align_loop zero n filler ctx = none
  align_loop (suc rounds) n filler ctx =
      if n == 0
      then some overran
      else if ctx.pos % n == 0
      then some (emitted ctx)
      else elim (emit_byte realloc (u8 filler) ctx) [
        | emitted ctx₁ ↦ align_loop rounds n filler ctx₁
        | exited status ↦ some (exited status)
        | overran ↦ some overran
      ]
