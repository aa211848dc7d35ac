-- ===== src/Emit/Rewrite.antt =====
-- Instructions that are emitted over bytes which the buffer already has.
use emylathor.Base.{
  ℕ, ◌+◌, ◌*◌, ◌/◌, ◌%◌, ◌^◌, ◌<◌, ◌≤◌, ◌≡◌, refl, ap, ◌∙◌, Option, arith, bit_and, bit_or, ltb,
  if◌then◌else◌, u8, ◌⊎◌,
}
use emylathor.Base.Bits.Shift.{bit_and-mask, bit_or-add}
use emylathor.Decode.{decode_bytes}
use emylathor.Decode.Laws.{decode_bytes-eq}
use emylathor.Emit.{
  EmitContext, emitted, ◌>=>◌, set_highest_position, put, handle_exceeding_buffer, emit_bytes,
  emit_fmt_iv,
}
use emylathor.Emit.Buffer.{with_dword, put_dword}
use emylathor.Emit.Encode.{instruction_at}

-- A place in the buffer that no growth is needed for.
pub record HasRoom (n : ℕ) (ctx : EmitContext) : Type 0 where
  pub inside : ctx.pos + n ≤ ctx.size
  pub owned : ctx.size ≤ ctx.allocated
  pub small : ctx.size < 2 ^ 32

-- The context after four bytes.
abbrev rewritten : ℕ → ℕ → ℕ → ℕ → EmitContext → EmitContext
rewritten b1 b2 b3 b4 ctx = record (with_dword b1 b2 b3 b4 ctx) {
  highest_pos = if ltb ctx.highest_pos (ctx.pos + 4) then ctx.pos + 4 else ctx.highest_pos;
}

module _ (realloc : ℕ → Option (ℕ → ℕ)) where
  emit_bytes-rewritten :
      (b1 b2 b3 b4 : ℕ) (ctx : EmitContext)
      → HasRoom 4 ctx
      → emit_bytes realloc b1 b2 b3 b4 ctx ≡ emitted (rewritten b1 b2 b3 b4 ctx)
  unfolding emit_bytes set_highest_position handle_exceeding_buffer
  emit_bytes-rewritten b1 b2 b3 b4 ctx room =
      let inside = room.inside in
      let owned = room.owned in
      let small = room.small in
      let stays : handle_exceeding_buffer realloc 4 ctx ≡ emitted ctx = ground arith in
      ap (λ r. r >=> put b1 >=> put b2 >=> put b3 >=> put b4 >=> set_highest_position) stays
      ∙ ap (λ r. r >=> set_highest_position) (put_dword b1 b2 b3 b4 ctx (omega arith) (omega arith))
      ∙ ground arith

  -- An instruction of format IV over four bytes of the buffer: it is decoded from there, no other byte
  -- changes, and neither does the memory that the buffer has.
  pub emit_fmt_iv-rewritten :
      (prefix condition opcode dst imm16 : ℕ) (ctx : EmitContext)
      → HasRoom 4 ctx
      → prefix < 2 ^ 2
      → condition < 2 ^ 4
      → opcode < 2 ^ 6
      → dst < 2 ^ 4
      → imm16 < 2 ^ 16
      → (ctx₁ : EmitContext) × (emit_fmt_iv realloc prefix condition opcode dst imm16 ctx
          ≡ emitted ctx₁)
        × (ctx₁.pos ≡ ctx.pos + 4)
        × (ctx₁.size ≡ ctx.size)
        × (ctx₁.allocated ≡ ctx.allocated)
        × (instruction_at ctx.pos ctx₁ ≡ record {
          opcode = opcode;
          dst = dst;
          opa = imm16 % 2 ^ 8 / 2 ^ 4;
          opb = imm16 % 2 ^ 4;
          imm12 = imm16 % 2 ^ 4 * 2 ^ 8 + imm16 / 2 ^ 8;
          imm16 = imm16;
          prefix = prefix;
          condition = condition;
        })
        × ((i : ℕ) → (i < ctx.pos) ⊎ (ctx.pos + 4 ≤ i) → ctx₁.buf i ≡ ctx.buf i)
  unfolding emit_fmt_iv
  emit_fmt_iv-rewritten prefix condition opcode dst imm16 ctx room hp hc ho hd hi =
      let b1 = bit_or (prefix * 2 ^ 6) opcode in
      let b2 = bit_or (condition * 2 ^ 4) dst in
      let b3 = bit_and imm16 0xff in
      let b4 = imm16 / 2 ^ 8 in
      let ctx₁ = rewritten b1 b2 b3 b4 ctx in
      let bytes : instruction_at ctx.pos ctx₁ ≡ decode_bytes (u8 b1) (u8 b2) (u8 b3) (u8 b4) =
        ground arith in
      (
        ctx₁,
        emit_bytes-rewritten b1 b2 b3 b4 ctx room,
        omega arith,
        refl,
        refl,
        bytes
            ∙ decode_bytes-eq _ _ _ _ (omega arith) (omega arith)
            ∙ grind (
              arith,
              bit_or-add 6 prefix opcode ho,
              bit_or-add 4 condition dst hd,
              bit_and-mask 8 imm16,
            ),
        λ i h. ground arith,
      )
