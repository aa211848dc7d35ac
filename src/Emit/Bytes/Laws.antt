-- ===== src/Emit/Bytes/Laws.antt =====
-- Single bytes as a list that grows at its end.
use emylathor.Base.{
  ℕ, zero, suc, ◌+◌, ◌*◌, ◌/◌, ◌%◌, ◌^◌, ◌<◌, ◌≤◌, ◌≡◌, refl, sym, ap, ◌∙◌, false, [], ◌∷◌, ◌++◌,
  arith, ltb, if◌then◌else◌, u8,
}
use emylathor.Machine.{store}
use emylathor.Emit.{
  EmitContext, emitted, ◌>=>◌, set_highest_position, put, handle_exceeding_buffer, emit_byte,
}
use emylathor.Emit.Buffer.{available, grown, grow_lem, put_lem}
use emylathor.Emit.Bytes.{first_of, write_file}

-- A dynamic buffer that grew only when it was full.
pub record IsBlocked (ctx : EmitContext) : Type 0 where
  pub dynamic : ctx.buf_len_fixed ≡ false
  pub whole : ctx.allocated ≡ ctx.size
  pub at_end : ctx.highest_pos ≡ ctx.pos
  pub blocks : ctx.size % 512 ≡ 0
  pub within : ctx.pos ≤ ctx.size
  pub tight : ctx.size ≤ ctx.pos + 512

first_of-same : (n : ℕ) (a b : ℕ → ℕ) → ((i : ℕ) → i < n → b i ≡ a i) → first_of n b ≡ first_of n a
unfolding first_of
first_of-same zero a b h = refl
first_of-same (suc n) a b h =
    let rest = first_of-same n a b λ i k. h i (omega arith) in let last = h n (omega arith) in cc

first_of-append :
    (n : ℕ) (a b : ℕ → ℕ) (x : ℕ)
    → ((i : ℕ) → i < n → b i ≡ a i)
    → b n ≡ x
    → first_of (n + 1) b ≡ first_of n a ++ x ∷ []
unfolding first_of
first_of-append n a b x h last =
    let next : n + 1 ≡ suc n = omega arith in
    let rest = first_of-same n a b h in ap (λ k. first_of k b) next ∙ cc

module _ (fresh : ℕ → ℕ → ℕ) where
  -- The context with room for a byte.
  abbrev roomy : EmitContext → EmitContext
  roomy ctx =
      if ltb ctx.pos ctx.size then ctx else grown (fresh ((ctx.highest_pos / 512 + 1) * 512)) ctx

  -- The context after a byte.
  abbrev with_byte : ℕ → EmitContext → EmitContext
  with_byte x ctx = record (roomy ctx) {
    buf = store (roomy ctx).buf ctx.pos (u8 x);
    pos = ctx.pos + 1;
    highest_pos = ctx.pos + 1;
  }

  room_lem :
      (ctx : EmitContext)
      → IsBlocked ctx
      → ctx.size + 512 < 2 ^ 32
      → handle_exceeding_buffer (available fresh) 1 ctx ≡ emitted (roomy ctx)
  unfolding handle_exceeding_buffer
  room_lem ctx a l =
      ground (arith, grow_lem fresh ctx, a.dynamic, a.whole, a.at_end, a.blocks, a.within)

  emit_byte-with_byte :
      (x : ℕ) (ctx : EmitContext)
      → IsBlocked ctx
      → ctx.size + 512 < 2 ^ 32
      → emit_byte (available fresh) x ctx ≡ emitted (with_byte x ctx)
  unfolding emit_byte set_highest_position
  emit_byte-with_byte x ctx a l =
      let whole = a.whole in
      let at_end = a.at_end in
      let blocks = a.blocks in
      let within = a.within in
      ap (λ r. r >=> put x >=> set_highest_position) (room_lem ctx a l)
      ∙ ap (λ r. r >=> set_highest_position) (put_lem x (roomy ctx) (ground arith) (ground arith))
      ∙ ground arith

  with_byte-IsBlocked :
      (x : ℕ) (ctx : EmitContext)
      → IsBlocked ctx
      → IsBlocked (with_byte x ctx)
        × ((with_byte x ctx).buf ctx.pos ≡ u8 x)
        × ((i : ℕ) → i < ctx.pos → (with_byte x ctx).buf i ≡ ctx.buf i)
  with_byte-IsBlocked x ctx a =
      let dynamic = a.dynamic in
      let whole = a.whole in
      let at_end = a.at_end in
      let blocks = a.blocks in
      let within = a.within in
      let tight = a.tight in
      (
        record {
          dynamic = ground arith;
          whole = ground arith;
          at_end = ground arith;
          blocks = ground arith;
          within = ground arith;
          tight = ground arith;
        },
        ground arith,
        λ i h. ground arith,
      )

  -- A byte is appended to what `write_file` writes.
  pub emit_byte_lem :
      (x : ℕ) (ctx : EmitContext)
      → IsBlocked ctx
      → ctx.size + 512 < 2 ^ 32
      → (ctx₁ : EmitContext) × (emit_byte (available fresh) x ctx ≡ emitted ctx₁)
        × IsBlocked ctx₁
        × (ctx₁.pos ≡ ctx.pos + 1)
        × (write_file ctx₁ ≡ write_file ctx ++ u8 x ∷ [])
  unfolding write_file
  emit_byte_lem x ctx a l =
      let (blocked, last, kept) = with_byte-IsBlocked x ctx a in
      let b = (with_byte x ctx).buf in
      let end = a.at_end in
      (
        with_byte x ctx,
        emit_byte-with_byte x ctx a l,
        blocked,
        refl,
        first_of-append ctx.pos ctx.buf b (u8 x) kept last
            ∙ ap (λ n. first_of n ctx.buf ++ u8 x ∷ []) (sym end),
      )
