-- ===== src/Emit/Buffer.antt =====
-- The growth of the buffer, by whole dwords and otherwise.
use emylathor.Base.{
  sym, ℕ, ◌+◌, ◌&&◌, ◌*◌, ◌/◌, ◌%◌, ◌^◌, ◌<◌, ◌≤◌, ◌≡◌, ap, ◌∙◌, false, Option, some, ltb, leb,
  if◌then◌else◌, arith, u8,
}
use emylathor.Machine.{store}
use emylathor.Emit.{
  EmitContext, Emitted, emitted, exited, overran, ◌>=>◌, set_highest_position, put, clear_block,
  grow, handle_exceeding_buffer, emit_bytes,
}

-- A dynamic buffer into which whole dwords were emitted.
pub record IsAligned (ctx : EmitContext) : Type 0 where
  pub dynamic : ctx.buf_len_fixed ≡ false
  pub whole : ctx.allocated ≡ ctx.size
  pub at_end : ctx.highest_pos ≡ ctx.pos
  pub dwords : ctx.pos % 4 ≡ 0
  pub blocks : ctx.size % 512 ≡ 0
  pub within : ctx.pos ≤ ctx.size

pub put_lem :
    (b : ℕ) (ctx : EmitContext)
    → ctx.pos < ctx.allocated
    → ctx.pos + 1 < 2 ^ 32
    → put b ctx ≡ emitted (record ctx { buf = store ctx.buf ctx.pos (u8 b); pos = ctx.pos + 1 })
unfolding put
put_lem b ctx h k = ground (arith)

-- The buffer after a growth at its end, with the bytes that `realloc` adds.
abbrev pub grown : (ℕ → ℕ) → EmitContext → EmitContext
grown fresh ctx = record ctx {
  buf = λ i.
      if leb ctx.pos i && ltb i (ctx.pos + 512)
      then 0
      else if ltb i ctx.allocated
      then ctx.buf i
      else fresh i;
  allocated = (ctx.highest_pos / 512 + 1) * 512;
  size = ctx.size + 512;
}

-- A `realloc` that finds memory.
abbrev pub available : (ℕ → ℕ → ℕ) → ℕ → Option (ℕ → ℕ)
available fresh n = some (fresh n)

-- `put` four times.
abbrev pub with_dword : ℕ → ℕ → ℕ → ℕ → EmitContext → EmitContext
with_dword b1 b2 b3 b4 ctx =
    let p = ctx.pos in
    record ctx {
      buf =
          store (store (store (store ctx.buf p (u8 b1)) (p + 1) (u8 b2)) (p + 1 + 1) (u8 b3))
            (p + 1 + 1 + 1) (u8 b4);
      pos = p + 1 + 1 + 1 + 1;
    }

pub put_dword :
    (b1 b2 b3 b4 : ℕ) (ctx : EmitContext)
    → ctx.pos + 4 ≤ ctx.allocated
    → ctx.pos + 4 < 2 ^ 32
    → (put b1 ctx >=> put b2 >=> put b3 >=> put b4) ≡ emitted (with_dword b1 b2 b3 b4 ctx)
put_dword b1 b2 b3 b4 ctx h k =
    let c1 = record ctx { buf = store ctx.buf ctx.pos (u8 b1); pos = ctx.pos + 1 } in
    let c2 = record c1 { buf = store c1.buf c1.pos (u8 b2); pos = c1.pos + 1 } in
    let c3 = record c2 { buf = store c2.buf c2.pos (u8 b3); pos = c2.pos + 1 } in
    ap (λ r. r >=> put b2 >=> put b3 >=> put b4) (put_lem b1 ctx (omega arith) (omega arith))
    ∙ ap (λ r. r >=> put b3 >=> put b4) (put_lem b2 c1 (omega arith) (omega arith))
    ∙ ap (λ r. r >=> put b4) (put_lem b3 c2 (omega arith) (omega arith))
    ∙ put_lem b4 c3 (omega arith) (omega arith)

module _ (fresh : ℕ → ℕ → ℕ) where
  pub grow_lem :
      (ctx : EmitContext)
      → ctx.highest_pos ≡ ctx.pos
      → ctx.pos % 512 ≡ 0
      → ctx.size + 512 < 2 ^ 32
      → grow (available fresh) ctx ≡ emitted (grown (fresh ((ctx.highest_pos / 512 + 1) * 512)) ctx)
  unfolding grow clear_block
  grow_lem ctx h k l = ground arith

  handle_lem :
      (ctx : EmitContext)
      → IsAligned ctx
      → ctx.size + 512 < 2 ^ 32
      → handle_exceeding_buffer (available fresh) 4 ctx
        ≡ emitted (
            if ltb ctx.pos ctx.size
            then ctx
            else grown (fresh ((ctx.highest_pos / 512 + 1) * 512)) ctx)
  unfolding handle_exceeding_buffer
  handle_lem ctx a l =
      ground (arith, grow_lem ctx, a.dynamic, a.whole, a.at_end, a.dwords, a.blocks, a.within)

  -- The context with room for a dword.
  abbrev pub room : EmitContext → EmitContext
  room ctx =
      if ltb ctx.pos ctx.size then ctx else grown (fresh ((ctx.highest_pos / 512 + 1) * 512)) ctx

  emit_bytes-room :
      (b1 b2 b3 b4 : ℕ) (ctx : EmitContext)
      → IsAligned ctx
      → ctx.size + 512 < 2 ^ 32
      → emit_bytes (available fresh) b1 b2 b3 b4 ctx
        ≡ emitted (record (with_dword b1 b2 b3 b4 (room ctx)) { highest_pos = ctx.pos + 4 })
  unfolding emit_bytes set_highest_position
  emit_bytes-room b1 b2 b3 b4 ctx a l =
      let whole = a.whole in
      let at_end = a.at_end in
      let dwords = a.dwords in
      let blocks = a.blocks in
      let within = a.within in
      ap (λ r. r >=> put b1 >=> put b2 >=> put b3 >=> put b4 >=> set_highest_position)
        (handle_lem ctx a l)
      ∙ ap (λ r. r >=> set_highest_position)
          (put_dword b1 b2 b3 b4 (room ctx) (ground arith) (ground arith))
      ∙ ground arith

  -- Into an aligned dynamic buffer, whose next block does not pass 2 ^ 32 bytes and for which memory is
  -- available, four bytes are emitted without an overrun: they stand at the old position, what was
  -- emitted before stays, the position advances by four, and the buffer is aligned again and has grown
  -- by a block at most.
  pub emit_bytes_lem :
      (b1 b2 b3 b4 : ℕ) (ctx : EmitContext)
      → IsAligned ctx
      → ctx.size + 512 < 2 ^ 32
      → (ctx₁ : EmitContext) × (emit_bytes (available fresh) b1 b2 b3 b4 ctx ≡ emitted ctx₁)
        × IsAligned ctx₁
        × (ctx₁.pos ≡ ctx.pos + 4)
        × (ctx₁.buf ctx.pos ≡ u8 b1)
        × (ctx₁.buf (ctx.pos + 1) ≡ u8 b2)
        × (ctx₁.buf (ctx.pos + 2) ≡ u8 b3)
        × (ctx₁.buf (ctx.pos + 3) ≡ u8 b4)
        × ((i : ℕ) → i < ctx.pos → ctx₁.buf i ≡ ctx.buf i)
        × (ctx₁.size ≤ ctx.size + 512)
  emit_bytes_lem b1 b2 b3 b4 ctx a l =
      let dynamic = a.dynamic in
      let whole = a.whole in
      let at_end = a.at_end in
      let dwords = a.dwords in
      let blocks = a.blocks in
      let within = a.within in
      let aligned : IsAligned
          (record (with_dword b1 b2 b3 b4 (room ctx)) { highest_pos = ctx.pos + 4 }) =
        record {
          dynamic = ground arith;
          whole = ground arith;
          at_end = ground arith;
          dwords = ground arith;
          blocks = ground arith;
          within = ground arith;
        } in
      (
        record (with_dword b1 b2 b3 b4 (room ctx)) { highest_pos = ctx.pos + 4 },
        emit_bytes-room b1 b2 b3 b4 ctx a l,
        aligned,
        ground arith,
        ground arith,
        ground arith,
        ground arith,
        ground arith,
        (λ i h. ground arith),
        ground arith,
      )

  -- When the position of a dynamic buffer is within the last three bytes of its last block, four more
  -- bytes overrun the memory, even though more of it was available: the growth clears a whole block
  -- from the position on, and the block that it adds ends before that.
  pub emit_bytes-overran :
      (b1 b2 b3 b4 : ℕ) (ctx : EmitContext)
      → ctx.buf_len_fixed ≡ false
      → ctx.highest_pos ≡ ctx.pos
      → ctx.size % 512 ≡ 0
      → ctx.pos < ctx.size
      → ctx.size < ctx.pos + 4
      → ctx.size + 512 < 2 ^ 32
      → emit_bytes (available fresh) b1 b2 b3 b4 ctx ≡ overran
  unfolding emit_bytes handle_exceeding_buffer grow clear_block
  emit_bytes-overran b1 b2 b3 b4 ctx dynamic at_end blocks h k l = ground arith

-- What a call gives, with a value for a call that gives nothing.
value_or {ℓ} : {A : Type ℓ} → A → Emitted A → A
value_or a (emitted x) = x
value_or a (exited n) = a
value_or a overran = a

-- A call has one value.
pub same_value {ℓ} : {A : Type ℓ} (r : Emitted A) (x y : A) → r ≡ emitted x → r ≡ emitted y → x ≡ y
unfolding value_or
same_value r x y p q = ap (value_or x) (sym p ∙ q)
