-- ===== src/Emit/Labels/Reserve.antt =====
-- Labels and references while the assembler reads its input.
use Prim.Native.String.{String}
use text.Mathlib.Text as Text
use emylathor.Base.{
  ℕ, ◌+◌, ◌^◌, ◌<◌, ◌≤◌, ◌≡◌, ◌≢◌, refl, ap, ◌∙◌, Bool, true, false, Option, none, some, [], ◌∷◌,
  ◌++◌, arith, u32, ltb, if◌then◌else◌,
}
use emylathor.Emit.{
  EmitContext, Emitted, emitted, exited, overran, ◌>=>◌, set_highest_position, clear_block, grow,
  handle_exceeding_buffer,
}
use emylathor.Emit.Buffer.{IsAligned, available, room, grow_lem}
use emylathor.Emit.Labels.{
  HashTable, IsLawful, LabelRef, LabelContext, skip_two, emit_label, emit_label_ref, loadadr,
}
use emylathor.Emit.Labels.Order.{InOrder, InOrder-append}

-- The state of the assembler between two instructions: the references lie one after the other in the
-- bytes emitted so far, and the addresses of the labels have 32 bits.
pub record IsLabelled (H : HashTable) (ctx : LabelContext H.State) : Type 0 where
  pub aligned : IsAligned ctx.buffer
  pub small : ctx.buffer.size < 2 ^ 32
  pub order : InOrder 0 ctx.labelrefs ctx.buffer.pos
  pub addresses : (name : String) (a : ℕ) → H.lookup_extended ctx.labels name ≡ some a → a < 2 ^ 32

module _ (H : HashTable) where
  -- A new label gets the 32-bit sum of the position and the offset as its address, and changes no
  -- other; for one that exists the assembler exits.
  pub emit_label_lem :
      (name : String) (ctx : LabelContext H.State)
      → IsLawful H
      → IsLabelled H ctx
      → (H.lookup_extended ctx.labels name ≡ none
          → (ctx₁ : LabelContext H.State) × (emit_label H name ctx ≡ emitted ctx₁)
            × IsLabelled H ctx₁
            × ((other : String)
                → H.lookup_extended ctx₁.labels other ≡ (
                    if Text.◌==◌ name other
                    then some (u32 (ctx.buffer.pos + ctx.offset))
                    else H.lookup_extended ctx.labels other)))
        × ((a : ℕ)
            → H.lookup_extended ctx.labels name ≡ some a
            → emit_label H name ctx ≡ exited 255)
  unfolding emit_label
  emit_label_lem name ctx lawful ok =
      let address = u32 (ctx.buffer.pos + ctx.offset) in
      let ctx₁ : LabelContext H.State = record ctx { labels = H.insert ctx.labels name address } in
      let act : Option ℕ → Emitted (LabelContext H.State) =
        λ o. elim o [ some _ ↦ exited 255 | none ↦ emitted ctx₁ ] in
      let found : (other : String)
          → H.lookup_extended ctx₁.labels other
            ≡ (if Text.◌==◌ name other then some address else H.lookup_extended ctx.labels other) =
        λ other. lawful.lookup-insert ctx.labels name other address in
      (
        λ new. (
          ctx₁,
          ap act new,
          record {
            aligned = ok.aligned;
            small = ok.small;
            order = ok.order;
            addresses = λ other a h. ground (arith, found other, ok.addresses other a);
          },
          found,
        ),
        λ a old. ap act old,
      )

module _ (H : HashTable) (fresh : ℕ → ℕ → ℕ) where
  -- The buffer with eight more bytes.
  abbrev reserved : EmitContext → EmitContext
  reserved b = record (room fresh b) { pos = b.pos + 8; highest_pos = b.pos + 8 }

  reserve_lem :
      (b : EmitContext)
      → IsAligned b
      → b.size + 512 < 2 ^ 32
      → (b.pos + 4 ≢ b.size
          → (handle_exceeding_buffer (available fresh) 8 b >=> skip_two >=> set_highest_position)
            ≡ emitted (reserved b))
        × (b.pos + 4 ≡ b.size → handle_exceeding_buffer (available fresh) 8 b ≡ overran)
  unfolding handle_exceeding_buffer set_highest_position grow clear_block
  reserve_lem b a l =
      let dynamic = a.dynamic in
      let whole = a.whole in
      let at_end = a.at_end in
      let dwords = a.dwords in
      let blocks = a.blocks in
      let within = a.within in (λ h. ground (arith, grow_lem fresh b), λ h. ground arith)

  reserved-IsAligned :
      (b : EmitContext)
      → IsAligned b
      → b.pos + 4 ≢ b.size
      → IsAligned (reserved b) × ((i : ℕ) → i < b.pos → (reserved b).buf i ≡ b.buf i)
  reserved-IsAligned b a h =
      let dynamic = a.dynamic in
      let whole = a.whole in
      let at_end = a.at_end in
      let dwords = a.dwords in
      let blocks = a.blocks in
      let within = a.within in
      (
        record {
          dynamic = ground arith;
          whole = ground arith;
          at_end = ground arith;
          dwords = ground arith;
          blocks = ground arith;
          within = ground arith;
        },
        λ i k. ground arith,
      )

  -- LOADADR into one of the first eight registers, in a buffer that may grow by a block, reserves eight
  -- bytes and appends the reference, with at most one block more and the bytes before the position
  -- kept, unless exactly four bytes are left of the last block: then the growth overruns the memory.
  -- For another register, or without memory for the reference, the assembler exits.
  pub loadadr_lem :
      (name : String) (reg cond : ℕ) (ctx : LabelContext H.State)
      → IsLabelled H ctx
      → ctx.buffer.size + 512 < 2 ^ 32
      → cond < 2 ^ 4
      → (reg < 8
          → ctx.buffer.pos + 4 ≢ ctx.buffer.size
          → (ctx₁ : LabelContext H.State) × (loadadr H (available fresh) true name reg cond ctx
              ≡ emitted ctx₁)
            × IsLabelled H ctx₁
            × (ctx₁.buffer.pos ≡ ctx.buffer.pos + 8)
            × (ctx₁.labels ≡ ctx.labels)
            × (ctx₁.labelrefs
                ≡ ctx.labelrefs
                  ++ (record { pos = ctx.buffer.pos; reg = reg; name = name; cond = cond }) ∷ [])
            × ((i : ℕ) → i < ctx.buffer.pos → ctx₁.buffer.buf i ≡ ctx.buffer.buf i)
            × (ctx₁.buffer.size ≤ ctx.buffer.size + 512))
        × (reg < 8
            → ctx.buffer.pos + 4 ≡ ctx.buffer.size
            → loadadr H (available fresh) true name reg cond ctx ≡ overran)
        × ((malloc : Bool)
            → 8 ≤ reg
            → loadadr H (available fresh) malloc name reg cond ctx ≡ exited 255)
        × (loadadr H (available fresh) false name reg cond ctx ≡ exited 255)
  unfolding loadadr emit_label_ref
  loadadr_lem name reg cond ctx ok l hc =
      let (fits, overruns) = reserve_lem ctx.buffer ok.aligned l in
      let lr : LabelRef = record { pos = ctx.buffer.pos; reg = reg; name = name; cond = cond } in
      let after : EmitContext → LabelContext H.State =
        λ b. record ctx { buffer = b; labelrefs = ctx.labelrefs ++ lr ∷ [] } in
      let low : reg < 8 → ltb 7 reg ≡ false = λ h. ground arith in
      let high : 8 ≤ reg → ltb 7 reg ≡ true = λ h. ground arith in
      let act : Bool → Bool → Emitted (LabelContext H.State) = λ malloc t.
        if t then exited 255 else emit_label_ref H (available fresh) malloc name reg cond ctx in
      let resume : Emitted EmitContext → Emitted (LabelContext H.State) =
        λ r. r >=> λ b. emitted (after b) in
      (
        λ h room. (
          after (reserved ctx.buffer),
          ap (act true) (low h) ∙ ap resume (fits room),
          record {
            aligned = (reserved-IsAligned ctx.buffer ok.aligned room).0;
            small = ground arith;
            order = InOrder-append 0 ctx.buffer.pos ctx.labelrefs lr ok.order (h, hc) (omega arith);
            addresses = ok.addresses;
          },
          refl,
          refl,
          refl,
          (reserved-IsAligned ctx.buffer ok.aligned room).1,
          ground arith,
        ),
        λ h full.
            ap (act true) (low h)
            ∙ ap (λ r. resume (r >=> skip_two >=> set_highest_position)) (overruns full),
        λ malloc h. ap (act malloc) (high h),
        ground arith,
      )
