-- ===== src/Emit/Labels/Resolution.antt =====
-- `label_resolution` as a whole.
use Prim.Native.String.{String}
use emylathor.Base.{
  Option-cases, ℕ, ◌+◌, ◌^◌, ◌<◌, ◌≡◌, ap, ◌∙◌, Option, none, some, List, [], ◌∷◌, inl, inr, arith,
  u32,
}
use emylathor.Emit.{EmitContext, emitted, exited, ◌>=>◌}
use emylathor.Emit.Labels.{
  HashTable, LabelRef, LabelContext, emit_label_res, emit_address, resolve_ref, resolve_refs,
  label_resolution,
}
use emylathor.Emit.Labels.Order.{InOrder, IsOutside, AreResolved, AreDefined, InOrder-bound}
use emylathor.Emit.Labels.Resolve.{Reaches, resolve_ref_lem, resolve_refs_lem}
use emylathor.Emit.Labels.Reserve.{IsLabelled}

module _ (H : HashTable) (realloc : ℕ → Option (ℕ → ℕ)) where
  emit_label_res-missing :
      (name : String) (ctx : LabelContext H.State)
      → H.lookup_extended ctx.labels name ≡ none
      → emit_label_res H name ctx ≡ exited 255
  unfolding emit_label_res
  emit_label_res-missing name ctx missing =
      ap (λ o. elim o [ some value ↦ emitted (u32 value) | none ↦ exited 255 ]) missing

  resolve_ref-missing :
      (lr : LabelRef) (ctx : LabelContext H.State)
      → H.lookup_extended ctx.labels lr.name ≡ none
      → resolve_ref H realloc lr ctx ≡ exited 255
  unfolding resolve_ref
  resolve_ref-missing lr ctx missing =
      ap (λ r. r >=> emit_address H realloc lr ctx) (emit_label_res-missing lr.name ctx missing)

  -- Some name has no label.
  resolve_refs-missing :
      (from to : ℕ) (refs : List LabelRef) (ctx : LabelContext H.State)
      → InOrder from refs to
      → ((name : String) (a : ℕ) → H.lookup_extended ctx.labels name ≡ some a → a < 2 ^ 32)
      → ¬ AreDefined (H.lookup_extended ctx.labels) refs
      → Reaches ctx.buffer to
      → resolve_refs H realloc refs ctx ≡ exited 255
  unfolding resolve_refs InOrder AreDefined
  resolve_refs-missing from to [] ctx order ranged undefined room = absurd (undefined tt)
  resolve_refs-missing from to (lr ∷ rest) ctx (h, word, order) ranged undefined (w, owned, small) =
      let bound = InOrder-bound (lr.pos + 8) to rest order in
      let next = resolve_refs H realloc rest in
      elim (Option-cases (H.lookup_extended ctx.labels lr.name)) [
        | inl missing ↦ ap (λ r. r >=> next) (resolve_ref-missing lr ctx missing)
        | inr (v, found) ↦
            let hv = ranged lr.name v found in
            let (b, done, size, allocated, holds, kept) =
              resolve_ref_lem H realloc lr v ctx found word hv (omega arith, owned, small) in
            ap (λ r. r >=> next) done
            ∙ resolve_refs-missing (lr.pos + 8) to rest (record ctx { buffer = b }) order ranged
                (λ defined. undefined ((v, found, hv), defined))
                (omega arith, omega arith, omega arith)
      ]

  -- After labels, references and instructions, `label_resolution` replaces the bytes of every reference
  -- by the two LOADI of the address of its label, and changes no byte outside them, if all the labels
  -- exist. If one does not, the assembler exits.
  pub label_resolution_lem :
      (ctx : LabelContext H.State)
      → IsLabelled H ctx
      → (AreDefined (H.lookup_extended ctx.labels) ctx.labelrefs
          → (b : EmitContext) × (label_resolution H realloc ctx
              ≡ emitted (record ctx { buffer = b }))
            × AreResolved (H.lookup_extended ctx.labels) b ctx.labelrefs
            × ((i : ℕ) → IsOutside ctx.labelrefs i → b.buf i ≡ ctx.buffer.buf i))
        × (¬ AreDefined (H.lookup_extended ctx.labels) ctx.labelrefs
            → label_resolution H realloc ctx ≡ exited 255)
  unfolding label_resolution
  label_resolution_lem ctx ok =
      let whole = ok.aligned.whole in
      let room : Reaches ctx.buffer ctx.buffer.pos = (ok.aligned.within, omega arith, ok.small) in
      (
        λ defined.
            let (b, done, size, allocated, resolved, kept) =
              resolve_refs_lem H realloc 0 ctx.buffer.pos ctx.labelrefs ctx ok.order defined room in
            (b, done, resolved, kept),
        λ undefined.
            resolve_refs-missing 0 ctx.buffer.pos ctx.labelrefs ctx ok.order ok.addresses undefined
              room,
      )
