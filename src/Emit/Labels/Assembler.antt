-- ===== src/Emit/Labels/Assembler.antt =====
-- The assembler from `emit_create_context` to the end of `label_resolution`.
use mathlib.Core.Path.{subst}
use mathlib.Core.Option.{some-ne-none}
use emylathor.Base.{
  ℕ, ◌%◌, ◌^◌, ◌<◌, ◌≡◌, refl, sym, ap, ◌∙◌, true, false, Option, none, some, [], arith,
}
use emylathor.Emit.{EmitContext, emitted, exited}
use emylathor.Emit.Buffer.{available}
use emylathor.Emit.Labels.{HashTable, IsLawful, LabelContext, emit_create_context, label_resolution}
use emylathor.Emit.Labels.Order.{InOrder, IsOutside, AreResolved, AreDefined}
use emylathor.Emit.Labels.Reserve.{IsLabelled}
use emylathor.Emit.Labels.Resolution.{label_resolution_lem}
use emylathor.Emit.Labels.Steps.{Steps, Steps-IsLabelled}

empty_InOrder : InOrder 0 [] 0
unfolding InOrder
empty_InOrder = omega arith

pub created_lem :
    (H : HashTable) (size : ℕ) (ctx : LabelContext H.State)
    → IsLawful H
    → size % 512 ≡ 0
    → size < 2 ^ 32
    → emit_create_context H true true true size false ≡ some ctx
    → IsLabelled H ctx
unfolding emit_create_context
created_lem H size ctx lawful blocks small made =
    subst (IsLabelled H) (ap (from_some ctx) made) (record {
      aligned = record {
        dynamic = refl;
        whole = refl;
        at_end = refl;
        dwords = refl;
        blocks = blocks;
        within = omega arith;
      };
      small = small;
      order = empty_InOrder;
      addresses = λ name a h. absurd (some-ne-none a (sym h ∙ lawful.lookup-new name));
    })
  where
    from_some : {A : Type 0} → A → Option A → A
    from_some d none = d
    from_some d (some x) = x

-- For any sequence of labels, LOADADR, instructions and `.offset` that the assembler accepts, from a new
-- dynamic buffer of whole blocks on and below four gigabytes: if all labels that are referred to exist
-- at the end, `label_resolution` puts the two LOADI of its address over the bytes of every reference,
-- and changes no other byte of the program; if one does not, the assembler exits.
pub assembled_lem :
    (H : HashTable) (fresh : ℕ → ℕ → ℕ) (size : ℕ) (ctx ctx₁ : LabelContext H.State)
    → IsLawful H
    → size % 512 ≡ 0
    → size < 2 ^ 32
    → emit_create_context H true true true size false ≡ some ctx
    → Steps H fresh ctx ctx₁
    → (AreDefined (H.lookup_extended ctx₁.labels) ctx₁.labelrefs
        → (b : EmitContext) × (label_resolution H (available fresh) ctx₁
            ≡ emitted (record ctx₁ { buffer = b }))
          × AreResolved (H.lookup_extended ctx₁.labels) b ctx₁.labelrefs
          × ((i : ℕ) → IsOutside ctx₁.labelrefs i → b.buf i ≡ ctx₁.buffer.buf i))
      × (¬ AreDefined (H.lookup_extended ctx₁.labels) ctx₁.labelrefs
          → label_resolution H (available fresh) ctx₁ ≡ exited 255)
assembled_lem H fresh size ctx ctx₁ lawful blocks small made steps =
    let ok = created_lem H size ctx lawful blocks small made in
    label_resolution_lem H (available fresh) ctx₁
      (Steps-IsLabelled H fresh ctx ctx₁ lawful ok steps).0
