-- ===== src/Emit/Labels/Steps.antt =====
-- The assembler while it reads its input, as steps between the states of `emit_context`.
use Prim.Native.String.{String}
use text.Mathlib.Text as Text
use text.Mathlib.TextEquality.{eq_iff}
use mathlib.Core.Bool.{false≢true}
use mathlib.Core.Option.{some-ne-none}
use mathlib.Core.Path.{subst}
use emylathor.Base.{
  Option-cases, Bool-cases, ◌==◌, ℕ, ◌+◌, ◌^◌, ◌<◌, ◌≡◌, sym, ap, ◌∙◌, Bool, true, false, some, inl,
  inr, arith, u32, ltb, if◌then◌else◌,
}
use emylathor.Emit.{EmitContext, Emitted, emitted, exited, overran, emit_bytes}
use emylathor.Emit.Buffer.{same_value, available, emit_bytes_lem}
use emylathor.Emit.Labels.{HashTable, IsLawful, LabelContext, emit_label, loadadr}
use emylathor.Emit.Labels.Order.{InOrder-extend}
use emylathor.Emit.Labels.Reserve.{IsLabelled, emit_label_lem, loadadr_lem}

-- Whether a call gives a value.
returns_value {ℓ} : {A : Type ℓ} → Emitted A → Bool
returns_value (emitted x) = true
returns_value (exited n) = false
returns_value overran = false

not_both {ℓ} :
    {A : Type ℓ} (r r₁ : Emitted A) (x : A) → r ≡ emitted x → r ≡ r₁ → returns_value r₁ ≡ true
unfolding returns_value
not_both r r₁ x p q = ap returns_value (sym q ∙ p)

module _ (H : HashTable) (fresh : ℕ → ℕ → ℕ) where
  -- One statement of the input that the assembler accepts, in a buffer that can grow by a block below
  -- four gigabytes: a label, a LOADADR, an instruction of any format, or `.offset`.
  pub data Step (ctx : LabelContext H.State) : LabelContext H.State → Type 0 where
    label :
        (name : String) (ctx₁ : LabelContext H.State)
        → emit_label H name ctx ≡ emitted ctx₁
        → Step ctx ctx₁
    reference :
        (name : String) (reg cond : ℕ) (ctx₁ : LabelContext H.State)
        → ctx.buffer.size + 512 < 2 ^ 32
        → cond < 2 ^ 4
        → loadadr H (available fresh) true name reg cond ctx ≡ emitted ctx₁
        → Step ctx ctx₁
    instruction :
        (b1 b2 b3 b4 : ℕ) (b : EmitContext) (ctx₁ : LabelContext H.State)
        → ctx.buffer.size + 512 < 2 ^ 32
        → emit_bytes (available fresh) b1 b2 b3 b4 ctx.buffer ≡ emitted b
        → ctx₁ ≡ record ctx { buffer = b }
        → Step ctx ctx₁
    set_offset :
        (n : ℕ) (ctx₁ : LabelContext H.State) → ctx₁ ≡ record ctx { offset = n } → Step ctx ctx₁

  -- Any number of statements.
  pub data Steps (ctx : LabelContext H.State) : LabelContext H.State → Type 0 where
    start : Steps ctx ctx
    then_ : (ctx₁ ctx₂ : LabelContext H.State) → Steps ctx ctx₁ → Step ctx₁ ctx₂ → Steps ctx ctx₂

  label_step :
      (name : String) (ctx ctx₁ : LabelContext H.State)
      → IsLawful H
      → IsLabelled H ctx
      → emit_label H name ctx ≡ emitted ctx₁
      → IsLabelled H ctx₁
        × ((other : String) (a : ℕ)
            → H.lookup_extended ctx.labels other ≡ some a
            → H.lookup_extended ctx₁.labels other ≡ some a)
  unfolding returns_value
  label_step name ctx ctx₁ lawful ok done =
      let (fresh_name, used) = emit_label_lem H name ctx lawful ok in
      elim (Option-cases (H.lookup_extended ctx.labels name)) [
        | inr (a, old) ↦ absurd (false≢true (not_both _ (exited 255) ctx₁ done (used a old)))
        | inl new ↦
            let (ctx₂, done₂, ok₂, found) = fresh_name new in
            let same = same_value _ ctx₂ ctx₁ done₂ done in
            let address = u32 (ctx.buffer.pos + ctx.offset) in
            let unknown : (other : String) (a : ℕ)
                → H.lookup_extended ctx.labels other ≡ some a
                → Text.◌==◌ name other ≡ false =
              λ other a k. elim (Bool-cases (Text.◌==◌ name other)) [
                | inl h ↦
                    let equal = (eq_iff name other).0 h in
                    absurd
                      (some-ne-none a (sym k ∙ ap (H.lookup_extended ctx.labels) (sym equal) ∙ new))
                | inr h ↦ h
              ] in
            (
              subst (IsLabelled H) same ok₂,
              λ other a k.
                  subst (λ c. H.lookup_extended c.labels other ≡ some a) same
                    (found other
                      ∙ ap (λ t. if t then some address else H.lookup_extended ctx.labels other)
                          (unknown other a k)
                      ∙ k),
            )
      ]

  reference_step :
      (name : String) (reg cond : ℕ) (ctx ctx₁ : LabelContext H.State)
      → IsLabelled H ctx
      → ctx.buffer.size + 512 < 2 ^ 32
      → cond < 2 ^ 4
      → loadadr H (available fresh) true name reg cond ctx ≡ emitted ctx₁
      → IsLabelled H ctx₁ × (ctx₁.labels ≡ ctx.labels)
  unfolding returns_value
  reference_step name reg cond ctx ctx₁ ok l hc done =
      let (fits, overruns, other, missing) = loadadr_lem H fresh name reg cond ctx ok l hc in
      elim (Bool-cases (ltb reg 8)) [
        | inr big ↦
            absurd (false≢true (not_both _ (exited 255) ctx₁ done (other true (ground arith))))
        | inl low ↦ elim (Bool-cases (ctx.buffer.pos + 4 == ctx.buffer.size)) [
          | inl full ↦
              absurd
                (false≢true (not_both _ overran ctx₁ done (overruns (ground arith) (ground arith))))
          | inr room ↦
              let (ctx₂, done₂, ok₂, at, labels, refs, kept, size) =
                fits (ground arith) (ground arith) in
              let same = same_value _ ctx₂ ctx₁ done₂ done in
              (subst (IsLabelled H) same ok₂, ap (λ c. c.labels) (sym same) ∙ labels)
        ]
      ]

  instruction_step :
      (b1 b2 b3 b4 : ℕ) (b : EmitContext) (ctx : LabelContext H.State)
      → IsLabelled H ctx
      → ctx.buffer.size + 512 < 2 ^ 32
      → emit_bytes (available fresh) b1 b2 b3 b4 ctx.buffer ≡ emitted b
      → IsLabelled H (record ctx { buffer = b })
  instruction_step b1 b2 b3 b4 b ctx ok l done =
      let (b₁, done₁, aligned, at, x1, x2, x3, x4, kept, size) =
        emit_bytes_lem fresh b1 b2 b3 b4 ctx.buffer ok.aligned l in
      let same = same_value _ b₁ b done₁ done in
      subst (λ x. IsLabelled H (record ctx { buffer = x })) same
        (record {
          aligned = aligned;
          small = omega (arith, size, l);
          order = InOrder-extend 0 ctx.buffer.pos b₁.pos ctx.labelrefs ok.order (omega (arith, at));
          addresses = ok.addresses;
        })

  -- A statement keeps the state in order, and the address of every label.
  step_lem :
      (ctx ctx₁ : LabelContext H.State)
      → IsLawful H
      → IsLabelled H ctx
      → Step ctx ctx₁
      → IsLabelled H ctx₁
        × ((name : String) (a : ℕ)
            → H.lookup_extended ctx.labels name ≡ some a
            → H.lookup_extended ctx₁.labels name ≡ some a)
  step_lem ctx ctx₁ lawful ok (label name _ done) = label_step name ctx ctx₁ lawful ok done
  step_lem ctx ctx₁ lawful ok (reference name reg cond _ l hc done) =
      let (ok₁, labels) = reference_step name reg cond ctx ctx₁ ok l hc done in
      (ok₁, λ other a k. ap (λ t. H.lookup_extended t other) labels ∙ k)
  step_lem ctx ctx₁ lawful ok (instruction b1 b2 b3 b4 b _ l done same) = (
    subst (IsLabelled H) (sym same) (instruction_step b1 b2 b3 b4 b ctx ok l done),
    λ other a k. ap (λ c. H.lookup_extended c.labels other) same ∙ k,
  )
  step_lem ctx ctx₁ lawful ok (set_offset n _ same) = (
    subst (IsLabelled H) (sym same) (record {
      aligned = ok.aligned;
      small = ok.small;
      order = ok.order;
      addresses = ok.addresses;
    }),
    λ other a k. ap (λ c. H.lookup_extended c.labels other) same ∙ k,
  )

  -- Through any sequence of labels, LOADADR, instructions and `.offset` that the assembler accepts, below
  -- four gigabytes, its state stays in order, and no label ever changes its address.
  pub Steps-IsLabelled :
      (ctx ctx₁ : LabelContext H.State)
      → IsLawful H
      → IsLabelled H ctx
      → Steps ctx ctx₁
      → IsLabelled H ctx₁
        × ((name : String) (a : ℕ)
            → H.lookup_extended ctx.labels name ≡ some a
            → H.lookup_extended ctx₁.labels name ≡ some a)
  Steps-IsLabelled ctx ctx₁ lawful ok start = (ok, λ name a k. k)
  Steps-IsLabelled ctx ctx₁ lawful ok (then_ ctx₂ _ steps step) =
      let (ok₂, kept₂) = Steps-IsLabelled ctx ctx₂ lawful ok steps in
      let (ok₁, kept₁) = step_lem ctx₂ ctx₁ lawful ok₂ step in
      (ok₁, λ name a k. kept₁ name a (kept₂ name a k))
