-- ===== src/Emit/Labels/Resolve.antt =====
-- What `label_resolution` leaves in the buffer.
use Prim.Native.String.{String}
use emylathor.Base.{
  ℕ, ◌+◌, ◌*◌, ◌/◌, ◌%◌, ◌^◌, ◌<◌, ◌≤◌, ◌≡◌, refl, ap, ◌∙◌, Option, none, some, List, [], ◌∷◌, ◌⊎◌,
  inl, arith, u8, u32,
}
use emylathor.Base.Bits.Shift.{bit_and-mask}
use emylathor.Emit.{EmitContext, Emitted, emitted, exited, ◌>=>◌, emit_fmt_iv}
use emylathor.Emit.Encode.{instruction_at}
use emylathor.Emit.Rewrite.{emit_fmt_iv-rewritten}
use emylathor.Emit.Labels.{
  HashTable, LabelRef, LabelContext, op_loadi, lword_from_dword, hword_from_dword, emit_label_res,
  emit_address, resolve_ref, resolve_refs,
}
use emylathor.Emit.Labels.Order.{
  IsWordRef, InOrder, IsOutside, HoldsAddress, AreResolved, AreDefined, InOrder-IsOutside,
  InOrder-bound,
}

-- A buffer that contains the bytes up to a position.
abbrev pub Reaches : EmitContext → ℕ → Type 0
Reaches b to = (to ≤ b.size) × (b.size ≤ b.allocated) × (b.size < 2 ^ 32)

words_of :
    (v : ℕ)
    → v < 2 ^ 32
    → (lword_from_dword (u32 v) ≡ v % 2 ^ 16) × (hword_from_dword (u32 v) ≡ v / 2 ^ 16)
words_of v h =
    (omega (arith, bit_and-mask 16 (u32 v)), omega (arith, bit_and-mask 16 (u32 v / 2 ^ 16)))

pub instruction_at-kept :
    (p : ℕ) (b b₁ : EmitContext)
    → ((i : ℕ) → p ≤ i → i < p + 4 → b₁.buf i ≡ b.buf i)
    → instruction_at p b₁ ≡ instruction_at p b
instruction_at-kept p b b₁ h =
    let h0 = h p (omega arith) (omega arith) in
    let h1 = h (p + 1) (omega arith) (omega arith) in
    let h2 = h (p + 2) (omega arith) (omega arith) in
    let h3 = h (p + 3) (omega arith) (omega arith) in simp (h0, h1, h2, h3)

HoldsAddress-kept :
    (lr : LabelRef) (v : ℕ) (b b₁ : EmitContext)
    → ((i : ℕ) → i < lr.pos + 8 → b₁.buf i ≡ b.buf i)
    → HoldsAddress b lr v
    → HoldsAddress b₁ lr v
HoldsAddress-kept lr v b b₁ kept (low, high) = (
  instruction_at-kept lr.pos b b₁ (λ i from to. kept i (omega arith)) ∙ low,
  instruction_at-kept (lr.pos + 4) b b₁ (λ i from to. kept i (omega arith)) ∙ high,
)

emit_label_res-found :
    (H : HashTable) (name : String) (v : ℕ) (ctx : LabelContext H.State)
    → H.lookup_extended ctx.labels name ≡ some v
    → emit_label_res H name ctx ≡ emitted (u32 v)
unfolding emit_label_res
emit_label_res-found H name v ctx found =
    ap (λ o. elim o [ some value ↦ emitted (u32 value) | none ↦ exited 255 ]) found

module _ (H : HashTable) (realloc : ℕ → Option (ℕ → ℕ)) where
  -- The two LOADI of a reference, with their registers and words.
  abbrev pair : LabelRef → EmitContext → ℕ → ℕ → ℕ → ℕ → Emitted EmitContext
  pair lr b reg next low high =
      emit_fmt_iv realloc 1 lr.cond op_loadi reg low (record b { pos = lr.pos })
      >=> emit_fmt_iv realloc 1 lr.cond op_loadi next high

  pair-ap :
      (lr : LabelRef) (b : EmitContext) {reg reg₁ next next₁ low low₁ high high₁ : ℕ}
      → reg ≡ reg₁
      → next ≡ next₁
      → low ≡ low₁
      → high ≡ high₁
      → pair lr b reg next low high ≡ pair lr b reg₁ next₁ low₁ high₁
  pair-ap lr b p q r s = cc

  pair_lem :
      (lr : LabelRef) (v : ℕ) (b : EmitContext)
      → IsWordRef lr
      → v < 2 ^ 32
      → Reaches b (lr.pos + 8)
      → (b₂ : EmitContext) × ((emit_fmt_iv realloc 1 lr.cond op_loadi
              (2 * lr.reg)
              (v % 2 ^ 16)
              (record b { pos = lr.pos })
            >=> emit_fmt_iv realloc 1 lr.cond op_loadi (2 * lr.reg + 1) (v / 2 ^ 16))
          ≡ emitted b₂)
        × (b₂.size ≡ b.size)
        × (b₂.allocated ≡ b.allocated)
        × HoldsAddress b₂ lr v
        × ((i : ℕ) → (i < lr.pos) ⊎ (lr.pos + 8 ≤ i) → b₂.buf i ≡ b.buf i)
  pair_lem lr v b (hr, hc) hv (within, owned, small) =
      let start : EmitContext = record b { pos = lr.pos } in
      let (b₁, done₁, at₁, size₁, allocated₁, low, kept₁) =
        emit_fmt_iv-rewritten realloc 1 lr.cond op_loadi (2 * lr.reg) (v % 2 ^ 16) start
          (record { inside = omega arith; owned = owned; small = small }) (omega arith) hc
          (omega arith) (omega arith) (omega arith) in
      let (b₂, done₂, at₂, size₂, allocated₂, high, kept₂) =
        emit_fmt_iv-rewritten realloc 1 lr.cond op_loadi (2 * lr.reg + 1) (v / 2 ^ 16) b₁
          (record { inside = omega arith; owned = omega arith; small = omega arith }) (omega arith)
          hc (omega arith) (omega arith) (omega arith) in
      (
        b₂,
        ap (λ r. r >=> emit_fmt_iv realloc 1 lr.cond op_loadi (2 * lr.reg + 1) (v / 2 ^ 16)) done₁
            ∙ done₂,
        omega arith,
        omega arith,
        (
          instruction_at-kept lr.pos b₁ b₂ (λ i from to. kept₂ i (inl (omega arith))) ∙ low,
          ap (λ p. instruction_at p b₂) (omega arith) ∙ high,
        ),
        λ i h. kept₂ i (omega arith) ∙ kept₁ i (omega arith),
      )

  resolve_ref-pair :
      (lr : LabelRef) (v : ℕ) (ctx : LabelContext H.State)
      → H.lookup_extended ctx.labels lr.name ≡ some v
      → resolve_ref H realloc lr ctx ≡ (
          pair lr ctx.buffer
            (u8 (lr.reg * 2))
            (u8 (u8 (lr.reg * 2) + 1))
            (lword_from_dword (u32 v))
            (hword_from_dword (u32 v))
          >=> λ b. emitted (record ctx { buffer = b }))
  unfolding resolve_ref emit_address
  resolve_ref-pair lr v ctx found =
      ap (λ r. r >=> emit_address H realloc lr ctx) (emit_label_res-found H lr.name v ctx found)

  pub resolve_ref_lem :
      (lr : LabelRef) (v : ℕ) (ctx : LabelContext H.State)
      → H.lookup_extended ctx.labels lr.name ≡ some v
      → IsWordRef lr
      → v < 2 ^ 32
      → Reaches ctx.buffer (lr.pos + 8)
      → (b : EmitContext) × (resolve_ref H realloc lr ctx ≡ emitted (record ctx { buffer = b }))
        × (b.size ≡ ctx.buffer.size)
        × (b.allocated ≡ ctx.buffer.allocated)
        × HoldsAddress b lr v
        × ((i : ℕ) → (i < lr.pos) ⊎ (lr.pos + 8 ≤ i) → b.buf i ≡ ctx.buffer.buf i)
  resolve_ref_lem lr v ctx found (hr, hc) hv room =
      let (b, done, size, allocated, holds, kept) = pair_lem lr v ctx.buffer (hr, hc) hv room in
      let (low, high) = words_of v hv in
      let k : Emitted EmitContext → Emitted (LabelContext H.State) =
        λ r. r >=> λ b₁. emitted (record ctx { buffer = b₁ }) in
      let reg : u8 (lr.reg * 2) ≡ 2 * lr.reg = omega arith in
      let next : u8 (u8 (lr.reg * 2) + 1) ≡ 2 * lr.reg + 1 = omega arith in
      (
        b,
        resolve_ref-pair lr v ctx found
            ∙ ap k (pair-ap lr ctx.buffer reg next low high)
            ∙ ap k done,
        size,
        allocated,
        holds,
        kept,
      )

  pub resolve_refs_lem :
      (from to : ℕ) (refs : List LabelRef) (ctx : LabelContext H.State)
      → InOrder from refs to
      → AreDefined (H.lookup_extended ctx.labels) refs
      → Reaches ctx.buffer to
      → (b : EmitContext) × (resolve_refs H realloc refs ctx ≡ emitted (record ctx { buffer = b }))
        × (b.size ≡ ctx.buffer.size)
        × (b.allocated ≡ ctx.buffer.allocated)
        × AreResolved (H.lookup_extended ctx.labels) b refs
        × ((i : ℕ) → IsOutside refs i → b.buf i ≡ ctx.buffer.buf i)
  unfolding resolve_refs InOrder AreDefined AreResolved IsOutside
  resolve_refs_lem from to [] ctx order defined room =
      (ctx.buffer, refl, refl, refl, tt, λ i h. refl)
  resolve_refs_lem from to (lr ∷ rest) ctx (h, word, order) ((v, found, hv), defined)
        (w, owned, small) =
      let bound = InOrder-bound (lr.pos + 8) to rest order in
      let (b₁, done₁, size₁, allocated₁, holds, kept₁) =
        resolve_ref_lem lr v ctx found word hv (omega arith, owned, small) in
      let (b₂, done₂, size₂, allocated₂, resolved, kept₂) =
        resolve_refs_lem (lr.pos + 8) to rest (record ctx { buffer = b₁ }) order defined
          (omega arith, omega arith, omega arith) in
      let before : (i : ℕ) → i < lr.pos + 8 → b₂.buf i ≡ b₁.buf i =
        λ i k. kept₂ i (InOrder-IsOutside (lr.pos + 8) to rest i order (inl k)) in
      (
        b₂,
        ap (λ r. r >=> resolve_refs H realloc rest) done₁ ∙ done₂,
        omega arith,
        omega arith,
        ((v, found, HoldsAddress-kept lr v b₁ b₂ before holds), resolved),
        λ i (k, ks). kept₂ i ks ∙ kept₁ i k,
      )
