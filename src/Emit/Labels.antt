-- ===== src/Emit/Labels.antt =====
-- The labels of the assembler: `emit_label`, `emit_label_ref` and `emit_label_res` of
-- `src/assembler/emit.c`, and `label_resolution` and the actions with labels of `src/assembler/vasm.y`.
--
-- glib's hash table is a parameter, as is whether `malloc` finds memory for a reference. A list of glib
-- is a list.
pub mod Order
pub mod Resolve
pub mod Run
pub mod Transfer
pub mod Call
pub mod Reserve
pub mod Steps
pub mod Assembler
pub mod Resolution
use Prim.Native.String.{String}
use emylathor.Base.{
  ℕ, ◌+◌, ◌*◌, Bool, true, false, Option, none, some, List, [], ◌∷◌, ◌++◌, ◌≡◌, ◌&&◌, if◌then◌else◌,
  ltb, bit_and, u8, u32, ◌>>>◌,
}
use text.Mathlib.Text as Text
use emylathor.Emit.{
  EmitContext, Emitted, emitted, exited, ◌>=>◌, set_highest_position, handle_exceeding_buffer,
  emit_fmt_iv, emit_fmt_v,
}

-- What the assembler uses of a `GHashTable` from strings to 32-bit numbers: `g_hash_table_new`,
-- `g_hash_table_lookup_extended` and `g_hash_table_insert`.
pub record HashTable : Type 1 where
  pub State : Type 0
  pub new : State
  pub lookup_extended : State → String → Option ℕ
  pub insert : State → String → ℕ → State

-- The documented behaviour of the three.
pub record IsLawful (H : HashTable) : Type 0 where
  pub lookup-new : (k : String) → H.lookup_extended H.new k ≡ none
  pub lookup-insert :
      (s : H.State) (k j : String) (v : ℕ)
      → H.lookup_extended (H.insert s k v) j
        ≡ (if Text.◌==◌ k j then some v else H.lookup_extended s j)

-- `label_ref`
pub record LabelRef : Type 0 where
  pub pos : ℕ
  pub reg : ℕ
  pub name : String
  pub cond : ℕ

-- `emit_context`: the buffer, and the fields for labels.
pub record LabelContext (Labels : Type 0) : Type 0 where
  pub buffer : EmitContext
  pub labels : Labels
  pub labelrefs : List LabelRef
  pub offset : ℕ

abbrev pub lword_from_dword : ℕ → ℕ
lword_from_dword x = bit_and x 0xffff

abbrev pub hword_from_dword : ℕ → ℕ
hword_from_dword x = bit_and (x >>> 16) 0xffff

abbrev pub op_loadi : ℕ
op_loadi = 0x06

-- `ctx->pos += 8`
abbrev pub skip_two : EmitContext → Emitted EmitContext
skip_two ctx = emitted (record ctx { pos = u32 (ctx.pos + 8) })

module _ (H : HashTable) where
  -- Whether the three allocations succeed is a parameter; without one of them the result is NULL.
  unfoldable pub emit_create_context : Bool → Bool → Bool → ℕ → Bool → Option (LabelContext H.State)
  emit_create_context malloc calloc table size fixed_length =
      if malloc && (calloc && table)
      then some (record {
        buffer = record {
          buf = λ i. 0;
          allocated = size;
          buf_len_fixed = fixed_length;
          pos = 0;
          highest_pos = 0;
          size = size;
        };
        labels = H.new;
        labelrefs = [];
        offset = 0;
      })
      else none

  -- The address is `ctx->pos + ctx->offset`.
  unfoldable pub emit_label : String → LabelContext H.State → Emitted (LabelContext H.State)
  emit_label name ctx = elim (H.lookup_extended ctx.labels name) [
    | some _ ↦ exited 255
    | none ↦
        emitted
          (record ctx { labels = H.insert ctx.labels name (u32 (ctx.buffer.pos + ctx.offset)) })
  ]

  pub emit_label_res : String → LabelContext H.State → Emitted ℕ
  emit_label_res name ctx = elim (H.lookup_extended ctx.labels name) [
    | some value ↦ emitted (u32 value)
    | none ↦ exited 255
  ]

  module _ (realloc : ℕ → Option (ℕ → ℕ)) where
    pub emit_label_ref :
        Bool → String → ℕ → ℕ → LabelContext H.State → Emitted (LabelContext H.State)
    unfolding handle_exceeding_buffer set_highest_position
    emit_label_ref malloc name reg cond ctx =
        if malloc
        then (handle_exceeding_buffer realloc 8 ctx.buffer
            >=> skip_two
            >=> set_highest_position
            >=> λ b. emitted (record ctx {
              buffer = b;
              labelrefs =
                  ctx.labelrefs
                  ++ (record { pos = ctx.buffer.pos; reg = reg; name = name; cond = cond }) ∷ [];
            }))
        else exited 255

    -- The two LOADI of a reference, over the bytes that it reserved.
    pub emit_address : LabelRef → LabelContext H.State → ℕ → Emitted (LabelContext H.State)
    unfolding emit_fmt_iv
    emit_address lr ctx val =
        let reg = u8 (lr.reg * 2) in
        emit_fmt_iv realloc 1 lr.cond op_loadi reg (lword_from_dword val)
          (record ctx.buffer { pos = lr.pos })
        >=> emit_fmt_iv realloc 1 lr.cond op_loadi (u8 (reg + 1)) (hword_from_dword val)
        >=> λ b. emitted (record ctx { buffer = b })

    -- The body of the loop.
    pub resolve_ref : LabelRef → LabelContext H.State → Emitted (LabelContext H.State)
    unfolding emit_label_res emit_address
    resolve_ref lr ctx = emit_label_res lr.name ctx >=> emit_address lr ctx

    pub resolve_refs : List LabelRef → LabelContext H.State → Emitted (LabelContext H.State)
    unfolding resolve_ref
    resolve_refs [] ctx = emitted ctx
    resolve_refs (lr ∷ rest) ctx = resolve_ref lr ctx >=> resolve_refs rest

    unfoldable pub label_resolution : LabelContext H.State → Emitted (LabelContext H.State)
    unfolding resolve_refs
    label_resolution ctx = resolve_refs ctx.labelrefs ctx

    -- The action of LOADADR. CPU_REG_R7 is 7.
    unfoldable pub loadadr :
        Bool → String → ℕ → ℕ → LabelContext H.State → Emitted (LabelContext H.State)
    unfolding emit_label_ref
    loadadr malloc name reg cond ctx =
        if ltb 7 reg then exited 255 else emit_label_ref malloc name reg cond ctx

    -- The actions of LDCALL (0x0c) and LDJMP (0x0b).
    unfoldable pub loadadr_then :
        ℕ → Bool → String → ℕ → ℕ → LabelContext H.State → Emitted (LabelContext H.State)
    unfolding loadadr emit_fmt_v
    loadadr_then op malloc name reg cond ctx = loadadr malloc name reg cond ctx >=> λ c.
        emit_fmt_v realloc 0 cond op reg c.buffer >=> λ b. emitted (record c { buffer = b })
