-- ===== src/Emit/Labels/Call.antt =====
-- LDCALL and LDJMP of `src/assembler/vasm.y`, from their action to their execution.
use Prim.Native.String.{String}
use emylathor.Base.{
  ℕ, suc, ◌+◌, ◌^◌, ◌<◌, ◌≡◌, ◌≢◌, sym, ap, ◌∙◌, ◌⊎◌, true, false, arith, [], ◌∷◌, ◌++◌,
}
use emylathor.Machine.{EmulatorContext}
use emylathor.Valid.{IsValid}
use emylathor.Cpu.Execute.{cpu_execute}
use emylathor.Cpu.Execute.Transfer.{transfers}
use emylathor.Emit.{EmitContext, Emitted, emitted, ◌>=>◌, emit_fmt_v}
use emylathor.Emit.Buffer.{available}
use emylathor.Emit.Encode.{instruction_at, emit_fmt_ii-decode, short_formats}
use emylathor.Emit.Loaded.{IsLoadedFrom}
use emylathor.Emit.Labels.{HashTable, LabelContext, loadadr_then}
use emylathor.Emit.Labels.Order.{HoldsAddress}
use emylathor.Emit.Labels.Reserve.{IsLabelled, loadadr_lem}
use emylathor.Emit.Labels.Transfer.{Transferred, transfer_lem}

module _ (H : HashTable) (fresh : ℕ → ℕ → ℕ) (op : ℕ) (name : String) (reg cond : ℕ)
    (ctx : LabelContext H.State) (h : (op ≡ 0x0b) ⊎ (op ≡ 0x0c)) (hr : reg < 8) (hc : cond < 2 ^ 4)
    (ok : IsLabelled H ctx) (small : ctx.buffer.size + 1024 < 2 ^ 32)
    (room : ctx.buffer.pos + 4 ≢ ctx.buffer.size) where
  op_lt : op < 2 ^ 6
  op_lt = ground arith

  -- The reference to the label, with the instruction behind the bytes that it reserves.
  loadadr_then_lem :
      (ctx₂ : LabelContext H.State) × (loadadr_then H (available fresh) op true name reg cond ctx
        ≡ emitted ctx₂)
      × (ctx₂.buffer.pos ≡ ctx.buffer.pos + 12)
      × (ctx₂.labelrefs
          ≡ ctx.labelrefs
            ++ (record { pos = ctx.buffer.pos; reg = reg; name = name; cond = cond }) ∷ [])
      × (instruction_at (ctx.buffer.pos + 8) ctx₂.buffer ≡ transfers op cond reg)
      × ((i : ℕ) → i < ctx.buffer.pos → ctx₂.buffer.buf i ≡ ctx.buffer.buf i)
  unfolding loadadr_then
  loadadr_then_lem =
      let (ctx₁, done, ok₁, at, labels, refs, kept, size) =
        (loadadr_lem H fresh name reg cond ctx ok (omega arith) hc).0 hr room in
      let (same_i, same_v, same_vi, same_vii, same_viii) =
        short_formats (available fresh) 0 cond op reg 0 ctx₁.buffer in
      let (b, done₂, again, at₂, decoded, kept₂, size₂, bytes) =
        emit_fmt_ii-decode fresh ctx₁.buffer ok₁.aligned (omega (arith, size)) 0 cond op
          (omega arith) hc op_lt reg 0 0 (omega arith) (omega arith) (omega arith) in
      let put : LabelContext H.State → Emitted (LabelContext H.State) = λ c.
        emit_fmt_v (available fresh) 0 cond op reg c.buffer >=> λ x.
        emitted (record c { buffer = x }) in
      (
        record ctx₁ { buffer = b },
        ap (λ r. r >=> put) done
            ∙ ap (λ r. r >=> λ x. emitted (record ctx₁ { buffer = x })) (same_v ∙ done₂),
        omega (arith, at, at₂),
        refs,
        ap (λ p. instruction_at p b) (sym at) ∙ decoded,
        λ i l. kept₂ i (omega (arith, at)) ∙ kept i l,
      )

-- The action of LDCALL and LDJMP, for a register that a label can be loaded into, in a buffer that
-- stays below 4 GiB and is not full after four of the reserved bytes: the statement is emitted, as a
-- reference to the label at its position, eight reserved bytes, and the instruction behind them.
-- Where the bytes of a later buffer hold the address of the label and that instruction, and the
-- memory from the instruction pointer on holds these twelve bytes, three rounds of the loop execute
-- them: if the condition holds, the emulator goes on at the address, which it has loaded into the
-- register, and LDCALL leaves the position behind the statement in RC; otherwise it goes on behind
-- the statement with the register as it was. No register but these two and no memory changes.
pub ldcall_lem :
    (H : HashTable) (fresh : ℕ → ℕ → ℕ) (op : ℕ) (name : String) (reg cond : ℕ)
    (ctx : LabelContext H.State) (b : EmitContext) (address : ℕ) (e : EmulatorContext)
    → (op ≡ 0x0b) ⊎ (op ≡ 0x0c)
    → reg < 8
    → cond < 2 ^ 4
    → IsLabelled H ctx
    → ctx.buffer.size + 1024 < 2 ^ 32
    → ctx.buffer.pos + 4 ≢ ctx.buffer.size
    → instruction_at (ctx.buffer.pos + 8) b ≡ transfers op cond reg
    → HoldsAddress b (record { pos = ctx.buffer.pos; reg = reg; name = name; cond = cond }) address
    → address < 2 ^ 32
    → IsValid e
    → IsLoadedFrom b ctx.buffer.pos 12 e
    → ((ctx₂ : LabelContext H.State) × (loadadr_then H (available fresh) op true name reg cond ctx
          ≡ emitted ctx₂)
        × (ctx₂.buffer.pos ≡ ctx.buffer.pos + 12)
        × (ctx₂.labelrefs
            ≡ ctx.labelrefs
              ++ (record { pos = ctx.buffer.pos; reg = reg; name = name; cond = cond }) ∷ [])
        × (instruction_at (ctx.buffer.pos + 8) ctx₂.buffer ≡ transfers op cond reg)
        × ((i : ℕ) → i < ctx.buffer.pos → ctx₂.buffer.buf i ≡ ctx.buffer.buf i))
      × ((e₃ : EmulatorContext) × ((n : ℕ)
            → cpu_execute (suc (suc (suc n))) false e ≡ cpu_execute n false e₃)
          × Transferred op cond reg address e e₃)
ldcall_lem H fresh op name reg cond ctx b address e h hr hc ok small room call holds ha v at = (
  loadadr_then_lem H fresh op name reg cond ctx h hr hc ok small room,
  transfer_lem op b (record { pos = ctx.buffer.pos; reg = reg; name = name; cond = cond }) address e
      h (hr, hc) holds call ha v at,
)
