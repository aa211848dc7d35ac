-- ===== src/Emit/Encode.antt =====
-- The formats of `src/assembler/emit.c` against the decoder of `src/cpu/decode.c`.
use emylathor.Base.{
  ℕ, ◌+◌, ◌*◌, ◌/◌, ◌%◌, ◌^◌, ◌<◌, ◌≤◌, ◌≡◌, refl, ◌∙◌, Option, arith, bit_and, bit_or, u8,
}
use emylathor.Base.Bits.Shift.{bit_and-mask, bit_or-add}
use emylathor.Machine.{Instruction}
use emylathor.Decode.{decode_bytes}
use emylathor.Decode.Laws.{decode_bytes-eq}
use emylathor.Emit.{
  EmitContext, Emitted, emitted, emit_bytes, emit_fmt_i, emit_fmt_ii, emit_fmt_iii, emit_fmt_iv,
  emit_fmt_v, emit_fmt_vi, emit_fmt_vii, emit_fmt_viii,
}
use emylathor.Emit.Buffer.{IsAligned, available, emit_bytes_lem}

-- What the emulator decodes from the four bytes at a position.
abbrev pub instruction_at : ℕ → EmitContext → Instruction
instruction_at p ctx =
    decode_bytes (ctx.buf p) (ctx.buf (p + 1)) (ctx.buf (p + 2)) (ctx.buf (p + 3))

-- The four numbers from a position on are bytes.
abbrev pub AreBytes : ℕ → EmitContext → Type 0
AreBytes p ctx =
    (ctx.buf p < 2 ^ 8)
    × (ctx.buf (p + 1) < 2 ^ 8)
    × (ctx.buf (p + 2) < 2 ^ 8)
    × (ctx.buf (p + 3) < 2 ^ 8)

-- An instruction is emitted at the position of an aligned buffer, behind what stands there, and is
-- decoded as the given one.
abbrev pub Emits : EmitContext → Instruction → Emitted EmitContext → Type 0
Emits ctx ins r =
    (ctx₁ : EmitContext) × (r ≡ emitted ctx₁)
    × IsAligned ctx₁
    × (ctx₁.pos ≡ ctx.pos + 4)
    × (instruction_at ctx.pos ctx₁ ≡ ins)
    × ((i : ℕ) → i < ctx.pos → ctx₁.buf i ≡ ctx.buf i)
    × (ctx₁.size ≤ ctx.size + 512)
    × AreBytes ctx.pos ctx₁

module _ (fresh : ℕ → ℕ → ℕ) (ctx : EmitContext) (aligned : IsAligned ctx)
    (small : ctx.size + 512 < 2 ^ 32) (prefix condition opcode : ℕ) (hp : prefix < 2 ^ 2)
    (hc : condition < 2 ^ 4) (ho : opcode < 2 ^ 6) where
  emits :
      (b1 b2 b3 b4 : ℕ)
      → Emits ctx
          (decode_bytes (u8 b1) (u8 b2) (u8 b3) (u8 b4))
          (emit_bytes (available fresh) b1 b2 b3 b4 ctx)
  emits b1 b2 b3 b4 =
      let (ctx₁, done, again, at, e1, e2, e3, e4, kept, size) =
        emit_bytes_lem fresh b1 b2 b3 b4 ctx aligned small in
      (
        ctx₁,
        done,
        again,
        at,
        simp (e1, e2, e3, e4),
        kept,
        size,
        (omega (arith, e1), omega (arith, e2), omega (arith, e3), omega (arith, e4)),
      )

  -- Format II with fields in range, emitted into an aligned dynamic buffer below 4 GB,
  -- with memory available, puts four bytes at its position that decode to the same opcode, prefix,
  -- condition and three registers, keeps what was emitted
  -- before, and leaves the buffer aligned.
  pub emit_fmt_ii-decode :
      (dst a b : ℕ)
      → dst < 2 ^ 4
      → a < 2 ^ 4
      → b < 2 ^ 4
      → Emits ctx
          (record {
            opcode = opcode;
            dst = dst;
            opa = a;
            opb = b;
            imm12 = b * 2 ^ 8;
            imm16 = a * 2 ^ 4 + b;
            prefix = prefix;
            condition = condition;
          })
          (emit_fmt_ii (available fresh) prefix condition opcode dst a b ctx)
  unfolding emit_fmt_ii
  emit_fmt_ii-decode dst a b hd ha hb =
      let (ctx₁, done, again, at, decoded, kept, size, bytes) =
        emits (bit_or (prefix * 2 ^ 6) opcode) (bit_or (condition * 2 ^ 4) dst)
          (bit_or (a * 2 ^ 4) b) 0 in
      (
        ctx₁,
        done,
        again,
        at,
        decoded
            ∙ decode_bytes-eq _ _ _ _ (omega arith) (omega arith)
            ∙ grind (
              arith,
              bit_or-add 6 prefix opcode ho,
              bit_or-add 4 condition dst hd,
              bit_or-add 4 a b hb,
            ),
        kept,
        size,
        bytes,
      )

  -- Format III with fields in range, emitted into an aligned dynamic buffer below 4 GB,
  -- with memory available, puts four bytes at its position that decode to the same opcode, prefix,
  -- condition, two registers and 12-bit data, keeps what was emitted
  -- before, and leaves the buffer aligned.
  pub emit_fmt_iii-decode :
      (dst a imm12 : ℕ)
      → dst < 2 ^ 4
      → a < 2 ^ 4
      → imm12 < 2 ^ 12
      → Emits ctx
          (record {
            opcode = opcode;
            dst = dst;
            opa = a;
            opb = imm12 / 2 ^ 8;
            imm12 = imm12;
            imm16 = imm12 % 2 ^ 8 * 2 ^ 8 + (a * 2 ^ 4 + imm12 / 2 ^ 8);
            prefix = prefix;
            condition = condition;
          })
          (emit_fmt_iii (available fresh) prefix condition opcode dst a imm12 ctx)
  unfolding emit_fmt_iii
  emit_fmt_iii-decode dst a imm12 hd ha hi =
      let h8 : imm12 / 2 ^ 8 < 2 ^ 4 = omega arith in
      let (ctx₁, done, again, at, decoded, kept, size, bytes) =
        emits (bit_or (prefix * 2 ^ 6) opcode) (bit_or (condition * 2 ^ 4) dst)
          (bit_or (a * 2 ^ 4) (imm12 / 2 ^ 8)) (bit_and imm12 0xff) in
      (
        ctx₁,
        done,
        again,
        at,
        decoded
            ∙ decode_bytes-eq _ _ _ _ (omega arith) (omega arith)
            ∙ grind (
              arith,
              bit_or-add 6 prefix opcode ho,
              bit_or-add 4 condition dst hd,
              bit_or-add 4 a (imm12 / 2 ^ 8) h8,
              bit_and-mask 8 imm12,
            ),
        kept,
        size,
        bytes,
      )

  -- Format IV with fields in range, emitted into an aligned dynamic buffer below 4 GB,
  -- with memory available, puts four bytes at its position that decode to the same opcode, prefix,
  -- condition, register and 16-bit data, keeps what was emitted
  -- before, and leaves the buffer aligned.
  pub emit_fmt_iv-decode :
      (dst imm16 : ℕ)
      → dst < 2 ^ 4
      → imm16 < 2 ^ 16
      → Emits ctx
          (record {
            opcode = opcode;
            dst = dst;
            opa = imm16 % 2 ^ 8 / 2 ^ 4;
            opb = imm16 % 2 ^ 4;
            imm12 = imm16 % 2 ^ 4 * 2 ^ 8 + imm16 / 2 ^ 8;
            imm16 = imm16;
            prefix = prefix;
            condition = condition;
          })
          (emit_fmt_iv (available fresh) prefix condition opcode dst imm16 ctx)
  unfolding emit_fmt_iv
  emit_fmt_iv-decode dst imm16 hd hi =
      let (ctx₁, done, again, at, decoded, kept, size, bytes) =
        emits (bit_or (prefix * 2 ^ 6) opcode) (bit_or (condition * 2 ^ 4) dst) (bit_and imm16 0xff)
          (imm16 / 2 ^ 8) in
      (
        ctx₁,
        done,
        again,
        at,
        decoded
            ∙ decode_bytes-eq _ _ _ _ (omega arith) (omega arith)
            ∙ grind (
              arith,
              bit_or-add 6 prefix opcode ho,
              bit_or-add 4 condition dst hd,
              bit_and-mask 8 imm16,
            ),
        kept,
        size,
        bytes,
      )

-- The formats without some of the operands emit what the ones with all operands emit for zeros: I, V
-- and VI for II, VII for III, and VIII for IV, whatever the buffer and `realloc`.
pub short_formats :
    (realloc : ℕ → Option (ℕ → ℕ)) (prefix condition opcode x y : ℕ) (ctx : EmitContext)
    → (emit_fmt_i realloc prefix condition opcode ctx
        ≡ emit_fmt_ii realloc prefix condition opcode 0 0 0 ctx)
      × (emit_fmt_v realloc prefix condition opcode x ctx
          ≡ emit_fmt_ii realloc prefix condition opcode x 0 0 ctx)
      × (emit_fmt_vi realloc prefix condition opcode x y ctx
          ≡ emit_fmt_ii realloc prefix condition opcode 0 x y ctx)
      × (emit_fmt_vii realloc prefix condition opcode x y ctx
          ≡ emit_fmt_iii realloc prefix condition opcode 0 x y ctx)
      × (emit_fmt_viii realloc prefix condition opcode x ctx
          ≡ emit_fmt_iv realloc prefix condition opcode 0 x ctx)
unfolding emit_fmt_i emit_fmt_ii emit_fmt_iii emit_fmt_iv emit_fmt_v emit_fmt_vi emit_fmt_vii
    emit_fmt_viii
short_formats realloc prefix condition opcode x y ctx = (refl, refl, refl, refl, refl)
