-- ===== src/Emit/Load32/Emits.antt =====
-- What LOAD32 emits.
use emylathor.Base.{
  ℕ, ◌+◌, ◌*◌, ◌/◌, ◌%◌, ◌^◌, ◌<◌, ◌≤◌, ◌≡◌, sym, ap, ◌∙◌, true, arith, ltb, if◌then◌else◌, u8,
}
use emylathor.Base.Bits.Shift.{bit_and-mask}
use emylathor.Machine.{Instruction}
use emylathor.Emit.{EmitContext, Emitted, emitted, ◌>=>◌, emit_fmt_iv, emit_fmt_vi}
use emylathor.Emit.Buffer.{IsAligned, available}
use emylathor.Emit.Encode.{
  instruction_at, Emits, emit_fmt_ii-decode, emit_fmt_iv-decode, short_formats,
}
use emylathor.Emit.Labels.{op_loadi, lword_from_dword, hword_from_dword}
use emylathor.Emit.Labels.Order.{loads}
use emylathor.Emit.Labels.Resolve.{instruction_at-kept}
use emylathor.Emit.Load32.{op_xchg, exchange, load32}

-- XCHG R7 with a register.
abbrev pub exchanges : ℕ → ℕ → Instruction
exchanges cond r = record {
  opcode = op_xchg;
  dst = 0;
  opa = 7;
  opb = r;
  imm12 = r * 2 ^ 8;
  imm16 = 7 * 2 ^ 4 + r;
  prefix = 0;
  condition = cond;
}

-- The four instructions of a LOAD32 into a register beyond the first eight.
abbrev pub HoldsLoad32 : ℕ → ℕ → ℕ → ℕ → EmitContext → Type 0
HoldsLoad32 p cond r val ctx =
    (instruction_at p ctx ≡ exchanges cond r)
    × (instruction_at (p + 4) ctx ≡ loads cond 14 (val % 2 ^ 16))
    × (instruction_at (p + 8) ctx ≡ loads cond 15 (val / 2 ^ 16))
    × (instruction_at (p + 12) ctx ≡ exchanges cond r)

module _ (fresh : ℕ → ℕ → ℕ) (cond : ℕ) (hc : cond < 2 ^ 4) where
  exchange-Emits :
      (r : ℕ) (ctx : EmitContext)
      → 8 ≤ r
      → r < 2 ^ 4
      → IsAligned ctx
      → ctx.size + 512 < 2 ^ 32
      → Emits ctx (exchanges cond r) (exchange (available fresh) cond r ctx)
  unfolding exchange
  exchange-Emits r ctx h hr a l =
      let high : ltb 7 r ≡ true = ground arith in
      let (same_i, same_v, same_vi, same_vii, same_viii) =
        short_formats (available fresh) 0 cond op_xchg 7 r ctx in
      let (ctx₁, done, again, at, decoded, kept, size, bytes) =
        emit_fmt_ii-decode fresh ctx a l 0 cond op_xchg (omega arith) hc (omega arith) 0 7 r
          (omega arith) (omega arith) hr in
      (
        ctx₁,
        ap (λ t. if t then emit_fmt_vi (available fresh) 0 cond op_xchg 7 r ctx else emitted ctx)
              high
            ∙ same_vi
            ∙ done,
        again,
        at,
        decoded,
        kept,
        size,
        bytes,
      )

  pub load32-Emits :
      (r val : ℕ) (ctx : EmitContext)
      → 8 ≤ r
      → r < 2 ^ 4
      → val < 2 ^ 32
      → IsAligned ctx
      → ctx.size + 2048 < 2 ^ 32
      → (ctx₁ : EmitContext) × (load32 (available fresh) cond r val ctx ≡ emitted ctx₁)
        × IsAligned ctx₁
        × (ctx₁.pos ≡ ctx.pos + 16)
        × HoldsLoad32 ctx.pos cond r val ctx₁
        × ((i : ℕ) → i < ctx.pos → ctx₁.buf i ≡ ctx.buf i)
  unfolding load32
  load32-Emits r val ctx h hr hv a l =
      let low : lword_from_dword val ≡ val % 2 ^ 16 = bit_and-mask 16 val in
      let high : hword_from_dword val ≡ val / 2 ^ 16 =
        omega (arith, bit_and-mask 16 (val / 2 ^ 16)) in
      let is_high : ltb 7 r ≡ true = ground arith in
      let (c1, d1, a1, p1, i1, k1, s1, y1) = exchange-Emits r ctx h hr a (omega arith) in
      let (c2, d2, a2, p2, i2, k2, s2, y2) =
        emit_fmt_iv-decode fresh c1 a1 (omega (arith, s1)) 1 cond op_loadi (omega arith) hc
          (omega arith) 14 (val % 2 ^ 16) (omega arith) (omega arith) in
      let (c3, d3, a3, p3, i3, k3, s3, y3) =
        emit_fmt_iv-decode fresh c2 a2 (omega (arith, s1, s2)) 1 cond op_loadi (omega arith) hc
          (omega arith) 15 (val / 2 ^ 16) (omega arith) (omega arith) in
      let (c4, d4, a4, p4, i4, k4, s4, y4) =
        exchange-Emits r c3 h hr a3 (omega (arith, s1, s2, s3)) in
      let here2 : c1.pos ≡ ctx.pos + 4 = p1 in
      let here3 : c2.pos ≡ ctx.pos + 8 = omega (arith, p1, p2) in
      let here4 : c3.pos ≡ ctx.pos + 12 = omega (arith, p1, p2, p3) in
      let call : ℕ → ℕ → ℕ → Emitted EmitContext = λ reg lo hi.
        exchange (available fresh) cond r ctx
        >=> emit_fmt_iv (available fresh) 1 cond op_loadi reg lo
        >=> emit_fmt_iv (available fresh) 1 cond op_loadi (u8 (reg + 1)) hi
        >=> exchange (available fresh) cond r in
      let keep3 : (i : ℕ) → i < c2.pos → c4.buf i ≡ c2.buf i =
        λ i k. k4 i (omega (arith, p3)) ∙ k3 i k in
      let keep2 : (i : ℕ) → i < c1.pos → c4.buf i ≡ c1.buf i =
        λ i k. keep3 i (omega (arith, p2)) ∙ k2 i k in
      let put_low = emit_fmt_iv (available fresh) 1 cond op_loadi 14 (val % 2 ^ 16) in
      let put_high = emit_fmt_iv (available fresh) 1 cond op_loadi 15 (val / 2 ^ 16) in
      let put_back = exchange (available fresh) cond r in
      (
        c4,
        ap
              (λ t.
                call (if t then 7 * 2 else u8 (r * 2)) (lword_from_dword val)
                  (hword_from_dword val))
              is_high
            ∙ ap (λ w. call 14 w (hword_from_dword val)) low
            ∙ ap (λ w. call 14 (val % 2 ^ 16) w) high
            ∙ ap (λ x. x >=> put_low >=> put_high >=> put_back) d1
            ∙ ap (λ x. x >=> put_high >=> put_back) d2
            ∙ ap (λ x. x >=> put_back) d3
            ∙ d4,
        a4,
        omega (arith, p1, p2, p3, p4),
        (
          instruction_at-kept ctx.pos c1 c4 (λ i from to. keep2 i (omega (arith, p1))) ∙ i1,
          ap (λ p. instruction_at p c4) (sym here2)
              ∙ instruction_at-kept c1.pos c2 c4 (λ i from to. keep3 i (omega (arith, p2)))
              ∙ i2,
          ap (λ p. instruction_at p c4) (sym here3)
              ∙ instruction_at-kept c2.pos c3 c4 (λ i from to. k4 i (omega (arith, p3)))
              ∙ i3,
          ap (λ p. instruction_at p c4) (sym here4) ∙ i4,
        ),
        λ i k. keep2 i (omega (arith, p1)) ∙ k1 i k,
      )
