-- ===== src/Emit/Load32.antt =====
-- The action of the pseudo instruction LOAD32 of `src/assembler/vasm.y`, which loads a dword into a
-- register: the word registers reach only the first eight, so that another one is exchanged with R7.
pub mod Emits
pub mod Run
use emylathor.Base.{ℕ, ◌+◌, ◌*◌, Option, ltb, if◌then◌else◌, u8}
use emylathor.Emit.{EmitContext, Emitted, emitted, ◌>=>◌, emit_fmt_iv, emit_fmt_vi}
use emylathor.Emit.Labels.{op_loadi, lword_from_dword, hword_from_dword}

abbrev pub op_xchg : ℕ
op_xchg = 0x20

module _ (realloc : ℕ → Option (ℕ → ℕ)) (cond : ℕ) where
  -- The exchange, if there is one.
  pub exchange : ℕ → EmitContext → Emitted EmitContext
  unfolding emit_fmt_vi
  exchange r ctx = if ltb 7 r then emit_fmt_vi realloc 0 cond op_xchg 7 r ctx else emitted ctx

  unfoldable pub load32 : ℕ → ℕ → EmitContext → Emitted EmitContext
  unfolding exchange emit_fmt_iv
  load32 r val ctx =
      let reg = if ltb 7 r then 7 * 2 else u8 (r * 2) in
      exchange r ctx
      >=> emit_fmt_iv realloc 1 cond op_loadi reg (lword_from_dword val)
      >=> emit_fmt_iv realloc 1 cond op_loadi (u8 (reg + 1)) (hword_from_dword val)
      >=> exchange r
