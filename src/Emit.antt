-- ===== src/Emit.antt =====
-- `src/assembler/emit.c`: the buffer that the assembler emits into and the eight instruction formats.
--
-- `realloc` belongs to the C library. It is a parameter here: for a size, nothing (NULL), or what the
-- bytes beyond the old block hold.
pub mod Encode
pub mod Buffer
pub mod Rewrite
pub mod Labels
pub mod Bytes
pub mod Loaded
pub mod Load32
use emylathor.Base.{
  ℕ, ◌+◌, ◌-◌, ◌*◌, ◌/◌, ◌^◌, Bool, true, false, Option, none, some, ◌==◌, ◌&&◌, ltb, leb,
  if◌then◌else◌, bit_and, bit_or, u8, u32, ◌<<<◌, ◌>>>◌,
}
use emylathor.Machine.{store}

abbrev pub dynamic_buffer_size : ℕ
dynamic_buffer_size = 512

-- `emit_context`, without the labels. `allocated` is the size of the block that `buf` points to, which C
-- does not record.
pub record EmitContext : Type 0 where
  pub buf : ℕ → ℕ
  pub allocated : ℕ
  pub buf_len_fixed : Bool
  pub pos : ℕ
  pub highest_pos : ℕ
  pub size : ℕ

-- A call returns, the assembler exits with a status, or what the call does is undefined in C: it
-- accesses memory outside the block, or divides by zero.
pub data Emitted {ℓ} (A : Type ℓ) : Type ℓ where
  emitted : A → Emitted A
  exited : ℕ → Emitted A
  overran : Emitted A

infixl 5 ◌>=>◌
abbrev pub ◌>=>◌ {ℓ κ} : {A : Type ℓ} {B : Type κ} → Emitted A → (A → Emitted B) → Emitted B
emitted ctx >=> f = f ctx
exited n >=> f = exited n
overran >=> f = overran

pub set_highest_position : EmitContext → Emitted EmitContext
set_highest_position ctx =
    emitted (if ltb ctx.highest_pos ctx.pos then record ctx { highest_pos = ctx.pos } else ctx)

-- `ctx->buf[ctx->pos++] = b`
pub put : ℕ → EmitContext → Emitted EmitContext
put b ctx =
    if ltb ctx.pos ctx.allocated
    then emitted (record ctx { buf = store ctx.buf ctx.pos (u8 b); pos = u32 (ctx.pos + 1) })
    else overran

-- `memset(&ctx->buf[ctx->pos], 0, DYNAMIC_BUFFER_SIZE)`
pub clear_block : EmitContext → Emitted EmitContext
clear_block ctx =
    if leb (ctx.pos + dynamic_buffer_size) ctx.allocated
    then emitted (record ctx {
      buf = λ i. if leb ctx.pos i && ltb i (ctx.pos + dynamic_buffer_size) then 0 else ctx.buf i;
    })
    else overran

module _ (realloc : ℕ → Option (ℕ → ℕ)) where
  -- The growth of a dynamic buffer by a block.
  pub grow : EmitContext → Emitted EmitContext
  unfolding clear_block
  grow ctx =
      let new_size = (ctx.highest_pos / dynamic_buffer_size + 1) * dynamic_buffer_size in
      elim (realloc new_size) [
        | none ↦ exited 2
        | some fresh ↦
            clear_block (record ctx {
              buf = λ i. if ltb i ctx.allocated then ctx.buf i else fresh i;
              allocated = new_size;
            })
            >=> λ ctx₁. emitted (record ctx₁ { size = u32 (ctx₁.size + dynamic_buffer_size) })
      ]

  -- `yyerror` exits with -1, of which the status keeps 8 bits.
  pub handle_exceeding_buffer : ℕ → EmitContext → Emitted EmitContext
  unfolding grow
  handle_exceeding_buffer required_size ctx =
      if ltb (u32 (ctx.pos + required_size + 2 ^ 32 - 1)) ctx.size
      then emitted ctx
      else if ctx.buf_len_fixed
      then exited 255
      else grow ctx

  pub emit_byte : ℕ → EmitContext → Emitted EmitContext
  unfolding handle_exceeding_buffer put set_highest_position
  emit_byte b ctx = handle_exceeding_buffer 1 ctx >=> put b >=> set_highest_position

  -- What the eight formats have in common.
  unfoldable pub emit_bytes : ℕ → ℕ → ℕ → ℕ → EmitContext → Emitted EmitContext
  unfolding handle_exceeding_buffer put set_highest_position
  emit_bytes b1 b2 b3 b4 ctx =
      handle_exceeding_buffer 4 ctx
      >=> put b1
      >=> put b2
      >=> put b3
      >=> put b4
      >=> set_highest_position

  unfoldable pub emit_fmt_i : ℕ → ℕ → ℕ → EmitContext → Emitted EmitContext
  unfolding emit_bytes
  emit_fmt_i prefix condition opcode =
      emit_bytes (bit_or (prefix <<< 6) opcode) (bit_or (condition <<< 4) 0x00) 0x00 0x00

  unfoldable pub emit_fmt_ii : ℕ → ℕ → ℕ → ℕ → ℕ → ℕ → EmitContext → Emitted EmitContext
  unfolding emit_bytes
  emit_fmt_ii prefix condition opcode dst a b =
      emit_bytes (bit_or (prefix <<< 6) opcode) (bit_or (condition <<< 4) dst) (bit_or (a <<< 4) b)
        0x00

  unfoldable pub emit_fmt_iii : ℕ → ℕ → ℕ → ℕ → ℕ → ℕ → EmitContext → Emitted EmitContext
  unfolding emit_bytes
  emit_fmt_iii prefix condition opcode dst a imm12 =
      emit_bytes (bit_or (prefix <<< 6) opcode) (bit_or (condition <<< 4) dst)
        (bit_or (a <<< 4) (imm12 >>> 8)) (bit_and imm12 0x00ff)

  unfoldable pub emit_fmt_iv : ℕ → ℕ → ℕ → ℕ → ℕ → EmitContext → Emitted EmitContext
  unfolding emit_bytes
  emit_fmt_iv prefix condition opcode dst imm16 =
      emit_bytes (bit_or (prefix <<< 6) opcode) (bit_or (condition <<< 4) dst)
        (bit_and imm16 0x00ff) (imm16 >>> 8)

  unfoldable pub emit_fmt_v : ℕ → ℕ → ℕ → ℕ → EmitContext → Emitted EmitContext
  unfolding emit_bytes
  emit_fmt_v prefix condition opcode dst =
      emit_bytes (bit_or (prefix <<< 6) opcode) (bit_or (condition <<< 4) dst) 0x00 0x00

  unfoldable pub emit_fmt_vi : ℕ → ℕ → ℕ → ℕ → ℕ → EmitContext → Emitted EmitContext
  unfolding emit_bytes
  emit_fmt_vi prefix condition opcode a b =
      emit_bytes (bit_or (prefix <<< 6) opcode) (bit_or (condition <<< 4) 0x00) (bit_or (a <<< 4) b)
        0x00

  unfoldable pub emit_fmt_vii : ℕ → ℕ → ℕ → ℕ → ℕ → EmitContext → Emitted EmitContext
  unfolding emit_bytes
  emit_fmt_vii prefix condition opcode a imm12 =
      emit_bytes (bit_or (prefix <<< 6) opcode) (bit_or (condition <<< 4) 0x00)
        (bit_or (a <<< 4) (imm12 >>> 8)) (bit_and imm12 0x00ff)

  unfoldable pub emit_fmt_viii : ℕ → ℕ → ℕ → ℕ → EmitContext → Emitted EmitContext
  unfolding emit_bytes
  emit_fmt_viii prefix condition opcode imm16 =
      emit_bytes (bit_or (prefix <<< 6) opcode) (bit_or (condition <<< 4) 0x00)
        (bit_and imm16 0x00ff) (imm16 >>> 8)
