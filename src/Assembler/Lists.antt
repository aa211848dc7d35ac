-- ===== src/Assembler/Lists.antt =====
-- What the disassembler prints of the bytes that a statement is assembled to.
use emylathor.Base.{ℕ, ◌+◌, ◌<◌, ◌≤◌, ◌≡◌, ap, ◌∙◌}
use emylathor.Machine.{Instruction}
use emylathor.Disassembler.Arguments.{Disassembly}
use emylathor.Disassembler.Arguments.Laws.{shown, shown_lem}
use emylathor.Disassembler.Program.{disasm_at}
use emylathor.Emit.{EmitContext, Emitted, emitted}
use emylathor.Emit.Buffer.{IsAligned}
use emylathor.Emit.Encode.{Emits}

-- A call emits four bytes, which are listed as a line, behind what stands in an aligned buffer.
abbrev pub Lists : EmitContext → Disassembly → Emitted EmitContext → Type 0
Lists ctx d r =
    (ctx₁ : EmitContext) × (r ≡ emitted ctx₁)
    × IsAligned ctx₁
    × (ctx₁.pos ≡ ctx.pos + 4)
    × (disasm_at ctx₁.buf ctx.pos ≡ d)
    × ((i : ℕ) → i < ctx.pos → ctx₁.buf i ≡ ctx.buf i)
    × (ctx₁.size ≤ ctx.size + 512)

pub Emits-Lists :
    (ctx : EmitContext) (ins : Instruction) (r : Emitted EmitContext)
    → Emits ctx ins r
    → Lists ctx (shown ins) r
unfolding disasm_at
Emits-Lists ctx ins r (ctx₁, done, again, at, decoded, kept, size, (h0, h1, h2, h3)) =
    (ctx₁, done, again, at, shown_lem _ _ _ _ h0 h1 h2 h3 ∙ ap shown decoded, kept, size)
