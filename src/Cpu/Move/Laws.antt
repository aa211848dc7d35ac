-- ===== src/Cpu/Move/Laws.antt =====
-- Calls and jumps, and the I/O instructions.
use emylathor.Base.{
  ℕ, ◌+◌, ◌-◌, ◌*◌, ◌/◌, ◌%◌, ◌^◌, ◌<◌, ◌≤◌, ◌≡◌, ◌≢◌, refl, ap, ◌∙◌, ◌↔◌, Option, none, some,
  arith, bit_and, u8, if◌then◌else◌, ◌==◌,
}
use emylathor.Base.Bits.Shift.{bit_and-mask}
use emylathor.Machine.{EmulatorContext, Instruction, pio_null, store, set_reg, ◌>>=◌}
use emylathor.Valid.{IsValid}
use emylathor.Registers.{cpu_set_byte_reg, cpu_set_word_reg}
use emylathor.Registers.Laws.{
  cpu_get_word_reg-cpu_set_word_reg, cpu_set_word_reg-AreDwords, cpu_set_word_reg-other,
  registers_overlay,
}
use emylathor.Pio.{pio_read, pio_write}
use emylathor.Pio.Laws.{pio_read_defined_iff, pio_write_defined, pio_read-pio_write}
use emylathor.Cpu.Operand.{prefix_imm, prefix_byte}
use emylathor.Cpu.Move.{
  cpu_reg_rc, relative_pos, ins_call, ins_jmp, ins_loadi, ins_xchg, ins_in, ins_out,
}

-- A CALL leaves the position after it in RC, so that a JMP through RC returns there. With immediate
-- data, CALL and JMP go to the same place: the data is the distance, forwards below 2 ^ 15, and
-- otherwise backwards by what it lacks to 2 ^ 16. Positions are taken modulo 2 ^ 32.
pub ins_jmp-ins_call :
    (call jump : Instruction) (e : EmulatorContext)
    → call.prefix ≡ prefix_imm
    → call.imm16 < 2 ^ 16
    → jump.prefix ≢ prefix_imm
    → jump.dst ≡ cpu_reg_rc
    → e.pos < 2 ^ 32
    → ((ins_jmp jump (ins_call call e)).pos ≡ e.pos)
      × ((ins_jmp call e).pos ≡ (ins_call call e).pos)
      × (call.imm16 < 2 ^ 15 → (ins_call call e).pos ≡ (e.pos + call.imm16) % 2 ^ 32)
      × (2 ^ 15 ≤ call.imm16
          → (ins_call call e).pos ≡ (e.pos + 2 ^ 32 - (2 ^ 16 - call.imm16)) % 2 ^ 32)
unfolding ins_jmp ins_call relative_pos
ins_jmp-ins_call call jump e hc hi hj hd hp =
    (ground arith, ground arith, λ h. ground arith, λ h. ground arith)

bind_defined {ℓ κ} :
    {A : Type ℓ} {B : Type κ} (o : Option A) (f : A → B)
    → ((o >>= λ x. some (f x)) ≢ none) ↔ (o ≢ none)
bind_defined none f = (λ h k. h refl, λ h k. h refl)
bind_defined (some x) f = (λ h. ground arith, λ h. ground arith)

-- IN reads outside the table of ports exactly when the low byte of its register is 128 or more, since
-- the mask is not applied to it; OUT, which masks it, never does.
pub ports_in_range :
    (ins : Instruction) (e : EmulatorContext)
    → ins.opb < 16
    → ((ins_in ins e ≢ none) ↔ (e.regs ins.opb % 2 ^ 8 < 128)) × (ins_out ins e ≢ none)
unfolding ins_in ins_out
ports_in_range ins e h =
    let masked : bit_and ins.opb 0x7f ≡ ins.opb = omega (arith, bit_and-mask 7 ins.opb) in
    let (defined, at) = pio_read_defined_iff (u8 (e.regs (bit_and ins.opb 0x7f))) e in
    let same = ap (λ r. u8 (e.regs r)) masked in
    let (to, from) =
      bind_defined (pio_read (u8 (e.regs (bit_and ins.opb 0x7f))) e)
        λ (x, e₁). set_reg e₁ ins.opa x in
    (
      (λ k. omega (arith, same, defined (to k)), λ k. from (at (omega (arith, same)))),
      pio_write_defined _ _ e (omega (arith, bit_and-mask 7 (e.regs ins.opa))),
    )

-- What OUT writes to a port that `pio_null` handles, IN reads back from it.
pub ins_in-ins_out :
    (out in_ : Instruction) (e : EmulatorContext)
    → e.regs out.opa < 128
    → e.ports (e.regs out.opa) ≡ some pio_null
    → in_.opb < 16
    → e.regs in_.opb ≡ e.regs out.opa
    → (ins_out out e >>= ins_in in_)
      ≡ some (set_reg (record e { latch = e.regs out.opb }) in_.opa (e.regs out.opb))
unfolding ins_in ins_out
ins_in-ins_out out in_ e h n hb same =
    let x = e.regs out.opb in
    let e₁ = record e { latch = x } in
    let port_out : u8 (bit_and (e.regs out.opa) 0x7f) ≡ e.regs out.opa =
      omega (arith, bit_and-mask 7 (e.regs out.opa)) in
    let reg_in : bit_and in_.opb 0x7f ≡ in_.opb = omega (arith, bit_and-mask 7 in_.opb) in
    let port_in : u8 (e.regs (bit_and in_.opb 0x7f)) ≡ e.regs out.opa =
      ap (λ r. u8 (e.regs r)) reg_in ∙ omega arith in
    let (wrote, read) = pio_read-pio_write (e.regs out.opa) x e h n in
    ap (λ p. pio_write p x e >>= ins_in in_) port_out
    ∙ ap (λ o. o >>= ins_in in_) wrote
    ∙ ap (λ p. pio_read p e₁ >>= λ (v, e₂). some (set_reg e₂ in_.opa v)) port_in
    ∙ ap (λ o. o >>= λ (v, e₂). some (set_reg e₂ in_.opa v)) read

word_loaded :
    (ins : Instruction) (e : EmulatorContext)
    → ins.prefix ≢ prefix_byte
    → (ins_loadi ins e).regs ≡ cpu_set_word_reg ins.dst ins.imm16 e.regs
unfolding ins_loadi
word_loaded ins e h = ground arith

-- Two LOADI that are not of a byte, into the low and the high word of a register, leave in it the dword
-- with those words, whatever it held.
pub ins_loadi-ins_loadi :
    (low high : Instruction) (r : ℕ) (e : EmulatorContext)
    → IsValid e
    → low.prefix ≢ prefix_byte
    → high.prefix ≢ prefix_byte
    → low.imm16 < 2 ^ 16
    → high.imm16 < 2 ^ 16
    → low.dst ≡ 2 * r
    → high.dst ≡ 2 * r + 1
    → (ins_loadi high (ins_loadi low e)).regs r ≡ low.imm16 + high.imm16 * 2 ^ 16
ins_loadi-ins_loadi low high r e v hl hh il ih dl dh =
    let regs₁ = cpu_set_word_reg low.dst low.imm16 e.regs in
    let d₁ = cpu_set_word_reg-AreDwords low.dst low.imm16 e.regs v.regs_dword il in
    let regs₂ = cpu_set_word_reg high.dst high.imm16 regs₁ in
    let d₂ = cpu_set_word_reg-AreDwords high.dst high.imm16 regs₁ d₁ ih in
    let loaded : (ins_loadi high (ins_loadi low e)).regs ≡ regs₂ =
      word_loaded high (ins_loadi low e) hh
      ∙ ap (cpu_set_word_reg high.dst high.imm16) (word_loaded low e hl) in
    ap (λ f. f r) loaded
    ∙ (registers_overlay r 0 regs₂ d₂).0
    ∙ ground (
      arith,
      cpu_get_word_reg-cpu_set_word_reg high.dst (2 * r) high.imm16 regs₁ d₁ ih,
      cpu_get_word_reg-cpu_set_word_reg high.dst (2 * r + 1) high.imm16 regs₁ d₁ ih,
      cpu_get_word_reg-cpu_set_word_reg low.dst (2 * r) low.imm16 e.regs v.regs_dword il,
    )

-- LOADI of a word changes the register of the word, and nothing else.
pub ins_loadi-frame :
    (ins : Instruction) (e : EmulatorContext) (r j : ℕ)
    → ins.prefix ≢ prefix_byte
    → ins.dst / 2 ≡ r
    → r ≢ j
    → (ins_loadi ins e).regs j ≡ e.regs j
ins_loadi-frame ins e r j hp hd h =
    ap (λ f. f j) (word_loaded ins e hp)
    ∙ cpu_set_word_reg-other ins.dst ins.imm16 e.regs j (ground arith)

pub ins_loadi-code :
    (ins : Instruction) (e : EmulatorContext)
    → ((ins_loadi ins e).pos ≡ e.pos)
      × ((ins_loadi ins e).memory ≡ e.memory)
      × ((ins_loadi ins e).memory_size ≡ e.memory_size)
unfolding ins_loadi
ins_loadi-code ins e = (refl, refl, refl)

pub ins_loadi-regs :
    (ins : Instruction) (e e₁ : EmulatorContext)
    → e₁.regs ≡ e.regs
    → (ins_loadi ins e₁).regs ≡ (ins_loadi ins e).regs
unfolding ins_loadi
ins_loadi-regs ins e e₁ h =
    ap
      (λ regs.
        if ins.prefix == prefix_byte
        then cpu_set_byte_reg ins.dst (bit_and ins.imm16 0x00ff) regs
        else cpu_set_word_reg ins.dst ins.imm16 regs)
      h

pub ins_xchg-eq :
    (ins : Instruction) (e : EmulatorContext)
    → ins_xchg ins e
      ≡ record e { regs = store (store e.regs ins.opa (e.regs ins.opb)) ins.opb (e.regs ins.opa) }
unfolding ins_xchg
ins_xchg-eq ins e = refl
