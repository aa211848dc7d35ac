-- ===== src/Registers/Laws.antt =====
-- The registers of one size behave as separate variables, and the sizes overlay one another.
use emylathor.Base.{ℕ, ◌+◌, ◌*◌, ◌/◌, ◌%◌, ◌^◌, ◌<◌, ◌≡◌, ◌≢◌, ◌==◌, ap, ◌∙◌, if◌then◌else◌, arith}
use emylathor.Base.Bits.Field.{
  get_field, set_field, get_field_lem, shifted-lt, set_field-lt, get_field-set_field,
  get_field-set_field_ne,
}
use native.Mathlib.Decide.{ℕ_discrete}
use emylathor.Machine.{AreDwords}
use emylathor.Registers.{cpu_get_byte_reg, cpu_set_byte_reg, cpu_get_word_reg, cpu_set_word_reg}

get_byte_lem :
    (r : ℕ) (regs : ℕ → ℕ) → cpu_get_byte_reg r regs ≡ get_field 8 (r % 4 * 8) (regs (r / 4))
unfolding cpu_get_byte_reg
get_byte_lem r regs = omega (arith, get_field_lem 8 (r % 4 * 8) (regs (r / 4)))

set_byte_lem :
    (r v : ℕ) (regs : ℕ → ℕ) (j : ℕ)
    → v < 2 ^ 8
    → cpu_set_byte_reg r v regs j
      ≡ (if r / 4 == j then set_field 8 (r % 4 * 8) (regs (r / 4)) v else regs j)
unfolding cpu_set_byte_reg
set_byte_lem r v regs j hv = ground (
  arith,
  shifted-lt 8 (r % 4 * 8) 0xff (omega arith) (omega arith),
  shifted-lt 8 (r % 4 * 8) v (omega arith) hv,
)

get_word_lem :
    (r : ℕ) (regs : ℕ → ℕ) → cpu_get_word_reg r regs ≡ get_field 16 (r % 2 * 16) (regs (r / 2))
unfolding cpu_get_word_reg
get_word_lem r regs = omega (arith, get_field_lem 16 (r % 2 * 16) (regs (r / 2)))

set_word_lem :
    (r v : ℕ) (regs : ℕ → ℕ) (j : ℕ)
    → v < 2 ^ 16
    → cpu_set_word_reg r v regs j
      ≡ (if r / 2 == j then set_field 16 (r % 2 * 16) (regs (r / 2)) v else regs j)
unfolding cpu_set_word_reg
set_word_lem r v regs j hv = ground (
  arith,
  shifted-lt 16 (r % 2 * 16) 0xffff (omega arith) (omega arith),
  shifted-lt 16 (r % 2 * 16) v (omega arith) hv,
)

-- A byte register reads back the byte that was put into it, and every other byte register keeps
-- its value, those of the same dword included.
pub cpu_get_byte_reg-cpu_set_byte_reg :
    (r r' v : ℕ) (regs : ℕ → ℕ)
    → AreDwords regs
    → v < 2 ^ 8
    → cpu_get_byte_reg r' (cpu_set_byte_reg r v regs)
      ≡ (if r == r' then v else cpu_get_byte_reg r' regs)
cpu_get_byte_reg-cpu_set_byte_reg r r' v regs hr hv = ground (
  arith,
  get_byte_lem r' (cpu_set_byte_reg r v regs),
  get_byte_lem r' regs,
  set_byte_lem r v regs (r' / 4) hv,
  get_field-set_field 8 (r % 4 * 8) (regs (r / 4)) v (omega arith) (hr (r / 4)) hv,
  get_field-set_field_ne 8 (r % 4 * 8) (regs (r / 4)) v (omega arith) (hr (r / 4)) hv (r' % 4 * 8),
)

-- The same of the word registers.
pub cpu_get_word_reg-cpu_set_word_reg :
    (r r' v : ℕ) (regs : ℕ → ℕ)
    → AreDwords regs
    → v < 2 ^ 16
    → cpu_get_word_reg r' (cpu_set_word_reg r v regs)
      ≡ (if r == r' then v else cpu_get_word_reg r' regs)
cpu_get_word_reg-cpu_set_word_reg r r' v regs hr hv = ground (
  arith,
  get_word_lem r' (cpu_set_word_reg r v regs),
  get_word_lem r' regs,
  set_word_lem r v regs (r' / 2) hv,
  get_field-set_field 16 (r % 2 * 16) (regs (r / 2)) v (omega arith) (hr (r / 2)) hv,
  get_field-set_field_ne 16 (r % 2 * 16) (regs (r / 2)) v (omega arith) (hr (r / 2)) hv
      (r' % 2 * 16),
)

word_value :
    (r : ℕ) (regs : ℕ → ℕ) (i p : ℕ)
    → r / 2 ≡ i
    → r % 2 * 16 ≡ p
    → cpu_get_word_reg r regs ≡ regs i / 2 ^ p % 2 ^ 16
word_value r regs i p e f = rw (get_word_lem, e, f) (get_field_lem 16 p (regs i))

byte_value :
    (r : ℕ) (regs : ℕ → ℕ) (i p : ℕ)
    → r / 4 ≡ i
    → r % 4 * 8 ≡ p
    → cpu_get_byte_reg r regs ≡ regs i / 2 ^ p % 2 ^ 8
byte_value r regs i p e f = rw (get_byte_lem, e, f) (get_field_lem 8 p (regs i))

word_of_bytes :
    (w : ℕ) (regs : ℕ → ℕ)
    → cpu_get_word_reg w regs
      ≡ cpu_get_byte_reg (2 * w) regs + cpu_get_byte_reg (2 * w + 1) regs * 2 ^ 8
word_of_bytes w regs = elim (ℕ_discrete (w % 2) 0) [
  | yes e ↦ omega (
    arith,
    word_value w regs (w / 2) 0 (omega arith) (omega arith),
    byte_value (2 * w) regs (w / 2) 0 (omega arith) (omega arith),
    byte_value (2 * w + 1) regs (w / 2) 8 (omega arith) (omega arith),
  )
  | no ne ↦ omega (
    arith,
    word_value w regs (w / 2) 16 (omega arith) (omega arith),
    byte_value (2 * w) regs (w / 2) 16 (omega arith) (omega arith),
    byte_value (2 * w + 1) regs (w / 2) 24 (omega arith) (omega arith),
  )
]

-- A dword register is its two word registers, and a word register its two byte registers, the low
-- one first.
pub registers_overlay :
    (r w : ℕ) (regs : ℕ → ℕ)
    → AreDwords regs
    → (regs r ≡ cpu_get_word_reg (2 * r) regs + cpu_get_word_reg (2 * r + 1) regs * 2 ^ 16)
      × (cpu_get_word_reg w regs
          ≡ cpu_get_byte_reg (2 * w) regs + cpu_get_byte_reg (2 * w + 1) regs * 2 ^ 8)
registers_overlay r w regs hr = (
  omega (
    arith,
    hr r,
    word_value (2 * r) regs r 0 (omega arith) (omega arith),
    word_value (2 * r + 1) regs r 16 (omega arith) (omega arith),
  ),
  word_of_bytes w regs,
)

-- Setting a byte or word register leaves dwords in the registers.
pub cpu_set_byte_reg-AreDwords :
    (r v : ℕ) (regs : ℕ → ℕ) → AreDwords regs → v < 2 ^ 8 → AreDwords (cpu_set_byte_reg r v regs)
cpu_set_byte_reg-AreDwords r v regs hr hv = λ j. ground (
  arith,
  set_byte_lem r v regs j hv,
  hr j,
  set_field-lt 8 (r % 4 * 8) (regs (r / 4)) v (omega arith) (hr (r / 4)) hv,
)

pub cpu_set_word_reg-AreDwords :
    (r v : ℕ) (regs : ℕ → ℕ) → AreDwords regs → v < 2 ^ 16 → AreDwords (cpu_set_word_reg r v regs)
cpu_set_word_reg-AreDwords r v regs hr hv = λ j. ground (
  arith,
  set_word_lem r v regs j hv,
  hr j,
  set_field-lt 16 (r % 2 * 16) (regs (r / 2)) v (omega arith) (hr (r / 2)) hv,
)

-- In registers of 32 bits: after a byte register has been set it holds the byte, and every other byte
-- register what it held; the same of word registers. A word register is then the number of its two
-- bytes, the low one first, and a dword register that of its two words.
pub sub_registers_lem :
    (r s b w : ℕ) (regs : ℕ → ℕ)
    → AreDwords regs
    → b < 2 ^ 8
    → w < 2 ^ 16
    → (cpu_get_byte_reg s (cpu_set_byte_reg r b regs)
        ≡ (if r == s then b else cpu_get_byte_reg s regs))
      × (cpu_get_word_reg s (cpu_set_word_reg r w regs)
          ≡ (if r == s then w else cpu_get_word_reg s regs))
      × (cpu_get_word_reg s (cpu_set_byte_reg r b regs)
          ≡ (if r == 2 * s then b else cpu_get_byte_reg (2 * s) regs)
            + (if r == 2 * s + 1 then b else cpu_get_byte_reg (2 * s + 1) regs) * 2 ^ 8)
      × (cpu_set_byte_reg r b regs s
          ≡ cpu_get_word_reg (2 * s) (cpu_set_byte_reg r b regs)
            + cpu_get_word_reg (2 * s + 1) (cpu_set_byte_reg r b regs) * 2 ^ 16)
sub_registers_lem r s b w regs hr hb hw =
    let bytes = cpu_set_byte_reg r b regs in
    let d = cpu_set_byte_reg-AreDwords r b regs hr hb in
    let get : (k : ℕ) → cpu_get_byte_reg k bytes ≡ (if r == k then b else cpu_get_byte_reg k regs) =
      λ k. cpu_get_byte_reg-cpu_set_byte_reg r k b regs hr hb in
    let overlay = registers_overlay s s bytes d in
    (
      get s,
      cpu_get_word_reg-cpu_set_word_reg r s w regs hr hw,
      overlay.1
          ∙ ap (λ x. x + cpu_get_byte_reg (2 * s + 1) bytes * 2 ^ 8) (get (2 * s))
          ∙ ap (λ x. (if r == 2 * s then b else cpu_get_byte_reg (2 * s) regs) + x * 2 ^ 8)
              (get (2 * s + 1)),
      overlay.0,
    )

pub byte_reg-lt : (r : ℕ) (regs : ℕ → ℕ) → cpu_get_byte_reg r regs < 2 ^ 8
unfolding cpu_get_byte_reg
byte_reg-lt r regs = omega arith

pub word_reg-lt : (r : ℕ) (regs : ℕ → ℕ) → cpu_get_word_reg r regs < 2 ^ 16
unfolding cpu_get_word_reg
word_reg-lt r regs = omega arith

-- A word register is part of one register.
pub cpu_set_word_reg-other :
    (r v : ℕ) (regs : ℕ → ℕ) (j : ℕ) → r / 2 ≢ j → cpu_set_word_reg r v regs j ≡ regs j
unfolding cpu_set_word_reg
cpu_set_word_reg-other r v regs j h = ground arith
