-- ===== src/Cpu/Flags/Laws.antt =====
-- Assigning and reading single flags; the condition codes in terms of the flags.
use emylathor.Base.{
  ℕ, ◌-◌, ◌^◌, ◌<◌, ◌≡◌, ◌≢◌, refl, ◌==◌, Bool, true, false, not, ◌&&◌, ◌||◌, if◌then◌else◌, arith,
  bit_and, bit_or,
}
use emylathor.Base.Bits.{digit, digit_bound}
use emylathor.Base.Bits.Flag.{bit_and-two_pow_ne, digit-set_bit, digit-clear_bit}
use emylathor.Base.Bits.Shift.{bit_or-lt, bit_and-lt}
use emylathor.Machine.{AreDwords, EmulatorContext, OnlyRegs, set_reg-OnlyRegs}
use emylathor.Valid.{IsValid, with_regs-IsValid}
use emylathor.Cpu.Flags.{cpu_reg_flgs, assign_flag, flag_set, condition_holds}

-- The tests of the code read one digit of the flags register.
pub flag_set-digit : (k x : ℕ) → flag_set x (2 ^ k) ≡ (digit k x == 1)
unfolding flag_set
flag_set-digit k x = ground (arith, bit_and-two_pow_ne k x, digit_bound k x)

-- The flag at place `k` of the flags register.
abbrev pub flag : ℕ → EmulatorContext → Bool
flag k e = flag_set (e.regs cpu_reg_flgs) (2 ^ k)

-- A flag reads back what was assigned to it, and every other flag keeps its value.
pub flag-assign_flag :
    (k j : ℕ) (b : Bool) (e : EmulatorContext)
    → k < 32
    → e.regs cpu_reg_flgs < 2 ^ 32
    → flag j (assign_flag (2 ^ k) b e) ≡ (if j == k then b else flag j e)
unfolding assign_flag
flag-assign_flag k j true e hk he = ground (
  arith,
  flag_set-digit j (bit_or (e.regs 15) (2 ^ k)),
  flag_set-digit j (e.regs 15),
  digit-set_bit k j (e.regs 15),
)
flag-assign_flag k j false e hk he = ground (
  arith,
  flag_set-digit j (bit_and (e.regs 15) (2 ^ 32 - 1 - 2 ^ k)),
  flag_set-digit j (e.regs 15),
  digit-clear_bit k j (e.regs 15) hk he,
)

-- Assigning a flag changes the flags register alone, and leaves a dword in it.
pub regs-assign_flag :
    (f : ℕ) (b : Bool) (e : EmulatorContext) (i : ℕ)
    → i ≢ cpu_reg_flgs
    → (assign_flag f b e).regs i ≡ e.regs i
unfolding assign_flag
regs-assign_flag f b e i h = ground arith

pub assign_flag-AreDwords :
    (f : ℕ) (b : Bool) (e : EmulatorContext)
    → f < 2 ^ 32
    → AreDwords e.regs
    → AreDwords (assign_flag f b e).regs
unfolding assign_flag
assign_flag-AreDwords f b e hf he = λ i.
    ground
      (arith, he i, he 15, bit_or-lt 32 (e.regs 15) f, bit_and-lt 32 (e.regs 15) (2 ^ 32 - 1 - f))

-- Each condition code has its negation: IZ and NZ, IS and NS, IO and NO, IP and NP, IZIS and NZNS,
-- IZIC and NZNC, IC and NC.
pub data Opposite : ℕ → ℕ → Type 0 where
  zero_flag : Opposite 0x01 0x02
  sign_flag : Opposite 0x03 0x04
  overflow_flag : Opposite 0x05 0x06
  parity_flag : Opposite 0x07 0x08
  zero_or_sign : Opposite 0x09 0x0b
  zero_or_carry : Opposite 0x0a 0x0c
  carry_flag : Opposite 0x0d 0x0e

-- Of two opposite condition codes exactly one holds, whatever the flags are.
pub condition_holds-Opposite :
    {c d : ℕ} → Opposite c d → (flgs : ℕ) → condition_holds d flgs ≡ not (condition_holds c flgs)
unfolding condition_holds
condition_holds-Opposite zero_flag flgs = refl
condition_holds-Opposite sign_flag flgs = refl
condition_holds-Opposite overflow_flag flgs = refl
condition_holds-Opposite parity_flag flgs = refl
condition_holds-Opposite zero_or_sign flgs = ground arith
condition_holds-Opposite zero_or_carry flgs = ground arith
condition_holds-Opposite carry_flag flgs = refl

-- The conditions that CMP is followed by, in terms of the flags Z, C and S.
pub condition_holds_codes :
    (flgs : ℕ)
    → let z = flag_set flgs 1 in
      let c = flag_set flgs 2 in
      let s = flag_set flgs 16 in
      (condition_holds 0x01 flgs ≡ z)
      × (condition_holds 0x0d flgs ≡ c)
      × (condition_holds 0x0a flgs ≡ (z || c))
      × (condition_holds 0x0c flgs ≡ (not z && not c))
      × (condition_holds 0x03 flgs ≡ s)
      × (condition_holds 0x09 flgs ≡ (z || s))
      × (condition_holds 0x0b flgs ≡ (not z && not s))
unfolding condition_holds
condition_holds_codes flgs = (refl, refl, refl, refl, refl, refl, refl)

pub assign_flag-IsValid :
    (f : ℕ) (b : Bool) (e : EmulatorContext) → f < 2 ^ 32 → IsValid e → IsValid (assign_flag f b e)
assign_flag-IsValid f b e hf v =
    unfold assign_flag in with_regs-IsValid e _ v (assign_flag-AreDwords f b e hf v.regs_dword)

pub assign_flag-OnlyRegs :
    (f : ℕ) (b : Bool) (e e₁ : EmulatorContext) → OnlyRegs e e₁ → OnlyRegs e (assign_flag f b e₁)
unfolding assign_flag
assign_flag-OnlyRegs f b e e₁ h = set_reg-OnlyRegs e e₁ cpu_reg_flgs _ h

-- No condition.
pub condition_holds-always : (flgs : ℕ) → condition_holds 0 flgs ≡ true
unfolding condition_holds
condition_holds-always flgs = refl
