-- ===== src/Cpu/Compare/Laws.antt =====
-- What `ins_cmp` and `ins_test` put into the flags.
use emylathor.Base.{
  ℕ, zero, suc, ◌+◌, ◌/◌, ◌%◌, ◌^◌, ◌<◌, ◌≡◌, ◌≢◌, ◌==◌, ltb, leb, not, if◌then◌else◌, arith,
  bit_and, signed32,
}
use emylathor.Base.Int.{ltb_ℤ}
use native.Mathlib.Nat.{zero-add}
use emylathor.Base.Bits.Shift.{div-two_pow_suc}
use emylathor.Base.Bits.{digit}
use emylathor.Base.Bits.Flag.{digit_lem, bit_and-two_pow_ne}
use emylathor.Machine.{AreDwords, EmulatorContext, Instruction}
use emylathor.Cpu.Flags.{cpu_reg_flgs, assign_flag, condition_holds}
use emylathor.Cpu.Flags.Laws.{
  flag, flag-assign_flag, regs-assign_flag, condition_holds_codes, assign_flag-AreDwords,
}
use emylathor.Cpu.Operand.{operand_b, prefix_imm}
use emylathor.Cpu.Compare.{ins_cmp, count_bits, ins_test}

cmp_flags :
    (j : ℕ) (ins : Instruction) (e : EmulatorContext)
    → AreDwords e.regs
    → flag j (ins_cmp ins e) ≡ (
        let a = e.regs ins.opa in
        let b = operand_b ins e in
        if j == 4
        then ltb_ℤ (signed32 a) (signed32 b)
        else if j == 1
        then ltb a b
        else if j == 0
        then a == b
        else flag j e)
unfolding ins_cmp
cmp_flags j ins e he =
    let a = e.regs ins.opa in
    let b = operand_b ins e in
    let e₁ = assign_flag 1 (a == b) e in
    let e₂ = assign_flag 2 (ltb a b) e₁ in
    let h₁ = assign_flag-AreDwords 1 (a == b) e (omega arith) he in
    let h₂ = assign_flag-AreDwords 2 (ltb a b) e₁ (omega arith) h₁ in
    rw (
      flag-assign_flag 4 j (ltb_ℤ (signed32 a) (signed32 b)) e₂ (omega arith) (h₂ 15),
      flag-assign_flag 1 j (ltb a b) e₁ (omega arith) (h₁ 15),
      flag-assign_flag 0 j (a == b) e (omega arith) (he 15),
    )

-- CMP sets Z exactly if the operands are equal, C if the first is less as an unsigned and S if it
-- is less as a signed number; every other flag and every other register keeps its value.
pub ins_cmp_lem :
    (ins : Instruction) (e : EmulatorContext)
    → AreDwords e.regs
    → let a = e.regs ins.opa in
      let b = operand_b ins e in
      let r = ins_cmp ins e in
      (flag 0 r ≡ (a == b))
      × (flag 1 r ≡ ltb a b)
      × (flag 4 r ≡ ltb_ℤ (signed32 a) (signed32 b))
      × ((j : ℕ) → j ≢ 0 → j ≢ 1 → j ≢ 4 → flag j r ≡ flag j e)
      × ((i : ℕ) → i ≢ cpu_reg_flgs → r.regs i ≡ e.regs i)
ins_cmp_lem ins e he = (
  cmp_flags 0 ins e he,
  cmp_flags 1 ins e he,
  cmp_flags 4 ins e he,
  λ j p q r. ground (arith, cmp_flags j ins e he),
  λ i h.
      unfold ins_cmp in
      rw (regs-assign_flag _ _ _ i h, regs-assign_flag _ _ _ i h, regs-assign_flag _ _ _ i h),
)

-- After CMP the condition codes order the operands: IZ is =, IC is < and IZIC is ≤ of unsigned
-- numbers, NZNC is >; IS is <, IZIS is ≤ and NZNS is > of signed numbers.
pub condition_holds-ins_cmp :
    (ins : Instruction) (e : EmulatorContext)
    → AreDwords e.regs
    → ins.imm12 < 2 ^ 12
    → let a = e.regs ins.opa in
      let b = operand_b ins e in
      let flgs = (ins_cmp ins e).regs cpu_reg_flgs in
      (condition_holds 0x01 flgs ≡ (a == b))
      × (condition_holds 0x0d flgs ≡ ltb a b)
      × (condition_holds 0x0a flgs ≡ leb a b)
      × (condition_holds 0x0c flgs ≡ ltb b a)
      × (condition_holds 0x03 flgs ≡ ltb_ℤ (signed32 a) (signed32 b))
      × (condition_holds 0x09 flgs ≡ not (ltb_ℤ (signed32 b) (signed32 a)))
      × (condition_holds 0x0b flgs ≡ ltb_ℤ (signed32 b) (signed32 a))
condition_holds-ins_cmp ins e he hi =
    let a = e.regs ins.opa in
    let b = operand_b ins e in
    let flgs = (ins_cmp ins e).regs cpu_reg_flgs in
    let codes = condition_holds_codes flgs in
    ground (
      arith,
      codes,
      cmp_flags 0 ins e he,
      cmp_flags 1 ins e he,
      cmp_flags 4 ins e he,
      he ins.opa,
      he ins.opb,
    )

-- How many of the lowest `n` digits are 1.
pub ones : ℕ → ℕ → ℕ
ones zero x = 0
ones (suc n) x = ones n x + digit n x

ones-suc : (n x : ℕ) → ones (suc n) x ≡ x % 2 + ones n (x / 2)
unfolding ones
ones-suc zero x = omega (arith, digit_lem 0 x)
ones-suc (suc n) x =
    omega (arith, ones-suc n x, digit_lem (suc n) x, digit_lem n (x / 2), div-two_pow_suc x n)

count_bits-eq : (n val bits : ℕ) → count_bits n val bits ≡ bits + ones n val
unfolding count_bits
count_bits-eq zero val bits = unfold ones in omega arith
count_bits-eq (suc n) val bits = ground (
  arith,
  bit_and-two_pow_ne 0 val,
  digit_lem 0 val,
  ones-suc n val,
  count_bits-eq n (val / 2) bits,
  count_bits-eq n (val / 2) (bits + 1),
)

test_flags :
    (j : ℕ) (ins : Instruction) (e : EmulatorContext)
    → AreDwords e.regs
    → let val = if ins.prefix == prefix_imm then ins.imm16 else e.regs ins.dst in
      flag j (ins_test ins e) ≡ (
        if j == 3
        then ones 32 val % 2 == 1
        else if j == 5
        then bit_and val 1 == 0
        else if j == 4
        then not (bit_and val 0x8000_0000 == 0)
        else if j == 0
        then val == 0
        else flag j e)
unfolding ins_test
test_flags j ins e he =
    let val = if ins.prefix == prefix_imm then ins.imm16 else e.regs ins.dst in
    let e₁ = assign_flag 1 (val == 0) e in
    let e₂ = assign_flag 16 (not (bit_and val 0x8000_0000 == 0)) e₁ in
    let e₃ = assign_flag 32 (bit_and val 1 == 0) e₂ in
    let h₁ = assign_flag-AreDwords 1 (val == 0) e (omega arith) he in
    let h₂ = assign_flag-AreDwords 16 (not (bit_and val 0x8000_0000 == 0)) e₁ (omega arith) h₁ in
    let h₃ = assign_flag-AreDwords 32 (bit_and val 1 == 0) e₂ (omega arith) h₂ in
    rw (
      flag-assign_flag 3 j (count_bits 32 val 0 % 2 == 1) e₃ (omega arith) (h₃ 15),
      flag-assign_flag 5 j (bit_and val 1 == 0) e₂ (omega arith) (h₂ 15),
      flag-assign_flag 4 j (not (bit_and val 0x8000_0000 == 0)) e₁ (omega arith) (h₁ 15),
      flag-assign_flag 0 j (val == 0) e (omega arith) (he 15),
      count_bits-eq 32 val 0,
      zero-add (ones 32 val),
    )

-- TEST sets Z exactly if the value is 0, S if its sign bit is set, E if it is even and P if the
-- number of its 1 digits is odd; every other flag and every other register keeps its value.
pub ins_test_lem :
    (ins : Instruction) (e : EmulatorContext)
    → AreDwords e.regs
    → ins.imm16 < 2 ^ 16
    → let val = if ins.prefix == prefix_imm then ins.imm16 else e.regs ins.dst in
      let r = ins_test ins e in
      (flag 0 r ≡ (val == 0))
      × (flag 4 r ≡ leb (2 ^ 31) val)
      × (flag 5 r ≡ (val % 2 == 0))
      × (flag 3 r ≡ (ones 32 val % 2 == 1))
      × (flag 1 r ≡ flag 1 e)
      × (flag 2 r ≡ flag 2 e)
      × ((i : ℕ) → i ≢ cpu_reg_flgs → r.regs i ≡ e.regs i)
ins_test_lem ins e he hi =
    let val = if ins.prefix == prefix_imm then ins.imm16 else e.regs ins.dst in
    (
      test_flags 0 ins e he,
      ground
          (arith, test_flags 4 ins e he, bit_and-two_pow_ne 31 val, digit_lem 31 val, he ins.dst),
      ground (arith, test_flags 5 ins e he, bit_and-two_pow_ne 0 val, digit_lem 0 val),
      test_flags 3 ins e he,
      test_flags 1 ins e he,
      test_flags 2 ins e he,
      λ i h.
          unfold ins_test in
          rw (
            regs-assign_flag _ _ _ i h,
            regs-assign_flag _ _ _ i h,
            regs-assign_flag _ _ _ i h,
            regs-assign_flag _ _ _ i h,
          ),
    )
