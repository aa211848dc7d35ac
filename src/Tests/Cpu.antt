-- ===== src/Tests/Cpu.antt =====
-- The instructions that compute, on the machine.
use Prim.Native.Nat.{min, max}
use emylathor.Base.{
  arith, false, if◌then◌else◌, leb, ltb, not, signed32, true, unsigned32, ℕ, ◌%◌, ◌&&◌, ◌*◌, ◌+◌,
  ◌-◌, ◌/◌, ◌<◌, ◌==◌, ◌^◌, ◌≡◌, ◌≢◌,
}
use emylathor.Base.Int.{div_ℤ, ltb_ℤ, shr_ℤ, ◌*ℤ◌, ◌+ℤ◌, ◌-ℤ◌}
use emylathor.Base.Bits.{digit}
use emylathor.Cpu.Flags.{condition_holds, cpu_reg_flgs}
use emylathor.Cpu.Flags.Laws.{flag}
use emylathor.Cpu.Operand.{operand_b, prefix_imm}
use emylathor.Cpu.Effect.{AluEffect}
use emylathor.Cpu.Arith.{ins_add, ins_div, ins_mod, ins_mul, ins_sdiv, ins_smul, ins_sub}
use emylathor.Cpu.Arith.Signed.{fits32}
use emylathor.Cpu.Arith.Laws.{ins_add_lem, ins_div-ins_mod, ins_sdiv_lem, ins_sub_lem, products_lem}
use emylathor.Cpu.Logic.{ins_and, ins_not, ins_or, ins_sar, ins_shl, ins_shr, ins_xor}
use emylathor.Cpu.Logic.Laws.{bitwise_lem, shifts_lem}
use emylathor.Cpu.Compare.{ins_cmp, ins_test}
use emylathor.Cpu.Compare.Laws.{condition_holds-ins_cmp, ins_test_lem, ones}
use emylathor.Tests.Machine.{instruction, machine, machine-IsValid}

ins_add_lem_example :
    let ins = (instruction 0x2a 0 3 1 2 0) in
    let e = machine in
    let a = e.regs ins.opa in
    let b = operand_b ins e in
    let sum = signed32 a +ℤ signed32 b in
    let r = ins_add ins e in
    AluEffect ins.dst ((a + b) % 2 ^ 32) (not (fits32 sum)) (leb (2 ^ 32) (a + b)) e r
    × (fits32 sum ≡ true → signed32 (r.regs ins.dst) ≡ sum)
ins_add_lem_example =
    ins_add_lem (instruction 0x2a 0 3 1 2 0) machine machine-IsValid.regs_dword (omega arith)
      (omega arith)

ins_sub_lem_example :
    let ins = (instruction 0x2b 0 3 1 2 0) in
    let e = machine in
    let a = e.regs ins.opa in
    let b = operand_b ins e in
    let difference = signed32 a -ℤ signed32 b in
    let r = ins_sub ins e in
    AluEffect ins.dst ((a + 2 ^ 32 - b) % 2 ^ 32) (not (fits32 difference)) (ltb a b) e r
    × (fits32 difference ≡ true → signed32 (r.regs ins.dst) ≡ difference)
ins_sub_lem_example =
    ins_sub_lem (instruction 0x2b 0 3 1 2 0) machine machine-IsValid.regs_dword (omega arith)
      (omega arith)

products_lem_example :
    let ins = (instruction 0x2c 0 3 1 2 0) in
    let e = machine in
    let a = e.regs ins.opa in
    let b = operand_b ins e in
    let product = signed32 a *ℤ signed32 b in
    AluEffect ins.dst (a * b % 2 ^ 32) (flag 2 e) (leb (2 ^ 32) (a * b)) e (ins_mul ins e)
    × AluEffect ins.dst (a * b % 2 ^ 32) (not (fits32 product)) (flag 1 e) e (ins_smul ins e)
    × (fits32 product ≡ true → signed32 ((ins_smul ins e).regs ins.dst) ≡ product)
products_lem_example =
    products_lem (instruction 0x2c 0 3 1 2 0) machine machine-IsValid.regs_dword (omega arith)
      (omega arith)

ins_sdiv_lem_example :
    let ins = (instruction 0x11 0 3 1 2 0) in
    let e = machine in
    let a = e.regs ins.opa in
    let b = operand_b ins e in
    let lost = (a == 2 ^ 31) && (b == 2 ^ 32 - 1) in
    let quotient = div_ℤ (signed32 a) (signed32 b) in
    let r = ins_sdiv ins e in
    (b ≡ 0 → r ≡ e)
    × (b ≢ 0
        → AluEffect ins.dst (if lost then 0 else unsigned32 quotient) lost (flag 1 e) e r
          × (lost ≡ false → signed32 (r.regs ins.dst) ≡ quotient))
ins_sdiv_lem_example =
    ins_sdiv_lem (instruction 0x11 0 3 1 2 0) machine machine-IsValid.regs_dword (omega arith)
      (omega arith)

ins_div-ins_mod_example :
    let ins = (instruction 0x2d 0 3 2 1 0) in
    let e = machine in
    let b = e.regs ins.opb in
    let q = (ins_div ins e).regs ins.dst in
    let r = (ins_mod ins e).regs ins.dst in
    (b ≡ 0 → (ins_div ins e ≡ e) × (ins_mod ins e ≡ e))
    × (b ≢ 0 → (q * b + r ≡ e.regs ins.opa) × (r < b))
ins_div-ins_mod_example = ins_div-ins_mod (instruction 0x2d 0 3 2 1 0) machine (omega arith)

condition_holds-ins_cmp_example :
    let ins = (instruction 0x18 0 0 1 2 0) in
    let e = machine in
    let a = e.regs ins.opa in
    let b = operand_b ins e in
    let flgs = (ins_cmp ins e).regs cpu_reg_flgs in
    (condition_holds 0x01 flgs ≡ (a == b))
    × (condition_holds 0x0d flgs ≡ ltb a b)
    × (condition_holds 0x0a flgs ≡ leb a b)
    × (condition_holds 0x0c flgs ≡ ltb b a)
    × (condition_holds 0x03 flgs ≡ ltb_ℤ (signed32 a) (signed32 b))
    × (condition_holds 0x09 flgs ≡ not (ltb_ℤ (signed32 b) (signed32 a)))
    × (condition_holds 0x0b flgs ≡ ltb_ℤ (signed32 b) (signed32 a))
condition_holds-ins_cmp_example =
    condition_holds-ins_cmp (instruction 0x18 0 0 1 2 0) machine machine-IsValid.regs_dword
      (omega arith)

ins_test_lem_example :
    let ins = (instruction 0x16 0 7 0 0 0) in
    let e = machine in
    let val = if ins.prefix == prefix_imm then ins.imm16 else e.regs ins.dst in
    let r = ins_test ins e in
    (flag 0 r ≡ (val == 0))
    × (flag 4 r ≡ leb (2 ^ 31) val)
    × (flag 5 r ≡ (val % 2 == 0))
    × (flag 3 r ≡ (ones 32 val % 2 == 1))
    × (flag 1 r ≡ flag 1 e)
    × (flag 2 r ≡ flag 2 e)
    × ((i : ℕ) → i ≢ cpu_reg_flgs → r.regs i ≡ e.regs i)
ins_test_lem_example =
    ins_test_lem (instruction 0x16 0 7 0 0 0) machine machine-IsValid.regs_dword (omega arith)

bitwise_lem_example :
    let ins = (instruction 0x21 0 3 1 2 0) in
    let e = machine in
    let k : ℕ = 4 in
    let x = digit k (e.regs ins.opa) in
    let y = digit k (operand_b ins e) in
    (digit k ((ins_and ins e).regs ins.dst) ≡ min x y)
    × (digit k ((ins_or ins e).regs ins.dst) ≡ max x y)
    × (digit k ((ins_xor ins e).regs ins.dst) ≡ (if x == y then 0 else 1))
    × (digit k ((ins_not ins e).regs ins.opa) ≡ 1 - digit k (e.regs ins.opb))
bitwise_lem_example =
    bitwise_lem (instruction 0x21 0 3 1 2 0) machine 4 machine-IsValid.regs_dword (omega arith)

shifts_lem_example :
    let ins = (instruction 0x24 0 3 5 1 0) in
    let e = machine in
    let a = e.regs ins.opa in
    let s = operand_b ins e % 32 in
    AluEffect ins.dst (a * 2 ^ s % 2 ^ 32) (flag 2 e) (leb (2 ^ 31) a) e (ins_shl ins e)
    × AluEffect ins.dst (a / 2 ^ s) (flag 2 e) (a % 2 == 1) e (ins_shr ins e)
    × AluEffect ins.dst
        (unsigned32 (shr_ℤ (signed32 a) s))
        (flag 2 e)
        (a % 2 == 1)
        e
        (ins_sar ins e)
    × (signed32 ((ins_sar ins e).regs ins.dst) ≡ shr_ℤ (signed32 a) s)
shifts_lem_example =
    shifts_lem (instruction 0x24 0 3 5 1 0) machine machine-IsValid.regs_dword (omega arith)
