-- ===== src/Cpu/Arith.antt =====
-- The arithmetic instructions of `src/cpu/cpu.c`. The inline assembly of `ins_add`, `ins_sub` and
-- `ins_smul` is modelled by what the x86 instructions do to the result, OF and CF.
pub mod Signed
pub mod Laws
pub mod Valid
pub mod Frame
use emylathor.Base.{
  ℕ, ◌+◌, ◌-◌, ◌*◌, ◌/◌, ◌%◌, ◌^◌, Bool, true, false, not, ◌&&◌, ◌||◌, ltb, leb, ◌==◌,
  if◌then◌else◌, u32, ℤ, pos, negsuc, signed32, unsigned32, dword_max,
}
use emylathor.Base.Int.{◌*ℤ◌, div_ℤ, ltb_ℤ, eq_ℤ}
use emylathor.Machine.{EmulatorContext, Instruction, set_reg}
use emylathor.Cpu.Flags.{assign_flag, flgs_c, flgs_o}
use emylathor.Cpu.Operand.{operand_b}

-- The destination and the flags that an x86 instruction leaves.
pub record AluResult : Type 0 where
  pub value : ℕ
  pub overflow : Bool
  pub carry : Bool

-- The sign bit.
abbrev pub top : ℕ → Bool
top x = leb (2 ^ 31) x

abbrev pub differs : Bool → Bool → Bool
differs true b = not b
differs false b = b

-- `addl`: OF is set if the operands have one sign and the result the other.
pub addl : ℕ → ℕ → AluResult
addl a b =
    let r = u32 (a + b) in
    record {
      value = r;
      overflow = not (differs (top a) (top b)) && differs (top a) (top r);
      carry = leb (2 ^ 32) (a + b);
    }

-- `subl`: OF is set if the operands have different signs and the result has not the first's.
pub subl : ℕ → ℕ → AluResult
subl a b =
    let r = u32 (a + 2 ^ 32 - b) in
    record {
      value = r;
      overflow = differs (top a) (top b) && differs (top a) (top r);
      carry = ltb a b;
    }

-- `imull`: the low half of the signed product; OF (and CF) is set if that is not the product.
pub imull : ℕ → ℕ → AluResult
imull a b =
    let p = signed32 a *ℤ signed32 b in
    let lost = not (eq_ℤ (signed32 (unsigned32 p)) p) in
    record { value = unsigned32 p; overflow = lost; carry = lost }

pub ins_add : Instruction → EmulatorContext → EmulatorContext
ins_add ins e =
    let r = addl (e.regs ins.opa) (operand_b ins e) in
    assign_flag flgs_c r.carry (assign_flag flgs_o r.overflow (set_reg e ins.dst r.value))

pub ins_sub : Instruction → EmulatorContext → EmulatorContext
ins_sub ins e =
    let r = subl (e.regs ins.opa) (operand_b ins e) in
    assign_flag flgs_c r.carry (assign_flag flgs_o r.overflow (set_reg e ins.dst r.value))

-- The flag is assigned before the destination here. The product is taken as a `qword`, which it fits.
pub ins_mul : Instruction → EmulatorContext → EmulatorContext
ins_mul ins e =
    let res = e.regs ins.opa * operand_b ins e in
    set_reg (assign_flag flgs_c (ltb dword_max res) e) ins.dst (u32 res)

pub ins_smul : Instruction → EmulatorContext → EmulatorContext
ins_smul ins e =
    let r = imull (e.regs ins.opa) (operand_b ins e) in
    assign_flag flgs_o r.overflow (set_reg e ins.dst r.value)

pub ins_div : Instruction → EmulatorContext → EmulatorContext
ins_div ins e =
    let b = operand_b ins e in if b == 0 then e else set_reg e ins.dst (e.regs ins.opa / b)

-- The operand is a register whatever the prefix is.
pub ins_mod : Instruction → EmulatorContext → EmulatorContext
ins_mod ins e =
    let modulo = e.regs ins.opb in
    if modulo == 0 then e else set_reg e ins.dst (e.regs ins.opa % modulo)

pub ins_sdiv : Instruction → EmulatorContext → EmulatorContext
ins_sdiv ins e =
    let b = operand_b ins e in
    let r = div_ℤ (signed32 (e.regs ins.opa)) (signed32 b) in
    let overflow = ltb_ℤ (pos (2 ^ 31 - 1)) r || ltb_ℤ r (negsuc (2 ^ 31 - 1)) in
    if b == 0
    then e
    else set_reg (assign_flag flgs_o overflow e) ins.dst
        (unsigned32 (if overflow then pos 0 else r))
