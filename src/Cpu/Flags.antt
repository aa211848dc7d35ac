-- ===== src/Cpu/Flags.antt =====
-- The flags register: the masks of `src/common/rawdefs.h`, the updates `|= F` and `&= ~F` that the
-- instructions of `src/cpu/cpu.c` make, and the condition test of `cpu_execute`.
pub mod Laws
use emylathor.Base.{
  ℕ, Bool, true, false, not, ◌&&◌, ◌||◌, ◌==◌, bit_and, bit_or, not32, if◌then◌else◌,
}
use emylathor.Machine.{EmulatorContext, set_reg}

abbrev pub cpu_reg_flgs : ℕ
cpu_reg_flgs = 0x0f

abbrev pub flgs_z : ℕ
flgs_z = 0x01

abbrev pub flgs_c : ℕ
flgs_c = 0x02

abbrev pub flgs_o : ℕ
flgs_o = 0x04

abbrev pub flgs_p : ℕ
flgs_p = 0x08

abbrev pub flgs_s : ℕ
flgs_s = 0x10

abbrev pub flgs_e : ℕ
flgs_e = 0x20

-- `if (b) regs[CPU_REG_FLGS] |= f; else regs[CPU_REG_FLGS] &= ~f;`
pub assign_flag : ℕ → Bool → EmulatorContext → EmulatorContext
assign_flag f b e =
    let flgs = e.regs cpu_reg_flgs in
    set_reg e cpu_reg_flgs (if b then bit_or flgs f else bit_and flgs (not32 f))

-- `flgs & f`, as a condition.
pub flag_set : ℕ → ℕ → Bool
flag_set flgs f = not (bit_and flgs f == 0)

-- The switch over `ins->condition`: whether the instruction is executed. A condition code that the
-- switch does not list lets it pass.
pub condition_holds : ℕ → ℕ → Bool
condition_holds cond flgs =
    let z = flag_set flgs flgs_z in
    let c = flag_set flgs flgs_c in
    let o = flag_set flgs flgs_o in
    let p = flag_set flgs flgs_p in
    let s = flag_set flgs flgs_s in
    let even = flag_set flgs flgs_e in
    if cond == 0x01
    then z
    else if cond == 0x02
    then not z
    else if cond == 0x03
    then s
    else if cond == 0x04
    then not s
    else if cond == 0x05
    then o
    else if cond == 0x06
    then not o
    else if cond == 0x07
    then p
    else if cond == 0x08
    then not p
    else if cond == 0x09
    then z || s
    else if cond == 0x0b
    then not z && not s
    else if cond == 0x0a
    then z || c
    else if cond == 0x0c
    then not z && not c
    else if cond == 0x0d
    then c
    else if cond == 0x0e
    then not c
    else if cond == 0x0f
    then not z && (not c && (not s && (not o && (not p && not even))))
    else true
