-- ===== src/Tests/Programs.antt =====
-- Data that is emitted, and programs that end.
use emylathor.Base.{
  [], arith, false, none, refl, some, suc, true, u8, ℕ, ◌%◌, ◌+◌, ◌/◌, ◌<◌, ◌∷◌, ◌≡◌, ◌⊎◌,
}
use emylathor.Machine.{EmulatorContext}
use emylathor.Emit.{EmitContext, Emitted}
use emylathor.Emit.Buffer.{available}
use emylathor.Cpu.Execute.{cpu_execute, returned}
use emylathor.Start.{main_checked, status}
use emylathor.Cpu.Execute.Halts.{Ended, cpu_execute_halts}
use emylathor.Emit.Bytes.{align_loop}
use emylathor.Emit.Bytes.Append.{Appends}
use emylathor.Emit.Bytes.Image.{directives, directives_lem, images}
use emylathor.Emit.Bytes.Align.{align_loop_lem, copies}
use emylathor.Disassembler.Program.{printed, read_outside, vdis_main}
use emylathor.Disassembler.Program.Laws.{lines_from, vdis_main_lem}
use emylathor.Start.Halts.{main_checked_halts}
use emylathor.Tests.Machine.{buffer_at, garbage, machine, machine-IsValid}
use emylathor.Tests.Program.{
  adding, adding-IsStraightLine, adding-IsValid, adding_file, adding_file-IsStraightLine,
  adding_file-lt, full-IsBlocked, image_name, load_adding, odd-IsBlocked, opens, some_data,
  some_data-AreInRange, some_data_fits,
}

cpu_execute_halts_example :
    let k : ℕ = 1 in
    let n : ℕ = 3 in
    let e = adding in
    (e₁ : EmulatorContext) × (cpu_execute (suc k + n) false e ≡ some (returned 0 e₁))
    × Ended (suc k) e e₁
cpu_execute_halts_example =
    cpu_execute_halts 1 3 adding adding-IsValid (omega arith) adding-IsStraightLine

directives_lem_example :
    let fresh = garbage in
    let ds = some_data in
    let ctx = buffer_at 512 in Appends ctx (directives (available fresh) ds ctx) (images ds)
directives_lem_example =
    directives_lem garbage some_data (buffer_at 512) some_data-AreInRange full-IsBlocked
      some_data_fits

align_loop_lem_example :
    let fresh = garbage in
    let n : ℕ = 8 in
    let filler : ℕ = 0x1ff in
    let rounds : ℕ = 8 in
    let ctx = buffer_at 509 in
    (k : ℕ) × (r : Emitted EmitContext) × (k < n)
    × ((ctx.pos + k) % n ≡ 0)
    × (align_loop (available fresh) rounds n filler ctx ≡ some r)
    × Appends ctx r (copies k (u8 filler))
align_loop_lem_example =
    align_loop_lem garbage 8 0x1ff 8 (buffer_at 509) (omega arith) (omega arith) odd-IsBlocked
      (omega arith)

main_checked_halts_example :
    let regs = machine.regs in
    let cregs = machine.cregs in
    let filedata = adding_file in
    let length : ℕ = 8 in
    let argc : ℕ = 2 in
    let k : ℕ = 1 in
    let n : ℕ = 3 in
    (main_checked argc true (some (filedata, length)) (suc k + n) regs cregs ≡ some (status 0))
    × (main_checked 1 true (some (filedata, length)) (suc k + n) regs cregs ≡ some (status 10))
    × (main_checked argc false (some (filedata, length)) (suc k + n) regs cregs ≡ some (status 10))
    × (main_checked argc true none (suc k + n) regs cregs ≡ some (status 11))
main_checked_halts_example =
    main_checked_halts machine.regs machine.cregs adding_file 8 machine-IsValid.regs_dword
      machine-IsValid.cregs_dword adding_file-lt 2 1 3 (omega arith) (omega arith)
      adding_file-IsStraightLine

vdis_main_lem_example :
    let load_contents = load_adding in
    let fopen = opens in
    let img_name = image_name in
    let filedata = adding_file in
    let size : ℕ = 8 in
    let rounds : ℕ = 3 in
    ((size % 4 ≡ 0) ⊎ (size % 4 ≡ 3)
      → vdis_main load_contents fopen rounds ("--img" ∷ img_name ∷ [])
        ≡ printed (lines_from filedata 0 ((size + 1) / 4)))
    × ((size % 4 ≡ 1) ⊎ (size % 4 ≡ 2)
        → vdis_main load_contents fopen rounds ("--img" ∷ img_name ∷ []) ≡ read_outside)
vdis_main_lem_example =
    vdis_main_lem load_adding opens image_name adding_file 8 3 refl (omega arith) (omega arith)
