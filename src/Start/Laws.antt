-- ===== src/Start/Laws.antt =====
-- The state at the start, and the first instruction of an image.
use emylathor.Base.{
  ℕ, ◌+◌, ◌-◌, ◌*◌, ◌^◌, ◌<◌, ◌≤◌, ◌≡◌, ◌≢◌, ◌↔◌, refl, ap, ◌∙◌, true, false, none, some, ◌&&◌, leb,
  ltb, if◌then◌else◌, arith,
}
use emylathor.Machine.{EmulatorContext, AreDwords, ◌>>=◌}
use emylathor.Valid.{IsValid}
use emylathor.Memory.{mem_get_instruction_p}
use emylathor.Memory.Laws.{dword_value, dword_value_lem, mem_get_instruction_p-eq}
use emylathor.Cpu.Execute.{cpu_execute}
use emylathor.Start.{va_default_memory_size, emu_init, emu_load_img, main}

module _ (regs cregs filedata : ℕ → ℕ) (length : ℕ) (hr : AreDwords regs) (hc : AreDwords cregs)
    (hf : (i : ℕ) → filedata i < 2 ^ 8) where
  pub emu_init-IsValid : IsValid (emu_init regs cregs)
  unfolding emu_init
  emu_init-IsValid = record {
    regs_dword = λ i. ground (arith, hr i);
    cregs_dword = λ i. ground (arith, hc i);
    pos_dword = omega arith;
    memory_byte = λ a. omega arith;
    latch_dword = omega arith;
    count_qword = omega arith;
  }

-- The state after an image that fits.
abbrev pub loaded : (ℕ → ℕ) → ℕ → EmulatorContext → EmulatorContext
loaded filedata length e = record e {
  memory = λ a. if leb 4096 a && ltb a (4096 + length) then filedata (a - 4096) else e.memory a;
  pos = 4096;
}

pub loaded_lem :
    (filedata : ℕ → ℕ) (length : ℕ) (e : EmulatorContext)
    → 4096 + length ≤ e.memory_size
    → emu_load_img filedata length e ≡ some (loaded filedata length e)
unfolding emu_load_img
loaded_lem filedata length e h = ground arith

loaded_dword :
    (filedata : ℕ → ℕ) (length : ℕ) (e : EmulatorContext)
    → 4 ≤ length
    → dword_value 4096 (loaded filedata length e)
      ≡ filedata 0 + filedata 1 * 2 ^ 8 + filedata 2 * 2 ^ 16 + filedata 3 * 2 ^ 24
loaded_dword filedata length e h = ground arith

-- An image of at least one instruction is loaded without undefined behaviour exactly if it ends
-- within the 4 MB of memory; then the emulator stands at the dword of its first four bytes, has no
-- instruction counted, and runs from there.
pub main-first :
    (regs cregs filedata : ℕ → ℕ) (length : ℕ)
    → 4 ≤ length
    → ((i : ℕ) → filedata i < 2 ^ 8)
    → ((emu_load_img filedata length (emu_init regs cregs) ≢ none)
        ↔ (4096 + length ≤ va_default_memory_size))
      × (4096 + length ≤ va_default_memory_size
          → (e : EmulatorContext) × ((rounds : ℕ)
              → main rounds regs cregs filedata length ≡ cpu_execute rounds false e)
            × (mem_get_instruction_p e.pos e
                ≡ some (
                  true,
                  filedata 0 + filedata 1 * 2 ^ 8 + filedata 2 * 2 ^ 16 + filedata 3 * 2 ^ 24,
                ))
            × (e.instruction_count ≡ 0)
            × (e.regs 0x0e ≡ 0x600))
unfolding main emu_init emu_load_img
main-first regs cregs filedata length h hf = (
  (λ k. ground arith, λ k. ground arith),
  λ k.
      let e = loaded filedata length (emu_init regs cregs) in
      let fits = loaded_lem filedata length (emu_init regs cregs) k in
      let read =
        dword_value_lem 4096 e (λ a. ground (arith, hf (a - 4096))) (omega arith) (omega arith) in
      (
        e,
        λ rounds. ap (λ o. o >>= cpu_execute rounds false) fits,
        mem_get_instruction_p-eq 4096 e
            ∙ read
            ∙ ap (λ d. some (true, d)) (loaded_dword filedata length (emu_init regs cregs) h),
        refl,
        refl,
      ),
)
