-- ===== src/Machine.antt =====
-- The state of the emulator (`src/common/types.h`): the contexts that the code reaches through
-- `emulator_context`, with the fields that some function reads after start-up.
--
-- An array is a function from indices. `Option` is the result of code with undefined behaviour:
-- `none` is an access outside the array that C allocated.
use emylathor.Base.{ℕ, Option, none, some, ◌==◌, if◌then◌else◌, ◌<◌, ◌^◌, ◌≡◌, ap, arith}

-- `instruction_context`
pub record Instruction : Type 0 where
  pub opcode : ℕ
  pub dst : ℕ
  pub opa : ℕ
  pub opb : ℕ
  pub imm12 : ℕ
  pub imm16 : ℕ
  pub prefix : ℕ
  pub condition : ℕ

-- The functions of the repository that have the type `port_handler`.
pub data PortHandler : Type 0 where
  pio_null : PortHandler

-- `cpu_context` (`regs`, `cregs`, `pos`), `memory_context` (`memory`, `memory_size`),
-- `statistic_context` (`instruction_count`), and the static variables of `pio.c`: the table
-- `ports`, where `none` is NULL, and the `latch` of `pio_null`.
pub record EmulatorContext : Type 0 where
  pub regs : ℕ → ℕ
  pub cregs : ℕ → ℕ
  pub pos : ℕ
  pub memory : ℕ → ℕ
  pub memory_size : ℕ
  pub instruction_count : ℕ
  pub ports : ℕ → Option PortHandler
  pub latch : ℕ

-- `a[i] = v`
abbrev pub store {ℓ} : {A : Type ℓ} → (ℕ → A) → ℕ → A → ℕ → A
store a i v j = if i == j then v else a j

-- Sequencing of code that may have undefined behaviour.
infixl 5 ◌>>=◌
abbrev pub ◌>>=◌ {ℓ κ} : {A : Type ℓ} {B : Type κ} → Option A → (A → Option B) → Option B
none >>= f = none
some a >>= f = f a

-- `regs[i] = v`
abbrev pub set_reg : EmulatorContext → ℕ → ℕ → EmulatorContext
set_reg e i v = record e { regs = store e.regs i v }

-- Every register holds a dword.
abbrev pub AreDwords : (ℕ → ℕ) → Type 0
AreDwords regs = (i : ℕ) → regs i < 2 ^ 32

pub store-AreDwords :
    (regs : ℕ → ℕ) (i v : ℕ) → AreDwords regs → v < 2 ^ 32 → AreDwords (store regs i v)
store-AreDwords regs i v h hv = λ j. ground (arith, h j)

-- A state that differs from another in its registers at most.
abbrev pub OnlyRegs : EmulatorContext → EmulatorContext → Type 0
OnlyRegs e e₁ = e₁ ≡ record e { regs = e₁.regs; cregs = e₁.cregs }

pub set_reg-OnlyRegs :
    (e e₁ : EmulatorContext) (i v : ℕ) → OnlyRegs e e₁ → OnlyRegs e (set_reg e₁ i v)
set_reg-OnlyRegs e e₁ i v h = ap (λ x. set_reg x i v) h
