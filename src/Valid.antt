-- ===== src/Valid.antt =====
-- The ranges that the C types give to the state and to a decoded instruction. The model's numbers
-- have no such ranges of their own, so that every write of the code has to keep them.
use emylathor.Base.{ℕ, ◌<◌, ◌^◌, Bool, true, false, Option, none, some, if◌then◌else◌}
use emylathor.Machine.{
  EmulatorContext, Instruction, AreDwords, store, store-AreDwords, set_reg, ◌>>=◌,
}

pub record IsValid (e : EmulatorContext) : Type 0 where
  pub regs_dword : AreDwords e.regs
  pub cregs_dword : AreDwords e.cregs
  pub pos_dword : e.pos < 2 ^ 32
  pub memory_byte : (a : ℕ) → e.memory a < 2 ^ 8
  pub latch_dword : e.latch < 2 ^ 32
  pub count_qword : e.instruction_count < 2 ^ 64

-- The widths of the fields of an instruction word.
pub record IsEncoded (ins : Instruction) : Type 0 where
  pub opcode_lt : ins.opcode < 2 ^ 6
  pub prefix_lt : ins.prefix < 2 ^ 2
  pub condition_lt : ins.condition < 2 ^ 4
  pub dst_lt : ins.dst < 2 ^ 4
  pub opa_lt : ins.opa < 2 ^ 4
  pub opb_lt : ins.opb < 2 ^ 4
  pub imm12_lt : ins.imm12 < 2 ^ 12
  pub imm16_lt : ins.imm16 < 2 ^ 16

-- `P` holds of the result, if the code reaches one.
abbrev pub Ensures {ℓ} : {A : Type ℓ} → (A → Type 0) → Option A → Type 0
Ensures P none = Unit
Ensures P (some a) = P a

-- A result in range goes on to one in range.
pub Ensures-bind {κ ℓ} :
    {B : Type κ} {A : Type ℓ} (P : A → Type 0) (Q : B → Type 0) (first : Option A)
    (next : A → Option B)
    → Ensures P first
    → ((a : A) → P a → Ensures Q (next a))
    → Ensures Q (first >>= next)
Ensures-bind P Q (some a) next h k = k a h
Ensures-bind P Q none next h k = tt

pub Ensures-any {ℓ} : {A : Type ℓ} (o : Option A) → Ensures (λ a. Unit) o
Ensures-any none = tt
Ensures-any (some a) = tt

-- Both branches of a test.
pub if_both {ℓ κ} :
    {A : Type ℓ} {yes_case no_case : A} (P : A → Type κ) (test : Bool)
    → P yes_case
    → P no_case
    → P (if test then yes_case else no_case)
if_both P false kept kept' = kept'
if_both P true kept kept' = kept

pub with_regs-IsValid :
    (e : EmulatorContext) (regs : ℕ → ℕ)
    → IsValid e
    → AreDwords regs
    → IsValid (record e { regs = regs })
with_regs-IsValid e regs v h = record {
  regs_dword = h;
  cregs_dword = v.cregs_dword;
  pos_dword = v.pos_dword;
  memory_byte = v.memory_byte;
  latch_dword = v.latch_dword;
  count_qword = v.count_qword;
}

pub with_cregs-IsValid :
    (e : EmulatorContext) (cregs : ℕ → ℕ)
    → IsValid e
    → AreDwords cregs
    → IsValid (record e { cregs = cregs })
with_cregs-IsValid e cregs v h = record {
  regs_dword = v.regs_dword;
  cregs_dword = h;
  pos_dword = v.pos_dword;
  memory_byte = v.memory_byte;
  latch_dword = v.latch_dword;
  count_qword = v.count_qword;
}

pub with_pos-IsValid :
    (e : EmulatorContext) (pos : ℕ) → IsValid e → pos < 2 ^ 32 → IsValid (record e { pos = pos })
with_pos-IsValid e pos v h = record {
  regs_dword = v.regs_dword;
  cregs_dword = v.cregs_dword;
  pos_dword = h;
  memory_byte = v.memory_byte;
  latch_dword = v.latch_dword;
  count_qword = v.count_qword;
}

pub set_reg-IsValid :
    (e : EmulatorContext) (i x : ℕ) → IsValid e → x < 2 ^ 32 → IsValid (set_reg e i x)
set_reg-IsValid e i x v h =
    with_regs-IsValid e (store e.regs i x) v (store-AreDwords e.regs i x v.regs_dword h)
