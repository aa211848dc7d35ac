-- ===== src/Emit/Labels/Order.antt =====
-- References to labels, in the order of the bytes that they reserve.
use Prim.Native.String.{String}
use emylathor.Base.{
  ℕ, ◌+◌, ◌*◌, ◌/◌, ◌%◌, ◌^◌, ◌<◌, ◌≤◌, ◌≡◌, Option, some, List, [], ◌∷◌, ◌++◌, ◌⊎◌, arith,
}
use emylathor.Machine.{Instruction}
use emylathor.Emit.{EmitContext}
use emylathor.Emit.Encode.{instruction_at}
use emylathor.Emit.Labels.{LabelRef, op_loadi}

-- What the grammar lets through: one of the eight registers with word registers, and a condition.
abbrev pub IsWordRef : LabelRef → Type 0
IsWordRef lr = (lr.reg < 8) × (lr.cond < 2 ^ 4)

-- The references reserve eight bytes each, one after the other, between two positions.
unfoldable pub InOrder : ℕ → List LabelRef → ℕ → Type 0
InOrder from [] to = from ≤ to
InOrder from (lr ∷ rest) to = (from ≤ lr.pos) × IsWordRef lr × InOrder (lr.pos + 8) rest to

-- A byte that none of the references reserves.
unfoldable pub IsOutside : List LabelRef → ℕ → Type 0
IsOutside [] i = Unit
IsOutside (lr ∷ rest) i = ((i < lr.pos) ⊎ (lr.pos + 8 ≤ i)) × IsOutside rest i

-- The LOADI of a word.
abbrev pub loads : ℕ → ℕ → ℕ → Instruction
loads condition dst imm16 = record {
  opcode = op_loadi;
  dst = dst;
  opa = imm16 % 2 ^ 8 / 2 ^ 4;
  opb = imm16 % 2 ^ 4;
  imm12 = imm16 % 2 ^ 4 * 2 ^ 8 + imm16 / 2 ^ 8;
  imm16 = imm16;
  prefix = 1;
  condition = condition;
}

-- The bytes of a reference hold the two LOADI of an address.
abbrev pub HoldsAddress : EmitContext → LabelRef → ℕ → Type 0
HoldsAddress b lr address =
    (instruction_at lr.pos b ≡ loads lr.cond (2 * lr.reg) (address % 2 ^ 16))
    × (instruction_at (lr.pos + 4) b ≡ loads lr.cond (2 * lr.reg + 1) (address / 2 ^ 16))

-- Every reference of a list holds the address that its name has in a table.
unfoldable pub AreResolved : (String → Option ℕ) → EmitContext → List LabelRef → Type 0
AreResolved address b [] = Unit
AreResolved address b (lr ∷ rest) =
    ((a : ℕ) × (address lr.name ≡ some a) × HoldsAddress b lr a) × AreResolved address b rest

-- Every name that the references use is a label with a 32-bit address.
unfoldable pub AreDefined : (String → Option ℕ) → List LabelRef → Type 0
AreDefined address [] = Unit
AreDefined address (lr ∷ rest) =
    ((a : ℕ) × (address lr.name ≡ some a) × (a < 2 ^ 32)) × AreDefined address rest

pub InOrder-append :
    (from to : ℕ) (refs : List LabelRef) (lr : LabelRef)
    → InOrder from refs to
    → IsWordRef lr
    → to ≤ lr.pos
    → InOrder from (refs ++ lr ∷ []) (lr.pos + 8)
unfolding InOrder
InOrder-append from to [] lr h w p = (omega arith, w, omega arith)
InOrder-append from to (first ∷ rest) lr (h, v, k) w p =
    (h, v, InOrder-append (first.pos + 8) to rest lr k w p)

pub InOrder-extend :
    (from to further : ℕ) (refs : List LabelRef)
    → InOrder from refs to
    → to ≤ further
    → InOrder from refs further
unfolding InOrder
InOrder-extend from to further [] h k = omega arith
InOrder-extend from to further (lr ∷ rest) (h, w, r) k =
    (h, w, InOrder-extend (lr.pos + 8) to further rest r k)

pub InOrder-bound : (from to : ℕ) (refs : List LabelRef) → InOrder from refs to → from ≤ to
unfolding InOrder
InOrder-bound from to [] h = h
InOrder-bound from to (lr ∷ rest) (h, w, r) = omega (arith, InOrder-bound (lr.pos + 8) to rest r)

-- What lies before the references, or behind them, is not one of their bytes.
pub InOrder-IsOutside :
    (from to : ℕ) (refs : List LabelRef) (i : ℕ)
    → InOrder from refs to
    → (i < from) ⊎ (to ≤ i)
    → IsOutside refs i
unfolding InOrder IsOutside
InOrder-IsOutside from to [] i h k = tt
InOrder-IsOutside from to (lr ∷ rest) i (h, w, r) k =
    let bound = InOrder-bound (lr.pos + 8) to rest r in
    (ground arith, InOrder-IsOutside (lr.pos + 8) to rest i r (ground arith))
