-- ===== src/Cpu/Arith/Signed.antt =====
-- The results of the arithmetic unit (`addl`, `subl`, `imull` and C's division) against integers.
use emylathor.Base.{
  ℕ, ◌+◌, ◌-◌, ◌*◌, ◌/◌, ◌%◌, ◌^◌, ◌≤◌, ◌<◌, ◌≡◌, ◌≢◌, ◌==◌, Bool, true, false, not, ◌&&◌, ◌||◌,
  ◌||◌, arith, signed32, unsigned32, ℤ, pos, negsuc, ap, pos_part, neg_part, unsigned32-lt, ◌⊎◌,
  inl, inr,
}
use emylathor.Base.Int.{sub_ℕ, eq_ℤ, ltb_ℤ, ◌+ℤ◌, ◌-ℤ◌, ◌*ℤ◌, div_ℤ}
use emylathor.Machine.{AreDwords, EmulatorContext, Instruction}
use native.Mathlib.Nat.{div-add-mod'}
use native.Mathlib.Decide.{dec_lt}
use emylathor.Cpu.Operand.{operand_b}
use emylathor.Cpu.Arith.{addl, subl}

-- Whether an integer has a 32-bit two's complement form.
pub fits32 : ℤ → Bool
fits32 z = not (ltb_ℤ z (negsuc (2 ^ 31 - 1))) && not (ltb_ℤ (pos (2 ^ 31 - 1)) z)

pub addl_lem :
    (a b : ℕ)
    → a < 2 ^ 32
    → b < 2 ^ 32
    → ((addl a b).overflow ≡ not (fits32 (signed32 a +ℤ signed32 b)))
      × ((addl a b).overflow ≡ false → signed32 (addl a b).value ≡ signed32 a +ℤ signed32 b)
unfolding addl ◌+ℤ◌ fits32
addl_lem a b ha hb = (ground arith, ground arith)

pub subl_lem :
    (a b : ℕ)
    → a < 2 ^ 32
    → b < 2 ^ 32
    → ((subl a b).overflow ≡ not (fits32 (signed32 a -ℤ signed32 b)))
      × ((subl a b).overflow ≡ false → signed32 (subl a b).value ≡ signed32 a -ℤ signed32 b)
unfolding subl ◌-ℤ◌ fits32
subl_lem a b ha hb = (ground arith, ground arith)

-- Two's complement keeps an integer exactly if it fits.
pub eq-fits32 : (z : ℤ) → eq_ℤ (signed32 (unsigned32 z)) z ≡ fits32 z
unfolding fits32
eq-fits32 (pos n) = ground arith
eq-fits32 (negsuc n) = ground arith

pub fits_exact : (z : ℤ) → fits32 z ≡ true → signed32 (unsigned32 z) ≡ z
unfolding fits32
fits_exact (pos n) h = ground arith
fits_exact (negsuc n) h = ground arith

pub operand_b-lt :
    (ins : Instruction) (e : EmulatorContext)
    → AreDwords e.regs
    → ins.imm12 < 2 ^ 12
    → operand_b ins e < 2 ^ 32
operand_b-lt ins e he hi = ground (arith, he ins.opb)

-- The parts of a dword read as a signed number.
signed_parts :
    (a : ℕ)
    → a < 2 ^ 32
    → (pos_part (signed32 a) ≡ a) × (neg_part (signed32 a) ≡ 0)
      ⊎ (pos_part (signed32 a) ≡ 0) × (neg_part (signed32 a) ≡ 2 ^ 32 - a)
signed_parts a h = ground arith

unsigned_sub : (p n : ℕ) → (unsigned32 (sub_ℕ p n) + n) % 2 ^ 32 ≡ p % 2 ^ 32
unsigned_sub p n = ground arith

complement_left : (a c : ℕ) → a < 2 ^ 32 → (2 ^ 32 - a) * c + a * c ≡ 2 ^ 32 * c
complement_left a c h =
    let e : 2 ^ 32 - a + a ≡ 2 ^ 32 = omega arith in omega (arith, ap (λ (t : ℕ). t * c) e)

complement_right : (a c : ℕ) → a < 2 ^ 32 → c * (2 ^ 32 - a) + c * a ≡ 2 ^ 32 * c
complement_right a c h =
    let e : 2 ^ 32 - a + a ≡ 2 ^ 32 = omega arith in omega (arith, ap (λ (t : ℕ). c * t) e)

product_mod :
    (x a b pa na pb nb : ℕ)
    → x < 2 ^ 32
    → a < 2 ^ 32
    → b < 2 ^ 32
    → (x + (pa * nb + na * pb)) % 2 ^ 32 ≡ (pa * pb + na * nb) % 2 ^ 32
    → (pa ≡ a) × (na ≡ 0) ⊎ (pa ≡ 0) × (na ≡ 2 ^ 32 - a)
    → (pb ≡ b) × (nb ≡ 0) ⊎ (pb ≡ 0) × (nb ≡ 2 ^ 32 - b)
    → x ≡ a * b % 2 ^ 32
product_mod x a b pa na pb nb hx ha hb e (inl (p, q)) (inl (r, s)) =
    let f = rw (p, q, r, s) at e in ground arith
product_mod x a b pa na pb nb hx ha hb e (inl (p, q)) (inr (r, s)) =
    let f = rw (p, q, r, s) at e in omega (arith, complement_right b a hb)
product_mod x a b pa na pb nb hx ha hb e (inr (p, q)) (inl (r, s)) =
    let f = rw (p, q, r, s) at e in omega (arith, complement_left a b ha)
product_mod x a b pa na pb nb hx ha hb e (inr (p, q)) (inr (r, s)) =
    let f = rw (p, q, r, s) at e in
    omega (arith, complement_left a (2 ^ 32 - b) ha, complement_right b a hb)

-- The low half of a signed product is that of the unsigned product.
pub signed_product_low :
    (a b : ℕ) → a < 2 ^ 32 → b < 2 ^ 32 → unsigned32 (signed32 a *ℤ signed32 b) ≡ a * b % 2 ^ 32
unfolding ◌*ℤ◌
signed_product_low a b ha hb =
    product_mod (unsigned32 (signed32 a *ℤ signed32 b)) a b (pos_part (signed32 a))
      (neg_part (signed32 a)) (pos_part (signed32 b)) (neg_part (signed32 b))
      (unsigned32-lt (signed32 a *ℤ signed32 b)) ha hb (unsigned_sub _ _) (signed_parts a ha)
      (signed_parts b hb)

quotient_cases : (m n : ℕ) → 0 < n → (n ≡ 1) × (m / n ≡ m) ⊎ (1 < n) × (2 * (m / n) ≤ m)
quotient_cases m n h = elim (dec_lt 1 n) [
  | yes p ↦ inr (p, grind (arith, div-add-mod' m n))
  | no p ↦ let e : n ≡ 1 = omega arith in inl (e, rw e (omega arith))
]

-- The signed quotient of dwords fits 32 bits but for the least dword divided by -1.
pub fits32-div_ℤ :
    (a b : ℕ)
    → a < 2 ^ 32
    → b < 2 ^ 32
    → b ≢ 0
    → fits32 (div_ℤ (signed32 a) (signed32 b)) ≡ not ((a == 2 ^ 31) && (b == 2 ^ 32 - 1))
unfolding fits32 div_ℤ
fits32-div_ℤ a b ha hb ne = ground (
  arith,
  signed_parts a ha,
  signed_parts b hb,
  quotient_cases (pos_part (signed32 a) + neg_part (signed32 a))
      (pos_part (signed32 b) + neg_part (signed32 b)),
)

-- The test of SDIV for a quotient out of range.
pub not-fits32 :
    (z : ℤ) → (ltb_ℤ (pos (2 ^ 31 - 1)) z || ltb_ℤ z (negsuc (2 ^ 31 - 1))) ≡ not (fits32 z)
unfolding fits32
not-fits32 z = ground arith
