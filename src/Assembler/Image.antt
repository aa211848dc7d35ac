-- ===== src/Assembler/Image.antt =====
-- The file that the assembler writes, as the disassembler reads it.
use emylathor.Base.{
  ℕ, zero, suc, ◌+◌, ◌*◌, ◌<◌, ◌≡◌, refl, ap, ◌∙◌, List, [], ◌∷◌, ◌++◌, arith, inl, inr, ◌==◌,
  Bool-cases,
}
use emylathor.Disassembler.Program.{disasm_at}
use emylathor.Disassembler.Program.Laws.{lines_from}
use emylathor.Emit.Bytes.{first_of}
use emylathor.Emit.Bytes.Append.{length, length-append}

-- `g_file_load_contents` puts a byte 0 behind the contents.
unfoldable pub element : List ℕ → ℕ → ℕ
element [] i = 0
element (x ∷ xs) zero = x
element (x ∷ xs) (suc i) = element xs i

-- The contents of a file with their length.
abbrev pub contents : List ℕ → (ℕ → ℕ) × ℕ
contents xs = (element xs, length xs)

element-append : (xs : List ℕ) (y i : ℕ) → i < length xs → element (xs ++ y ∷ []) i ≡ element xs i
unfolding element length
element-append [] y i h = absurd (omega arith)
element-append (x ∷ xs) y zero h = refl
element-append (x ∷ xs) y (suc i) h = element-append xs y i (omega arith)

element-last : (xs : List ℕ) (y i : ℕ) → i ≡ length xs → element (xs ++ y ∷ []) i ≡ y
unfolding element length
element-last [] y zero h = refl
element-last [] y (suc i) h = absurd (omega arith)
element-last (x ∷ xs) y zero h = absurd (omega arith)
element-last (x ∷ xs) y (suc i) h = element-last xs y i (omega arith)

pub length-first_of : (n : ℕ) (a : ℕ → ℕ) → length (first_of n a) ≡ n
unfolding first_of length
length-first_of zero a = refl
length-first_of (suc n) a =
    length-append (first_of n a) (a n ∷ []) ∙ omega (arith, length-first_of n a)

pub element-first_of : (n : ℕ) (a : ℕ → ℕ) (i : ℕ) → i < n → element (first_of n a) i ≡ a i
unfolding first_of
element-first_of zero a i h = absurd (omega arith)
element-first_of (suc n) a i h =
    let long = length-first_of n a in
    elim (Bool-cases (i == n)) [
      | inl last ↦
          element-last (first_of n a) (a n) i (ground (arith, long)) ∙ ap a (ground (arith))
      | inr before ↦
          element-append (first_of n a) (a n) i (ground (arith, long))
          ∙ element-first_of n a i (ground arith)
    ]

-- A part of the bytes that is the same is listed in the same way.
pub disasm_at-kept :
    (f g : ℕ → ℕ) (p : ℕ) → ((i : ℕ) → i < p + 4 → f i ≡ g i) → disasm_at f p ≡ disasm_at g p
unfolding disasm_at
disasm_at-kept f g p same = cc (
  same p (omega arith),
  same (p + 1) (omega arith),
  same (p + 2) (omega arith),
  same (p + 3) (omega arith),
)

pub lines_from-kept :
    (f g : ℕ → ℕ) (p k : ℕ)
    → ((i : ℕ) → i < p + 4 * k → f i ≡ g i)
    → lines_from f p k ≡ lines_from g p k
unfolding lines_from
lines_from-kept f g p zero same = refl
lines_from-kept f g p (suc k) same = cc (
  disasm_at-kept f g p (λ i h. same i (omega arith)),
  lines_from-kept f g (p + 4) k (λ i h. same i (omega arith)),
)
