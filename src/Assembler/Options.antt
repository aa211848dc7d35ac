-- ===== src/Assembler/Options.antt =====
-- The arguments of `src/assembler/vasm.y`: the ways in which `main` ends before it assembles.
use Prim.Native.String.{String}
use mathlib.Core.Bool.{false≢true, true≢false}
use mathlib.Core.Option.{some-ne-none}
use emylathor.Base.{
  ℕ, ◌<◌, ◌≤◌, ◌≡◌, refl, ap, ◌∙◌, ◌⊎◌, inl, inr, Bool, true, false, ◌||◌, Option, none, some, List,
  [], ◌∷◌, arith, ltb, if◌then◌else◌,
}
use emylathor.Emit.{Emitted, emitted, exited}
use emylathor.Emit.Labels.{HashTable}
use emylathor.Assembler.Program.{
  Exp, CommandOption, fixed_buffer, help, img_file, asm_file, not_known, Settings, initial, behind,
  options, both_names, file_names, assemble, vasm,
}

-- Whether an option of a kind is given.
abbrev pub Kind : Type 0
Kind = CommandOption → Bool

abbrev pub is_help : Kind
is_help help = true
is_help _ = false

abbrev pub is_unknown : Kind
is_unknown not_known = true
is_unknown _ = false

abbrev pub is_img : Kind
is_img (img_file name) = true
is_img _ = false

abbrev pub is_asm : Kind
is_asm (asm_file name) = true
is_asm _ = false

unfoldable pub given : Kind → List CommandOption → Bool
given kind [] = false
given kind (o ∷ rest) = let others = given kind rest in kind o || others

-- With `--help`, wherever it stands, the loop exits.
options-help :
    (opts : List CommandOption) (s : Settings)
    → given is_help opts ≡ true
    → options opts s ≡ exited 0
unfolding given options
options-help [] s h = absurd (false≢true h)
options-help (fixed_buffer n ∷ rest) s h = options-help rest _ h
options-help (help ∷ rest) s h = refl
options-help (img_file name ∷ rest) s h = options-help rest _ h
options-help (asm_file name ∷ rest) s h = options-help rest _ h
options-help (not_known ∷ rest) s h = options-help rest _ h

-- What the loop leaves in the variables, where it does not exit.
record Left (opts : List CommandOption) (s s₁ : Settings) : Type 0 where
  pub counted : s.error ≤ s₁.error
  pub unknown : given is_unknown opts ≡ true → 0 < s₁.error
  pub no_path : s.path ≡ none → given is_asm opts ≡ false → s₁.path ≡ none
  pub no_img : s.img ≡ none → given is_img opts ≡ false → s₁.img ≡ none

options-Left :
    (opts : List CommandOption) (s : Settings)
    → given is_help opts ≡ false
    → (s₁ : Settings) × (options opts s ≡ emitted s₁) × Left opts s s₁
unfolding given options
options-Left [] s h = (
  s,
  refl,
  record {
    counted = omega arith;
    unknown = λ k. absurd (false≢true k);
    no_path = λ p k. p;
    no_img = λ p k. p;
  },
)
options-Left (fixed_buffer n ∷ rest) s h =
    let (s₁, done, l) = options-Left rest _ h in
    (
      s₁,
      done,
      record { counted = l.counted; unknown = l.unknown; no_path = l.no_path; no_img = l.no_img },
    )
options-Left (help ∷ rest) s h = absurd (true≢false h)
options-Left (img_file name ∷ rest) s h =
    let (s₁, done, l) = options-Left rest _ h in
    (
      s₁,
      done,
      record {
        counted = l.counted;
        unknown = l.unknown;
        no_path = l.no_path;
        no_img = λ p k. absurd (true≢false k);
      },
    )
options-Left (asm_file name ∷ rest) s h =
    let (s₁, done, l) = options-Left rest _ h in
    (
      s₁,
      done,
      record {
        counted = l.counted;
        unknown = l.unknown;
        no_path = λ p k. absurd (true≢false k);
        no_img = l.no_img;
      },
    )
options-Left (not_known ∷ rest) s h =
    let (s₁, done, l) = options-Left rest _ h in
    let more = l.counted in
    (
      s₁,
      done,
      record {
        counted = omega arith;
        unknown = λ k. omega arith;
        no_path = l.no_path;
        no_img = l.no_img;
      },
    )

without :
    (b : Bool) (p i : Option String)
    → (p ≡ none) ⊎ (i ≡ none)
    → (if b then exited 1 else both_names p i) ≡ exited 1
without true p i h = refl
without false none i h = refl
without false (some p) none h = refl
without false (some p) (some i) (inl h) = absurd (some-ne-none p h)
without false (some p) (some i) (inr h) = absurd (some-ne-none i h)

no_names :
    (s : Settings) (argc : ℕ) → (s.path ≡ none) ⊎ (s.img ≡ none) → file_names argc s ≡ exited 1
unfolding file_names
no_names s argc h = without (ltb 0 s.error || ltb argc 3) s.path s.img h

refused :
    (opts : List CommandOption) (s₁ : Settings) (argc : ℕ)
    → Left opts initial s₁
    → (argc < 3)
      ⊎ ((given is_unknown opts ≡ true)
          ⊎ ((given is_asm opts ≡ false) ⊎ (given is_img opts ≡ false)))
    → file_names argc s₁ ≡ exited 1
unfolding file_names
refused opts s₁ argc l (inl few) = ground arith
refused opts s₁ argc l (inr (inl k)) = let e = l.unknown k in ground arith
refused opts s₁ argc l (inr (inr (inl k))) = no_names s₁ argc (inl (l.no_path refl k))
refused opts s₁ argc l (inr (inr (inr k))) = no_names s₁ argc (inr (l.no_img refl k))

-- `vasm` ends before it reads its input: with the status 0 if `--help` is among the options, and
-- otherwise with the status 1 if there are less than two arguments, an option that it does not know, or
-- no `--asm` or no `--img`; and with the status 255 if the two files are named but the input cannot be
-- opened.
pub vasm-exits :
    (H : HashTable) (realloc : ℕ → Option (ℕ → ℕ)) (malloc calloc table : Bool)
    (read : String → Option (List Exp)) (writable : String → Bool) (rounds argc : ℕ)
    (opts : List CommandOption) (path img : String)
    → (given is_help opts ≡ true
        → vasm H realloc malloc read writable calloc table rounds argc opts ≡ some (exited 0))
      × (given is_help opts ≡ false
          → (argc < 3)
            ⊎ ((given is_unknown opts ≡ true)
                ⊎ ((given is_asm opts ≡ false) ⊎ (given is_img opts ≡ false)))
          → vasm H realloc malloc read writable calloc table rounds argc opts ≡ some (exited 1))
      × (3 ≤ argc
          → read path ≡ none
          → vasm H realloc malloc read writable calloc table rounds argc
              (asm_file path ∷ img_file img ∷ [])
            ≡ some (exited 255))
unfolding vasm behind assemble options file_names
vasm-exits H realloc malloc calloc table read writable rounds argc opts path img =
    let start : Settings → Option (Emitted (List ℕ)) = λ s.
      behind (λ (p, i). assemble H realloc malloc rounds s (read p) calloc table (writable i))
        (some (file_names argc s)) in
    let named = record initial { path = some path; img = some img } in
    let go : Emitted (String × String) → Option (Emitted (List ℕ)) = λ r.
      behind (λ (p, i). assemble H realloc malloc rounds named (read p) calloc table (writable i))
        (some r) in
    (
      λ h. ap (λ r. behind start (some r)) (options-help opts initial h),
      λ h k.
          let (s₁, done, l) = options-Left opts initial h in
          ap (λ r. behind start (some r)) done
          ∙ ap
              (λ r.
                behind
                  (λ (p, i). assemble H realloc malloc rounds s₁ (read p) calloc table (writable i))
                  (some r))
              (refused opts s₁ argc l k),
      λ h missing.
          let enough : ltb argc 3 ≡ false = ground arith in
          ap (λ t. go (if t then exited 1 else emitted (path, img))) enough
          ∙ ap (λ x. assemble H realloc malloc rounds named x calloc table (writable img)) missing,
    )
