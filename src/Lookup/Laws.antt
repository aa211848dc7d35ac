-- ===== src/Lookup/Laws.antt =====
-- The two directions of the tables of `src/common/lookup.c` against each other.
use Prim.Native.String.{String}
use text.Mathlib.Text as Text
use text.Mathlib.TextEquality.{eq_iff}
use emylathor.Base.{
  ℕ, zero, suc, ◌<◌, ◌≤◌, ◌≡◌, ◌≢◌, refl, ◌∙◌, ◌⊎◌, inl, inr, [], ◌∷◌, Bool, true, ◌&&◌, ◌||◌, none,
  some, ◌^◌, ltb, ◌==◌, ==_iff, u8, arith, Bool-cases,
}
use emylathor.Lookup.Tables.{Table, oplkupbuf, reg32lkupbuf, reg16lkupbuf, reg8lkupbuf}
use emylathor.Lookup.{
  code_for_name, name_of_code, not_available, get_op_for_name, get_creg_for_name, get_reg_for_name,
  get_reg16_for_name, get_reg8_for_name, get_name_of_op, get_name_of_creg, get_name_of_reg,
  get_name_of_reg8, get_name_of_reg16, get_cond_for_name, get_name_of_cond,
}

-- A test of every number below a bound, by evaluation.
unfoldable pub all_below : ℕ → (ℕ → Bool) → Bool
all_below zero test = true
all_below (suc n) test = test n && all_below n test

pub all_below_sound :
    (n : ℕ) (test : ℕ → Bool) (k : ℕ) → all_below n test ≡ true → k < n → test k ≡ true
unfolding all_below
all_below_sound zero test k h l = elim l [ ]
all_below_sound (suc n) test k h l = ground (arith, all_below_sound n test k)

-- Each of the 16 codes of a register or of a condition is found again by its name.
pub names_round_trip :
    (code : ℕ)
    → code < 16
    → (get_reg_for_name (get_name_of_reg code) ≡ code)
      × (get_reg16_for_name (get_name_of_reg16 code) ≡ code)
      × (get_reg8_for_name (get_name_of_reg8 code) ≡ code)
      × (get_cond_for_name (get_name_of_cond code) ≡ code)
unfolding all_below get_reg_for_name get_name_of_reg get_reg16_for_name get_name_of_reg16
    get_reg8_for_name get_name_of_reg8 get_cond_for_name get_name_of_cond
names_round_trip code h = (
  (==_iff _ code).0
      (all_below_sound 16 (λ c. get_reg_for_name (get_name_of_reg c) == c) code refl h),
  (==_iff _ code).0
      (all_below_sound 16 (λ c. get_reg16_for_name (get_name_of_reg16 c) == c) code refl h),
  (==_iff _ code).0
      (all_below_sound 16 (λ c. get_reg8_for_name (get_name_of_reg8 c) == c) code refl h),
  (==_iff _ code).0
      (all_below_sound 16 (λ c. get_cond_for_name (get_name_of_cond c) == c) code refl h),
)

op_test :
    (prefix op : ℕ)
    → op < 2 ^ 8
    → Text.◌==◌ (get_name_of_op prefix op) not_available
        || (get_op_for_name (get_name_of_op prefix op) == op)
      ≡ true
unfolding all_below get_op_for_name get_name_of_op
op_test prefix op h =
    all_below_sound 256
      (λ c.
        Text.◌==◌ (get_name_of_op prefix c) not_available
        || (get_op_for_name (get_name_of_op prefix c) == c))
      op refl h

-- Whatever the prefix, an operation that has a name is found again by it.
pub get_op_for_name-get_name_of_op :
    (prefix op : ℕ)
    → op < 2 ^ 8
    → get_name_of_op prefix op ≢ not_available
    → get_op_for_name (get_name_of_op prefix op) ≡ op
get_op_for_name-get_name_of_op prefix op h named =
    ground (arith, op_test prefix op h, eq_iff (get_name_of_op prefix op) not_available)

-- Each of the control registers MR1 to ST1, of code below 8, is found again by its name; but the codes
-- from 8 on, where ST2, ST3 and ST4 belong, have no name, and those three names give the code of ST1.
pub get_creg_for_name-get_name_of_creg :
    (code : ℕ)
    → code < 2 ^ 8
    → (code < 8 → get_creg_for_name (get_name_of_creg code) ≡ code)
      × (8 ≤ code → get_name_of_creg code ≡ not_available)
      × (get_creg_for_name "ST2" ≡ get_creg_for_name "ST1")
      × (get_creg_for_name "ST3" ≡ get_creg_for_name "ST1")
      × (get_creg_for_name "ST4" ≡ get_creg_for_name "ST1")
unfolding all_below get_creg_for_name get_name_of_creg
get_creg_for_name-get_name_of_creg code h =
    let back = λ (c : ℕ). get_creg_for_name (get_name_of_creg c) == c in
    let unnamed = λ (c : ℕ). ltb c 8 || Text.◌==◌ (get_name_of_creg c) not_available in
    (
      λ k. (==_iff _ code).0 (all_below_sound 8 back code refl k),
      λ k. ground (
        arith,
        all_below_sound 256 unnamed code refl h,
        eq_iff (get_name_of_creg code) not_available,
      ),
      refl,
      refl,
      refl,
    )

-- Every name of the entries is the name at their code in the whole table.
abbrev Faithful : Table → Table → Type 0
Faithful whole [] = Unit
Faithful whole ((code, none) ∷ rest) = Faithful whole rest
Faithful whole ((code, some s) ∷ rest) = (name_of_code (u8 code) whole ≡ s) × Faithful whole rest

code_for_name-Faithful :
    (whole : Table) (default : ℕ) (name : String) (t : Table)
    → Faithful whole t
    → (code_for_name default name t ≡ default)
      ⊎ (name_of_code (code_for_name default name t) whole ≡ name)
unfolding code_for_name
code_for_name-Faithful whole default name [] h = inl refl
code_for_name-Faithful whole default name ((code, none) ∷ rest) h =
    code_for_name-Faithful whole default name rest h
code_for_name-Faithful whole default name ((code, some s) ∷ rest) (here, later) =
    elim (Bool-cases (Text.◌==◌ s name)) [
      | inl same ↦ rw same (inr (here ∙ (eq_iff s name).0 same))
      | inr differ ↦ rw differ (code_for_name-Faithful whole default name rest later)
    ]

oplkupbuf-Faithful : Faithful oplkupbuf oplkupbuf
unfolding name_of_code oplkupbuf
oplkupbuf-Faithful = (ground arith)

reg32lkupbuf-Faithful : Faithful reg32lkupbuf reg32lkupbuf
unfolding name_of_code reg32lkupbuf
reg32lkupbuf-Faithful = (ground arith)

reg16lkupbuf-Faithful : Faithful reg16lkupbuf reg16lkupbuf
unfolding name_of_code reg16lkupbuf
reg16lkupbuf-Faithful = (ground arith)

reg8lkupbuf-Faithful : Faithful reg8lkupbuf reg8lkupbuf
unfolding name_of_code reg8lkupbuf
reg8lkupbuf-Faithful = (ground arith)

-- A name of an operation or of a register is accepted with a code that has this name; any other name
-- is replaced by STOP, or by the first register, of code 0.
pub accepted_names :
    (prefix : ℕ) (name : String)
    → ((get_op_for_name name ≡ 0) ⊎ (get_name_of_op prefix (get_op_for_name name) ≡ name))
      × ((get_reg_for_name name ≡ 0) ⊎ (get_name_of_reg (get_reg_for_name name) ≡ name))
      × ((get_reg16_for_name name ≡ 0) ⊎ (get_name_of_reg16 (get_reg16_for_name name) ≡ name))
      × ((get_reg8_for_name name ≡ 0) ⊎ (get_name_of_reg8 (get_reg8_for_name name) ≡ name))
unfolding get_op_for_name get_name_of_op get_reg_for_name get_name_of_reg get_reg16_for_name
    get_name_of_reg16 get_reg8_for_name get_name_of_reg8
accepted_names prefix name = (
  code_for_name-Faithful oplkupbuf 0 name oplkupbuf oplkupbuf-Faithful,
  code_for_name-Faithful reg32lkupbuf 0 name reg32lkupbuf reg32lkupbuf-Faithful,
  code_for_name-Faithful reg16lkupbuf 0 name reg16lkupbuf reg16lkupbuf-Faithful,
  code_for_name-Faithful reg8lkupbuf 0 name reg8lkupbuf reg8lkupbuf-Faithful,
)
