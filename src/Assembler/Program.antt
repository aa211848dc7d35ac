-- ===== src/Assembler/Program.antt =====
-- `src/assembler/vasm.y` as a whole: every alternative of `exp` with its action, and `main`.
--
-- The alternatives that flex and bison read from an input without a syntax error, what
-- getopt makes of the arguments, the success of `fopen` and of the allocations, and glib's hash
-- table are parameters.
use Prim.Native.String.{String}
use emylathor.Base.{
  ℕ, ◌+◌, Bool, true, false, ◌||◌, Option, none, some, List, [], ◌∷◌, ltb, if◌then◌else◌,
}
use emylathor.Emit.{EmitContext, Emitted, emitted, exited, overran, ◌>=>◌, dynamic_buffer_size}
use emylathor.Emit.Labels.{
  HashTable, LabelContext, emit_create_context, emit_label, label_resolution, loadadr, loadadr_then,
}
use emylathor.Emit.Load32.{load32}
use emylathor.Emit.Bytes.{
  directive_byte, directive_bytes, directive_word, directive_dword, align_loop, write_file,
}
use emylathor.Lookup.{get_reg_for_name}
use emylathor.Assembler.{Statement, condition_code}
use emylathor.Assembler.Instruction.{instruction}

-- An alternative of `exp`: an empty line, an instruction, a pseudo instruction or a directive.
pub data Exp : Type 0 where
  empty : Exp
  statement : Statement → Exp
  op_pseudo_loadadr : Option String → String → String → Exp
  op_pseudo_ldcall : Option String → String → String → Exp
  op_pseudo_ldjmp : Option String → String → String → Exp
  op_pseudo_load32 : Option String → String → ℕ → Exp
  directive_align : ℕ → ℕ → Exp
  directive_label : String → Exp
  directive_offset : ℕ → Exp
  byte : ℕ → Exp
  word : ℕ → Exp
  dword : ℕ → Exp
  directive_at : ℕ → Exp
  bytes : List ℕ → Exp

-- An option that `getopt_long` has found: `--fixed-buffer` with the number that `atoi` reads from its
-- argument, `--help`, `--img`, `--asm`, or one that it does not know.
pub data CommandOption : Type 0 where
  fixed_buffer : ℕ → CommandOption
  help : CommandOption
  img_file : String → CommandOption
  asm_file : String → CommandOption
  not_known : CommandOption

-- The variables of `main`.
pub record Settings : Type 0 where
  pub error : ℕ
  pub buffer_size : ℕ
  pub fixed_size : Bool
  pub path : Option String
  pub img : Option String

abbrev pub initial : Settings
initial = record { error = 0; buffer_size = 0; fixed_size = false; path = none; img = none }

-- `while(1)`: `--help` exits.
unfoldable pub options : List CommandOption → Settings → Emitted Settings
options [] s = emitted s
options (fixed_buffer n ∷ rest) s = options rest (record s { buffer_size = n; fixed_size = true })
options (help ∷ rest) s = exited 0
options (img_file name ∷ rest) s = options rest (record s { img = some name })
options (asm_file name ∷ rest) s = options rest (record s { path = some name })
options (not_known ∷ rest) s = options rest (record s { error = s.error + 1 })

-- `if((path == NULL) || (img == NULL))`
abbrev pub both_names : Option String → Option String → Emitted (String × String)
both_names none img = exited 1
both_names (some path) none = exited 1
both_names (some path) (some img) = emitted (path, img)

-- The checks behind the loop, and the two names.
unfoldable pub file_names : ℕ → Settings → Emitted (String × String)
file_names argc s = if ltb 0 s.error || ltb argc 3 then exited 1 else both_names s.path s.img

-- The size that the buffer starts with.
abbrev pub start_size : Settings → ℕ
start_size s = if s.fixed_size then s.buffer_size else dynamic_buffer_size

-- Behind something that ends, or is still running (none).
unfoldable pub behind {ℓ κ} :
    {A : Type ℓ} {B : Type κ} → (A → Option (Emitted B)) → Option (Emitted A) → Option (Emitted B)
behind f none = none
behind f (some (emitted x)) = f x
behind f (some (exited status)) = some (exited status)
behind f (some overran) = some overran

module _ (H : HashTable) where
  -- The buffer of the context after a call.
  unfoldable pub on_buffer :
      (EmitContext → Emitted EmitContext)
      → LabelContext H.State
      → Option (Emitted (LabelContext H.State))
  on_buffer f ctx = some (f ctx.buffer >=> λ b. emitted (record ctx { buffer = b }))

  module _ (realloc : ℕ → Option (ℕ → ℕ)) (malloc : Bool) where
    -- The action of an alternative; the loop of `.align` runs for at most the given number of rounds.
    unfoldable pub action : ℕ → Exp → LabelContext H.State → Option (Emitted (LabelContext H.State))
    unfolding on_buffer behind instruction condition_code get_reg_for_name emit_label loadadr
        loadadr_then load32 align_loop directive_byte directive_bytes directive_word directive_dword
    action rounds empty ctx = some (emitted ctx)
    action rounds (statement st) ctx = on_buffer (instruction realloc st) ctx
    action rounds (op_pseudo_loadadr c r name) ctx =
        some (loadadr H realloc malloc name (get_reg_for_name r) (condition_code c) ctx)
    action rounds (op_pseudo_ldcall c r name) ctx =
        some (loadadr_then H realloc 0x0c malloc name (get_reg_for_name r) (condition_code c) ctx)
    action rounds (op_pseudo_ldjmp c r name) ctx =
        some (loadadr_then H realloc 0x0b malloc name (get_reg_for_name r) (condition_code c) ctx)
    action rounds (op_pseudo_load32 c r val) ctx =
        on_buffer (load32 realloc (condition_code c) (get_reg_for_name r) val) ctx
    action rounds (directive_align n filler) ctx =
        behind (λ b. some (emitted (record ctx { buffer = b })))
          (align_loop realloc rounds n filler ctx.buffer)
    action rounds (directive_label name) ctx = some (emit_label H name ctx)
    action rounds (directive_offset n) ctx = some (emitted (record ctx { offset = n }))
    action rounds (byte n) ctx = on_buffer (directive_byte realloc n) ctx
    action rounds (word n) ctx = on_buffer (directive_word realloc n) ctx
    action rounds (dword n) ctx = on_buffer (directive_dword realloc n) ctx
    action rounds (directive_at n) ctx =
        some (emitted (record ctx { buffer = record ctx.buffer { pos = n } }))
    action rounds (bytes ns) ctx = on_buffer (directive_bytes realloc ns) ctx

    -- `exps`: one action after the other. The grammar wants one at least, and an input without any is a
    -- syntax error to the parser.
    unfoldable pub exps :
        ℕ → List Exp → LabelContext H.State → Option (Emitted (LabelContext H.State))
    unfolding action behind
    exps rounds [] ctx = some (emitted ctx)
    exps rounds (e ∷ rest) ctx = behind (exps rounds rest) (action rounds e ctx)

    -- `label_resolution` and `write_file`: the bytes of the file, if it can be opened.
    unfoldable pub finish : Bool → LabelContext H.State → Option (Emitted (List ℕ))
    unfolding label_resolution write_file
    finish writable ctx = some (
        label_resolution H realloc ctx >=> λ c.
        if writable then emitted (write_file c.buffer) else exited 1)

    -- `main` from where the files are named. A file that cannot be opened ends it with -1; a context
    -- that could not be allocated is NULL, which is read.
    unfoldable pub assemble :
        ℕ → Settings → Option (List Exp) → Bool → Bool → Bool → Option (Emitted (List ℕ))
    unfolding emit_create_context behind exps finish
    assemble rounds s none calloc table writable = some (exited 255)
    assemble rounds s (some input) calloc table writable =
        elim (emit_create_context H malloc calloc table (start_size s) s.fixed_size) [
          | none ↦ some overran
          | some ctx ↦ behind (finish writable) (exps rounds input (record ctx { offset = 4096 }))
        ]

    -- `main`: `read` is what the parser reads from a file that can be opened, `writable` whether the
    -- image can be.
    unfoldable pub vasm :
        (String → Option (List Exp))
        → (String → Bool)
        → Bool
        → Bool
        → ℕ
        → ℕ
        → List CommandOption
        → Option (Emitted (List ℕ))
    unfolding options file_names assemble behind
    vasm read writable calloc table rounds argc opts =
        behind
          (λ s.
            behind (λ (path, img). assemble rounds s (read path) calloc table (writable img))
              (some (file_names argc s)))
          (some (options opts initial))
