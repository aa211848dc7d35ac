-- ===== src/Emit/Bytes/Image.antt =====
-- The directives for data against the bytes that they stand for.
use emylathor.Base.{
  ℕ, ◌+◌, ◌/◌, ◌%◌, ◌^◌, ◌<◌, ◌≡◌, refl, ap, Option, List, [], ◌∷◌, ◌++◌, arith, u8, ltb, false,
  if◌then◌else◌,
}
use emylathor.Memory.{
  hhbyte_from_dword, hlbyte_from_dword, lhbyte_from_dword, llbyte_from_dword, hbyte_from_word,
  lbyte_from_word,
}
use emylathor.Memory.Laws.{dword_bytes, word_bytes}
use emylathor.Emit.{EmitContext, Emitted, emitted, exited, ◌>=>◌, emit_byte}
use emylathor.Emit.Buffer.{available}
use emylathor.Emit.Bytes.{directive_byte, directive_bytes, directive_word, directive_dword}
use emylathor.Emit.Bytes.Laws.{IsBlocked}
use emylathor.Emit.Bytes.Append.{
  length, length-append, Appends, Appends-append, Appends-nil, appends, emit_byte-Appends,
}

-- A directive with its argument, of the type that the lexer gives it.
pub data Directive : Type 0 where
  bytes : List ℕ → Directive
  word : ℕ → Directive
  dword : ℕ → Directive

-- The action of a directive.
pub directive : (ℕ → Option (ℕ → ℕ)) → Directive → EmitContext → Emitted EmitContext
directive realloc (bytes ns) = directive_bytes realloc ns
directive realloc (word n) = directive_word realloc n
directive realloc (dword n) = directive_dword realloc n

-- The actions for a sequence of directives.
pub directives : (ℕ → Option (ℕ → ℕ)) → List Directive → EmitContext → Emitted EmitContext
unfolding directive
directives realloc [] ctx = emitted ctx
directives realloc (d ∷ rest) ctx = directive realloc d ctx >=> directives realloc rest

-- The bytes that it stands for: numbers are little-endian.
pub image : Directive → List ℕ
image (bytes ns) = ns
image (word n) = n % 2 ^ 8 ∷ n / 2 ^ 8 ∷ []
image (dword n) = n % 2 ^ 8 ∷ n / 2 ^ 8 % 2 ^ 8 ∷ n / 2 ^ 16 % 2 ^ 8 ∷ n / 2 ^ 24 ∷ []

-- The image of a sequence.
unfoldable pub images : List Directive → List ℕ
unfolding image
images [] = []
images (d ∷ rest) = image d ++ images rest

pub AreBytes : List ℕ → Type 0
AreBytes [] = Unit
AreBytes (n ∷ ns) = (n < 2 ^ 8) × AreBytes ns

-- The numbers have the widths that the directives take.
pub IsInRange : Directive → Type 0
unfolding AreBytes
IsInRange (bytes ns) = AreBytes ns
IsInRange (word n) = n < 2 ^ 16
IsInRange (dword n) = n < 2 ^ 32

unfoldable pub AreInRange : List Directive → Type 0
unfolding IsInRange
AreInRange [] = Unit
AreInRange (d ∷ rest) = IsInRange d × AreInRange rest

list_ap : {x y : ℕ} {xs ys : List ℕ} → x ≡ y → xs ≡ ys → x ∷ xs ≡ y ∷ ys
list_ap p q = cc

module _ (fresh : ℕ → ℕ → ℕ) where
  byte_lem :
      (n : ℕ) (ctx : EmitContext)
      → n < 2 ^ 8
      → IsBlocked ctx
      → ctx.pos + 1024 < 2 ^ 32
      → Appends ctx (directive_byte (available fresh) n ctx) (n ∷ [])
  unfolding directive_byte
  byte_lem n ctx h a l =
      let fits : ltb 0xff n ≡ false = ground arith in
      appends ctx (emit_byte (available fresh) (u8 n) ctx) _
        (emit_byte-Appends fresh (u8 n) ctx a l)
        (ap (λ t. if t then exited 255 else emit_byte (available fresh) (u8 n) ctx) fits)
        (ap (λ k. k ∷ []) (omega arith))

  bytes_lem :
      (ns : List ℕ) (ctx : EmitContext)
      → AreBytes ns
      → IsBlocked ctx
      → ctx.pos + length ns + 1024 < 2 ^ 32
      → Appends ctx (directive_bytes (available fresh) ns ctx) ns
  unfolding directive_bytes AreBytes length
  bytes_lem [] ctx h a l = Appends-nil ctx a
  bytes_lem (n ∷ ns) ctx (h, hs) a l =
      Appends-append ctx (directive_byte (available fresh) n ctx)
        (directive_bytes (available fresh) ns) (n ∷ []) ns (byte_lem n ctx h a (omega arith))
        λ ctx₁ b p. bytes_lem ns ctx₁ hs b (omega (arith, p))

  -- Two bytes, and what follows.
  pair_lem :
      (x y : ℕ) (ctx : EmitContext)
      → IsBlocked ctx
      → ctx.pos + 1026 < 2 ^ 32
      → Appends ctx
          (emit_byte (available fresh) x ctx >=> emit_byte (available fresh) y)
          (u8 x ∷ u8 y ∷ [])
  unfolding length
  pair_lem x y ctx a l =
      Appends-append ctx (emit_byte (available fresh) x ctx) (emit_byte (available fresh) y)
        (u8 x ∷ []) (u8 y ∷ []) (emit_byte-Appends fresh x ctx a (omega arith))
        λ ctx₁ b p. emit_byte-Appends fresh y ctx₁ b (omega (arith, p))

  word_lem :
      (n : ℕ) (ctx : EmitContext)
      → n < 2 ^ 16
      → IsBlocked ctx
      → ctx.pos + 1026 < 2 ^ 32
      → Appends ctx (directive_word (available fresh) n ctx) (image (word n))
  unfolding directive_word image
  word_lem n ctx h a l =
      let (high, low) = word_bytes n in
      appends ctx _ _ (pair_lem (lbyte_from_word n) (hbyte_from_word n) ctx a l) refl
        (list_ap (omega (arith, low)) (list_ap (omega (arith, high)) refl))

  dword_lem :
      (n : ℕ) (ctx : EmitContext)
      → n < 2 ^ 32
      → IsBlocked ctx
      → ctx.pos + 1028 < 2 ^ 32
      → Appends ctx (directive_dword (available fresh) n ctx) (image (dword n))
  unfolding directive_dword image length
  dword_lem n ctx h a l =
      let (uh, ul, lh, ll) = dword_bytes n h in
      let a1 = llbyte_from_dword n in
      let a2 = lhbyte_from_dword n in
      let a3 = hlbyte_from_dword n in
      let a4 = hhbyte_from_dword n in
      let two = emit_byte (available fresh) a1 ctx >=> emit_byte (available fresh) a2 in
      let three : Appends ctx (two >=> emit_byte (available fresh) a3)
          (u8 a1 ∷ u8 a2 ∷ u8 a3 ∷ []) =
        Appends-append ctx two (emit_byte (available fresh) a3) (u8 a1 ∷ u8 a2 ∷ []) (u8 a3 ∷ [])
          (pair_lem a1 a2 ctx a (omega arith))
          λ ctx₁ b p. emit_byte-Appends fresh a3 ctx₁ b (omega (arith, p)) in
      appends ctx _ _
        (Appends-append ctx (two >=> emit_byte (available fresh) a3)
          (emit_byte (available fresh) a4) (u8 a1 ∷ u8 a2 ∷ u8 a3 ∷ []) (u8 a4 ∷ []) three
          λ ctx₁ b p. emit_byte-Appends fresh a4 ctx₁ b (omega (arith, p)))
        refl
        (list_ap (omega (arith, ll)) (
          list_ap (omega (arith, lh))
            (list_ap (omega (arith, ul)) (list_ap (omega (arith, uh)) refl))))

  directive_lem :
      (d : Directive) (ctx : EmitContext)
      → IsInRange d
      → IsBlocked ctx
      → ctx.pos + length (image d) + 1024 < 2 ^ 32
      → Appends ctx (directive (available fresh) d ctx) (image d)
  unfolding directive image IsInRange length
  directive_lem (bytes ns) ctx h a l = bytes_lem ns ctx h a l
  directive_lem (word n) ctx h a l = word_lem n ctx h a (omega arith)
  directive_lem (dword n) ctx h a l = dword_lem n ctx h a (omega arith)

  -- For a sequence of `.bytes`, `.word` and `.dword` with numbers in range, emitted into a dynamic
  -- buffer while memory is available and four gigabytes are not reached, the assembler neither exits
  -- nor overruns the buffer, and appends to the file exactly the little-endian bytes of the numbers.
  pub directives_lem :
      (ds : List Directive) (ctx : EmitContext)
      → AreInRange ds
      → IsBlocked ctx
      → ctx.pos + length (images ds) + 1024 < 2 ^ 32
      → Appends ctx (directives (available fresh) ds ctx) (images ds)
  unfolding directives images AreInRange
  directives_lem [] ctx h a l = Appends-nil ctx a
  directives_lem (d ∷ ds) ctx (h, hs) a l =
      let long = length-append (image d) (images ds) in
      Appends-append ctx (directive (available fresh) d ctx) (directives (available fresh) ds)
        (image d) (images ds) (directive_lem d ctx h a (omega (arith, long)))
        λ ctx₁ b p. directives_lem ds ctx₁ hs b (omega (arith, p, long))
