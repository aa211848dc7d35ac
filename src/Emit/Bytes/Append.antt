-- ===== src/Emit/Bytes/Append.antt =====
-- Calls that append bytes to what `write_file` writes.
use mathlib.Core.List.{append-nil, append_assoc}
use emylathor.Base.{ℕ, suc, ◌+◌, ◌^◌, ◌<◌, ◌≡◌, refl, sym, ap, ◌∙◌, List, [], ◌∷◌, ◌++◌, arith, u8}
use emylathor.Emit.{EmitContext, Emitted, emitted, ◌>=>◌, emit_byte}
use emylathor.Emit.Buffer.{available}
use emylathor.Emit.Bytes.{write_file}
use emylathor.Emit.Bytes.Laws.{IsBlocked, emit_byte_lem}

unfoldable pub length {ℓ} : {A : Type ℓ} → List A → ℕ
length [] = 0
length (x ∷ xs) = suc (length xs)

pub length-append {ℓ} : {A : Type ℓ} (xs ys : List A) → length (xs ++ ys) ≡ length xs + length ys
unfolding length
length-append [] ys = omega arith
length-append (x ∷ xs) ys = omega (arith, length-append xs ys)

-- A call appends some bytes to what `write_file` writes, and the buffer grew only when it was full.
abbrev pub Appends : EmitContext → Emitted EmitContext → List ℕ → Type 0
Appends ctx r xs =
    (ctx₁ : EmitContext) × (r ≡ emitted ctx₁)
    × IsBlocked ctx₁
    × (ctx₁.pos ≡ ctx.pos + length xs)
    × (write_file ctx₁ ≡ write_file ctx ++ xs)

-- The same call appends an equal list.
pub appends :
    {xs ys : List ℕ} (ctx : EmitContext) (r r₁ : Emitted EmitContext)
    → Appends ctx r xs
    → r₁ ≡ r
    → xs ≡ ys
    → Appends ctx r₁ ys
appends ctx r r₁ (ctx₁, done, blocked, at, wrote) p q = (
  ctx₁,
  p ∙ done,
  blocked,
  at ∙ ap (λ zs. ctx.pos + length zs) q,
  wrote ∙ ap (λ zs. write_file ctx ++ zs) q,
)

-- What a call appends after some bytes, it appends behind them.
pub Appends-after :
    (ctx ctx₁ : EmitContext) (r : Emitted EmitContext) (xs ys : List ℕ)
    → ctx₁.pos ≡ ctx.pos + length xs
    → write_file ctx₁ ≡ write_file ctx ++ xs
    → Appends ctx₁ r ys
    → Appends ctx r (xs ++ ys)
Appends-after ctx ctx₁ r xs ys at₁ wrote₁ (ctx₂, done₂, blocked₂, at₂, wrote₂) = (
  ctx₂,
  done₂,
  blocked₂,
  omega (arith, at₁, at₂, length-append xs ys),
  wrote₂ ∙ ap (λ w. w ++ ys) wrote₁ ∙ append_assoc (write_file ctx) xs ys,
)

-- The sequence of two calls appends what both append.
pub Appends-append :
    (ctx : EmitContext) (r : Emitted EmitContext) (f : EmitContext → Emitted EmitContext)
    (xs ys : List ℕ)
    → Appends ctx r xs
    → ((ctx₁ : EmitContext)
        → IsBlocked ctx₁
        → ctx₁.pos ≡ ctx.pos + length xs
        → Appends ctx₁ (f ctx₁) ys)
    → Appends ctx (r >=> f) (xs ++ ys)
Appends-append ctx r f xs ys (ctx₁, done₁, blocked₁, at₁, wrote₁) next =
    appends ctx (f ctx₁) (r >=> f)
      (Appends-after ctx ctx₁ (f ctx₁) xs ys at₁ wrote₁ (next ctx₁ blocked₁ at₁))
      (ap (λ r₁. r₁ >=> f) done₁) refl

-- While four gigabytes are not reached, a byte is appended.
pub emit_byte-Appends :
    (fresh : ℕ → ℕ → ℕ) (x : ℕ) (ctx : EmitContext)
    → IsBlocked ctx
    → ctx.pos + 1024 < 2 ^ 32
    → Appends ctx (emit_byte (available fresh) x ctx) (u8 x ∷ [])
unfolding length
emit_byte-Appends fresh x ctx a l = let tight = a.tight in emit_byte_lem fresh x ctx a (omega arith)

pub Appends-nil : (ctx : EmitContext) → IsBlocked ctx → Appends ctx (emitted ctx) []
unfolding length
Appends-nil ctx a = (ctx, refl, a, omega arith, sym (append-nil (write_file ctx)))
