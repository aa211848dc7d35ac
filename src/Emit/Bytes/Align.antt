-- ===== src/Emit/Bytes/Align.antt =====
-- The loop of `.align`.
use emylathor.Base.{
  ℕ, zero, suc, ◌+◌, ◌-◌, ◌%◌, ◌^◌, ◌<◌, ◌≤◌, ◌≡◌, ◌≢◌, refl, sym, ap, ◌∙◌, false, Option, some,
  List, [], ◌∷◌, arith, u8, ◌==◌, if◌then◌else◌, Bool-cases, inl, inr,
}
use native.Mathlib.Nat as Nat
use emylathor.Emit.{EmitContext, Emitted, emitted, exited, overran, emit_byte}
use emylathor.Emit.Buffer.{available}
use emylathor.Emit.Bytes.{align_loop}
use emylathor.Emit.Bytes.Laws.{IsBlocked}
use emylathor.Emit.Bytes.Append.{
  Appends, Appends-after, appends, emit_byte-Appends, length, Appends-nil,
}

-- So many copies of a byte.
pub copies : ℕ → ℕ → List ℕ
copies zero x = []
copies (suc n) x = x ∷ copies n x

-- A position that a smaller step leads to a multiple from is none itself.
not_yet : (n p k : ℕ) → suc k < n → (p + suc k) % n ≡ 0 → p % n ≢ 0
not_yet n p k h m z =
    let moved = Nat.mod-add-mod p n (suc k) in
    let same : (p % n + suc k) % n ≡ suc k % n =
      ap (λ r. (r + suc k) % n) z ∙ ap (λ r. r % n) (omega arith) in
    omega (arith, moved, same, m, Nat.mod-eq_of_lt h)

-- The distance to the next multiple.
distance : (n p : ℕ) → 0 < n → (k : ℕ) × (k < n) × ((p + k) % n ≡ 0)
distance n p h = elim (Bool-cases (p % n == 0)) [
  | inl z ↦
      let here : p % n ≡ 0 = ground arith in
      let still : p + 0 ≡ p = omega arith in (0, h, ap (λ q. q % n) still ∙ here)
  | inr z ↦
      let rest = Nat.mod-lt p h in
      let whole : p % n + (n - p % n) ≡ n = omega arith in
      (
        n - p % n,
        ground arith,
        sym (Nat.mod-add-mod p n (n - p % n)) ∙ ap (λ q. q % n) whole ∙ Nat.mod_self n,
      )
]

module _ (fresh : ℕ → ℕ → ℕ) (n filler : ℕ) where
  stops :
      (rounds : ℕ) (ctx : EmitContext)
      → 0 < n
      → ctx.pos % n ≡ 0
      → align_loop (available fresh) (suc rounds) n filler ctx ≡ some (emitted ctx)
  unfolding align_loop
  stops rounds ctx positive h = ground arith

  goes_on :
      (rounds : ℕ) (ctx ctx₁ : EmitContext)
      → 0 < n
      → ctx.pos % n ≢ 0
      → emit_byte (available fresh) (u8 filler) ctx ≡ emitted ctx₁
      → align_loop (available fresh) (suc rounds) n filler ctx
        ≡ align_loop (available fresh) rounds n filler ctx₁
  unfolding align_loop
  goes_on rounds ctx ctx₁ positive h done =
      let proceed : Emitted EmitContext → Option (Emitted EmitContext) = λ r. elim r [
        | emitted ctx₂ ↦ align_loop (available fresh) rounds n filler ctx₂
        | exited status ↦ some (exited status)
        | overran ↦ some overran
      ] in
      let divides : (n == 0) ≡ false = ground arith in
      let more : (ctx.pos % n == 0) ≡ false = ground arith in
      ap
        (λ t.
          if t
          then some overran
          else if ctx.pos % n == 0
          then some (emitted ctx)
          else proceed (emit_byte (available fresh) (u8 filler) ctx))
        divides
      ∙ ap
          (λ t.
            if t then some (emitted ctx) else proceed (emit_byte (available fresh) (u8 filler) ctx))
          more
      ∙ ap proceed done

  align_loop-copies :
      (k rounds : ℕ) (ctx : EmitContext)
      → k < rounds
      → k < n
      → (ctx.pos + k) % n ≡ 0
      → IsBlocked ctx
      → ctx.pos + k + 1024 < 2 ^ 32
      → (r : Emitted EmitContext) × (align_loop (available fresh) rounds n filler ctx ≡ some r)
        × Appends ctx r (copies k (u8 filler))
  unfolding copies length
  align_loop-copies k zero ctx hr hn hm a l = absurd (omega arith)
  align_loop-copies zero (suc rounds) ctx hr hn hm a l =
      let still : ctx.pos ≡ ctx.pos + 0 = omega arith in
      (emitted ctx, stops rounds ctx hn (ap (λ p. p % n) still ∙ hm), Appends-nil ctx a)
  align_loop-copies (suc k) (suc rounds) ctx hr hn hm a l =
      let x = u8 filler in
      let (ctx₁, done, blocked, at, wrote) : Appends ctx (emit_byte (available fresh) x ctx)
          (x ∷ []) =
        appends ctx _ _ (emit_byte-Appends fresh x ctx a (omega arith)) refl
          (ap (λ y. y ∷ []) (omega arith)) in
      let moved : ctx₁.pos + k ≡ ctx.pos + suc k = omega (arith, at) in
      let (r, ended, appended) =
        align_loop-copies k rounds ctx₁ (omega arith) (omega arith) (ap (λ p. p % n) moved ∙ hm)
          blocked (omega (arith, moved)) in
      (
        r,
        goes_on rounds ctx ctx₁ (omega arith) (not_yet n ctx.pos k hn hm) done ∙ ended,
        Appends-after ctx ctx₁ r (x ∷ []) (copies k x) at wrote appended,
      )

  -- A loop of at least `n` rounds for `.align n`, where `n` is not 0, ends: it appends fewer than `n`
  -- copies of the filler, and no more than bring the position to a multiple of `n`. The buffer is
  -- dynamic, memory is available, and four gigabytes are not reached.
  pub align_loop_lem :
      (rounds : ℕ) (ctx : EmitContext)
      → 0 < n
      → n ≤ rounds
      → IsBlocked ctx
      → ctx.pos + n + 1024 < 2 ^ 32
      → (k : ℕ) × (r : Emitted EmitContext) × (k < n)
        × ((ctx.pos + k) % n ≡ 0)
        × (align_loop (available fresh) rounds n filler ctx ≡ some r)
        × Appends ctx r (copies k (u8 filler))
  align_loop_lem rounds ctx h hr a l =
      let (k, short, multiple) = distance n ctx.pos h in
      let (r, ended, appended) =
        align_loop-copies k rounds ctx (omega arith) short multiple a (omega arith) in
      (k, r, short, multiple, ended, appended)
