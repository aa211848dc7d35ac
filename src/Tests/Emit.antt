-- ===== src/Tests/Emit.antt =====
-- Instructions that are emitted into a full buffer, and bytes that overrun one.
use emylathor.Base.{arith, refl, ℕ, ◌≡◌}
use emylathor.Emit.{emit_bytes, overran}
use emylathor.Emit.Buffer.{available, emit_bytes-overran}
use emylathor.Tests.Machine.{buffer_at, garbage}

emit_bytes-overran_example :
    let fresh = garbage in
    let b1 : ℕ = 1 in
    let b2 : ℕ = 2 in
    let b3 : ℕ = 3 in
    let b4 : ℕ = 4 in
    let ctx = buffer_at 510 in emit_bytes (available fresh) b1 b2 b3 b4 ctx ≡ overran
emit_bytes-overran_example =
    emit_bytes-overran garbage 1 2 3 4 (buffer_at 510) refl refl refl (omega arith) (omega arith)
      (omega arith)
