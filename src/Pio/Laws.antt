-- ===== src/Pio/Laws.antt =====
-- The port table: the latch behind port 0, the ports that nothing is registered for, and the range
-- of the state.
use emylathor.Base.{
  ℕ, ◌≡◌, ◌≢◌, ◌↔◌, ◌<◌, ◌^◌, Bool, true, false, Option, none, some, arith, ltb, if◌then◌else◌,
}
use emylathor.Machine.{EmulatorContext, PortHandler, pio_null, ◌>>=◌}
use emylathor.Valid.{IsValid, Ensures}
use emylathor.Pio.{null_port, call_port, port_at, pio_read, pio_write}

latch-IsValid :
    (e : EmulatorContext) (x : ℕ) → IsValid e → x < 2 ^ 32 → IsValid (record e { latch = x })
latch-IsValid e x v h = record {
  regs_dword = v.regs_dword;
  cregs_dword = v.cregs_dword;
  pos_dword = v.pos_dword;
  memory_byte = v.memory_byte;
  latch_dword = h;
  count_qword = v.count_qword;
}

-- What a read gives is a dword, and the state stays in range.
abbrev pub ReadIsValid : ℕ × EmulatorContext → Type 0
ReadIsValid (x, e) = (x < 2 ^ 32) × IsValid e

call_port-IsValid :
    (f : PortHandler) (is_read : Bool) (x : ℕ) (e : EmulatorContext)
    → IsValid e
    → x < 2 ^ 32
    → ReadIsValid (call_port f is_read x e)
unfolding call_port null_port
call_port-IsValid pio_null true x e v h = (v.latch_dword, v)
call_port-IsValid pio_null false x e v h = (h, latch-IsValid e x v h)

pub pio_read-IsValid :
    (port : ℕ) (e : EmulatorContext)
    → IsValid e
    → port < 2 ^ 32
    → Ensures ReadIsValid (pio_read port e)
unfolding pio_read
pio_read-IsValid port e v h =
    elim (port_at port e)
      as (λ o.
        Ensures ReadIsValid
          (o >>= (λ t. elim t [ none ↦ some (port, e) | some f ↦ some (call_port f true 0 e) ]))) [
            | none ↦ tt
            | some t ↦
                elim t
                  as (λ u.
                    Ensures ReadIsValid
                      (elim u [ none ↦ some (port, e) | some f ↦ some (call_port f true 0 e) ])) [
                        | none ↦ (h, v)
                        | some f ↦ call_port-IsValid f true 0 e v (omega arith)
                      ]
          ]

pub pio_write-IsValid :
    (port x : ℕ) (e : EmulatorContext)
    → IsValid e
    → x < 2 ^ 32
    → Ensures IsValid (pio_write port x e)
unfolding pio_write
pio_write-IsValid port x e v h =
    elim (port_at port e)
      as (λ o.
        Ensures IsValid
          (o >>= (λ t. elim t [ none ↦ some e | some f ↦ some (call_port f false x e).1 ]))) [
            | none ↦ tt
            | some t ↦
                elim t
                  as (λ u.
                    Ensures IsValid
                      (elim u [ none ↦ some e | some f ↦ some (call_port f false x e).1 ])) [
                        | none ↦ v
                        | some f ↦ (call_port-IsValid f false x e v h).1
                      ]
          ]

-- The read by the entry of a port.
abbrev read_by : ℕ → EmulatorContext → Option PortHandler → Option (ℕ × EmulatorContext)
read_by port e none = some (port, e)
read_by port e (some f) = some (call_port f true 0 e)

-- A port number beyond the table is a read outside it.
pub pio_read_defined_iff :
    (port : ℕ) (e : EmulatorContext) → (pio_read port e ≢ none) ↔ (port < 128)
unfolding pio_read port_at
pio_read_defined_iff port e =
    elim (e.ports port)
      as (λ p. ((if ltb port 128 then some p else none) >>= read_by port e ≢ none) ↔ (port < 128)) [
        | none ↦ ground arith
        | some f ↦ ground arith
      ]

pub pio_write_defined : (port x : ℕ) (e : EmulatorContext) → port < 128 → pio_write port x e ≢ none
unfolding pio_write port_at
pio_write_defined port x e h =
    elim (e.ports port)
      as (λ p.
        (if ltb port 128 then some p else none)
          >>= (λ t. elim t [ none ↦ some e | some f ↦ some (call_port f false x e).1 ])
        ≢ none) [ none ↦ ground arith | some f ↦ ground arith ]

-- A port that `pio_null` handles gives back the last value that was written to it.
pub pio_read-pio_write :
    (port x : ℕ) (e : EmulatorContext)
    → port < 128
    → e.ports port ≡ some pio_null
    → (pio_write port x e ≡ some (record e { latch = x }))
      × (pio_read port (record e { latch = x }) ≡ some (x, record e { latch = x }))
unfolding pio_read pio_write port_at call_port null_port
pio_read-pio_write port x e h n = (ground (arith, n), ground (arith, n))
