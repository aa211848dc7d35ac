-- ===== src/Pio.antt =====
-- `src/cpu/pio.c`: the table of 128 I/O ports and the latch behind port 0.
pub mod Laws
use emylathor.Base.{ℕ, Bool, true, false, Option, none, some, ltb, leb, if◌then◌else◌}
use emylathor.Machine.{EmulatorContext, PortHandler, pio_null, store, ◌>>=◌}

unfoldable pub pio_init : EmulatorContext → EmulatorContext
pio_init e = record e { ports = store e.ports 0 (some pio_null) }

-- `pio_null`: what it leaves in `*data`, and the static `latch`.
pub null_port : Bool → ℕ → EmulatorContext → ℕ × EmulatorContext
null_port true data_in e = (e.latch, e)
null_port false data_in e = (data_in, record e { latch = data_in })

-- `(ports[no])(read, &data, ectx)`
pub call_port : PortHandler → Bool → ℕ → EmulatorContext → ℕ × EmulatorContext
unfolding null_port
call_port pio_null is_read data_in e = null_port is_read data_in e

pub pio_register_port : ℕ → PortHandler → EmulatorContext → EmulatorContext
pio_register_port port hndl e =
    if leb 128 port then e else record e { ports = store e.ports port (some hndl) }

-- `ports[no]`, for a `byte` that may exceed the table.
pub port_at : ℕ → EmulatorContext → Option (Option PortHandler)
port_at port e = if ltb port 128 then some (e.ports port) else none

-- `data` is not initialised before the call; every handler sets it on a read.
pub pio_read : ℕ → EmulatorContext → Option (ℕ × EmulatorContext)
unfolding port_at call_port
pio_read port e = do
  h ← port_at port e
  elim h [ none ↦ some (port, e) | some f ↦ some (call_port f true 0 e) ]

pub pio_write : ℕ → ℕ → EmulatorContext → Option EmulatorContext
unfolding port_at call_port
pio_write port data_in e = do
  h ← port_at port e
  elim h [ none ↦ some e | some f ↦ some (call_port f false data_in e).1 ]
