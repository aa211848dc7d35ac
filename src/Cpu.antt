-- ===== src/Cpu.antt =====
-- The instructions of `src/cpu/cpu.c`, by groups.
pub mod Flags
pub mod Operand
pub mod Effect
pub mod Arith
pub mod Logic
pub mod Compare
pub mod Move
pub mod Transfer
pub mod Stack
pub mod Execute
