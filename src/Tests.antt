-- ===== src/Tests.antt =====
-- The theorems at concrete machines, instructions and buffers.
mod Machine
mod Cpu
mod Run
mod Store
mod Emit
mod Names
mod Table
mod Labels
mod Program
mod Programs
mod Statements
mod Assembler
