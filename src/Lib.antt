-- ===== src/Lib.antt =====
-- A model of the emulator, the assembler and the disassembler of the VA virtual machine.
--
-- The emulator (`src/cpu`) is a loop, `cpu_execute`: it fetches a dword of memory at the instruction
-- pointer (`dec_fetch_ins`, `mem_get_instruction_p`), tests the condition of the instruction against
-- the flags register, and calls one `ins_...` function, which works on the registers, the memory
-- (`memory.c`) or the I/O ports (`pio.c`). The assembler (`src/assembler/vasm.y`) has an action for
-- every statement of its grammar, which calls `src/assembler/emit.c`; this writes instructions in
-- eight formats into a growing buffer, in which it reserves bytes for the addresses of labels;
-- `label_resolution` fills them at the end, and the buffer is the image that the emulator loads. The
-- disassembler (`src/disassembler/lib_vasmdis.c`) splits instructions into fields again, and shows
-- them with the names of `src/common/lookup.c`, which the assembler reads.
--
-- Files:
--   Base           numbers, tests, signed integers, bits and words that the other files share
--   Machine        the contexts of `src/common/types.h` as one record, EmulatorContext; Instruction is
--                  `instruction_context`
--   Valid          the ranges of the C types as an invariant of that record
--   Memory         `src/cpu/memory.c`; Memory/Laws and Memory/Valid
--   Registers      the byte and word registers of `src/cpu/cpu.c`
--   Pio            `src/cpu/pio.c`
--   Decode         `src/cpu/decode.c`
--   Cpu            the instructions of `src/cpu/cpu.c`: Cpu/Arith, Cpu/Logic, Cpu/Compare, Cpu/Move,
--                  Cpu/Transfer, Cpu/Stack; the flags in Cpu/Flags; `cpu_execute` in Cpu/Execute. The
--                  child Valid of each is about the range of the state, the child Laws about what the
--                  instructions do, and the child Frame about what they leave alone. Of Cpu/Execute,
--                  Program, Load, Transfer, Exchange, Straight and Halts are about programs in the memory
--   Start          `src/mkcontext.c`, and `emu_load_img` and `main` of `src/emulator.c`
--   Emit           `src/assembler/emit.c`: Emit/Buffer for the growth, Emit/Encode for the formats,
--                  Emit/Rewrite for instructions over bytes that are there, Emit/Labels for the labels
--                  with `label_resolution` of `src/assembler/vasm.y`, Emit/Bytes for its
--                  directives for data, and Emit/Load32 for LOAD32; Emit/Loaded is about emitted bytes
--                  in the memory of the emulator
--   Assembler      `src/assembler/vasm.y`: the statements for instructions, with their actions in
--                  Assembler/Instruction and the whole program in Assembler/Program;
--                  Assembler/Tokens is `src/assembler/vasm.l`. Names, Numbers, Meaning, Format and
--                  Encode are about what the actions emit; Listed, Shows, Displayed, Lists, Typed,
--                  Regular and Irregular about what the disassembler shows of it; Sequence and
--                  Image are about programs and their files, RoundTrip about the disassembler and
--                  Execution about the emulator behind the assembler, Options about the arguments
--   Lookup         `src/common/lookup.c`, its tables in Lookup/Tables
--   Disassembler   `src/disassembler/lib_vasmdis.c`: the fields, and in Disassembler/Arguments the text;
--                  Disassembler/Program is `src/disassembler/vdis.c`
--   Tests          the theorems at concrete inputs
--
-- How the code is modelled. A function that changes a context takes and returns EmulatorContext, and
-- a definition has the name of its C function. Numbers are natural numbers, with the wrap-around of
-- the C types written out. An access outside an array is undefined behaviour in C, and `none` here,
-- or `overran` in the assembler, where a division by zero is too.
-- The host is little-endian, as the code requires; shifts into the sign bit keep the bit pattern, as
-- gcc does. The inline assembly of ADD, SUB and SMUL is modelled by the x86 manual. `realloc` of the C
-- library is a parameter of Emit, as is the hash table of glib that keeps the labels, an interface with
-- its documented laws; a list of glib is a list. `emit_context` is two records, EmitContext for the
-- buffer and LabelContext around it. In place of the text that `snprintf` writes, the model keeps the
-- format and the arguments.
--
-- Fuel. `cpu_execute` runs a guest program, which need not halt, so that its model takes a bound on
-- the number of rounds and says when the run is not over. The loop of `.align` and
-- that of `vdis` take a bound too: as many rounds as the argument of `.align`, and one more than the
-- lines of the image, are enough. All other loops have a fixed number of rounds, or go through a list.
--
-- Not modelled: debug output and logging (`PUTLOG`, `src/cpu/dump.c`); the reading and writing of
-- files; `src/hw/devm.c`, which is empty; the automaton and the tables that flex and bison make of
-- the patterns of `src/assembler/vasm.l` and of the grammar: a program is the list of the alternatives
-- that they read, with the texts of their tokens in capitals, as `upper` leaves them, and a syntax
-- error, which exits, is not a program. What getopt finds among the arguments of the assembler is
-- given. `src/assembler/x86tov.l` and `x86tov.y`, a sketch of another front end, and `src/rlang` are
-- left out. The theorems about labels are for programs of whole instructions: data between them, and
-- a position that `.at` or `.align` moves, are left out there.
pub mod Base
pub mod Machine
pub mod Valid
pub mod Memory
pub mod Registers
pub mod Pio
pub mod Decode
pub mod Cpu
pub mod Emit
pub mod Disassembler
pub mod Tests
pub mod Lookup
pub mod Start
pub mod Assembler
