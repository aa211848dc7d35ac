-- ===== src/Decode/Laws.antt =====
-- The widths of the fields of a decoded instruction.
use emylathor.Base.{
  ℕ, Option, true, false, none, some, if◌then◌else◌, u32, ◌+◌, ◌*◌, ◌/◌, ◌%◌, ◌^◌, ◌<◌, ◌≡◌, arith,
  u8, bit_and,
}
use emylathor.Base.Bits.Shift.{bit_and-mask, bit_or-add}
use emylathor.Machine.{EmulatorContext, Instruction}
use emylathor.Valid.{IsValid, IsEncoded, Ensures, Ensures-bind, Ensures-any, with_pos-IsValid}
use emylathor.Memory.Laws.{word_from_bytes-eq}
use emylathor.Memory.{mem_get_instruction_p}
use emylathor.Decode.{decode_bytes, decode_dword, dec_fetch_ins}

-- Whatever four bytes are fetched, every field of the instruction is within its width, so that
-- each register number names one of the 16 registers.
pub decode_bytes-IsEncoded :
    (b1 b2 b3 b4 : ℕ)
    → b1 < 2 ^ 8
    → b2 < 2 ^ 8
    → b3 < 2 ^ 8
    → b4 < 2 ^ 8
    → IsEncoded (decode_bytes b1 b2 b3 b4)
unfolding decode_bytes
decode_bytes-IsEncoded b1 b2 b3 b4 h1 h2 h3 h4 = record {
  opcode_lt = omega (arith, bit_and-mask 6 b1);
  prefix_lt = omega arith;
  condition_lt = omega arith;
  dst_lt = omega (arith, bit_and-mask 4 b2);
  opa_lt = omega arith;
  opb_lt = omega (arith, bit_and-mask 4 b3);
  imm12_lt = omega (arith, bit_and-mask 4 b3, bit_or-add 8 (bit_and b3 0xf) b4 h4);
  imm16_lt = omega (arith, word_from_bytes-eq b4 b3 h3);
}

pub decode_dword-IsEncoded : (d : ℕ) → IsEncoded (decode_dword d)
unfolding decode_dword
decode_dword-IsEncoded d =
    decode_bytes-IsEncoded (u8 d) (u8 (d / 2 ^ 8)) (u8 (d / 2 ^ 16)) (u8 (d / 2 ^ 24)) (omega arith)
      (omega arith) (omega arith) (omega arith)

-- What a fetch gives.
abbrev pub FetchIsValid : Option Instruction × EmulatorContext → Type 0
FetchIsValid (o, e) = Ensures IsEncoded o × IsValid e

pub dec_fetch_ins-IsValid :
    (e : EmulatorContext) → IsValid e → Ensures FetchIsValid (dec_fetch_ins e)
unfolding dec_fetch_ins
dec_fetch_ins-IsValid e v =
    Ensures-bind (λ r. Unit) FetchIsValid (mem_get_instruction_p e.pos e) _ (Ensures-any _)
      λ (b, x) h.
        elim b
          as (λ t. FetchIsValid (
            if t then (some (decode_dword x), record e { pos = u32 (e.pos + 4) }) else (none, e))) [
              | true ↦ (decode_dword-IsEncoded x, with_pos-IsValid e _ v (omega arith))
              | false ↦ (tt, v)
            ]

pub dec_fetch_ins-fetched :
    (e : EmulatorContext) (d : ℕ)
    → mem_get_instruction_p e.pos e ≡ some (true, d)
    → dec_fetch_ins e ≡ some (some (decode_dword d), record e { pos = u32 (e.pos + 4) })
unfolding dec_fetch_ins
dec_fetch_ins-fetched e d h = simp h

-- The fields as quotients and remainders of the bytes.
pub decode_bytes-eq :
    (b1 b2 b3 b4 : ℕ)
    → b3 < 2 ^ 8
    → b4 < 2 ^ 8
    → decode_bytes b1 b2 b3 b4 ≡ record {
      opcode = b1 % 2 ^ 6;
      dst = b2 % 2 ^ 4;
      opa = b3 / 2 ^ 4;
      opb = b3 % 2 ^ 4;
      imm12 = b3 % 2 ^ 4 * 2 ^ 8 + b4;
      imm16 = b4 * 2 ^ 8 + b3;
      prefix = b1 / 2 ^ 6;
      condition = b2 / 2 ^ 4;
    }
unfolding decode_bytes
decode_bytes-eq b1 b2 b3 b4 h3 h4 = grind (
  arith,
  bit_and-mask 6 b1,
  bit_and-mask 4 b2,
  bit_and-mask 4 b3,
  bit_or-add 8 (b3 % 2 ^ 4) b4 h4,
  word_from_bytes-eq b4 b3 h3,
)

-- The dword of four bytes in little-endian order is decoded by these bytes.
pub decode_dword-bytes :
    (b1 b2 b3 b4 : ℕ)
    → b1 < 2 ^ 8
    → b2 < 2 ^ 8
    → b3 < 2 ^ 8
    → b4 < 2 ^ 8
    → decode_dword (b1 + b2 * 2 ^ 8 + b3 * 2 ^ 16 + b4 * 2 ^ 24) ≡ decode_bytes b1 b2 b3 b4
unfolding decode_dword
decode_dword-bytes b1 b2 b3 b4 h1 h2 h3 h4 =
    let d : ℕ = b1 + b2 * 2 ^ 8 + b3 * 2 ^ 16 + b4 * 2 ^ 24 in
    let e1 : u8 d ≡ b1 = omega arith in
    let e2 : u8 (d / 2 ^ 8) ≡ b2 = omega arith in
    let e3 : u8 (d / 2 ^ 16) ≡ b3 = omega arith in let e4 : u8 (d / 2 ^ 24) ≡ b4 = omega arith in cc
