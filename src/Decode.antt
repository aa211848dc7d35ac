-- ===== src/Decode.antt =====
-- `dec_fetch_ins` of `src/cpu/decode.c`: the fetch of four bytes and their split into fields. The
-- host is little-endian, as the `#if`s of the code require.
pub mod Laws
use emylathor.Base.{
  ℕ, ◌+◌, Bool, true, false, Option, none, some, if◌then◌else◌, bit_and, bit_or, u8, u16, u32,
  ◌<<<◌, ◌>>>◌,
}
use emylathor.Machine.{EmulatorContext, Instruction, ◌>>=◌}
use emylathor.Memory.{mem_get_instruction_p, word_from_bytes}

-- The fields that the four bytes of an instruction give.
unfoldable pub decode_bytes : ℕ → ℕ → ℕ → ℕ → Instruction
decode_bytes b1 b2 b3 b4 =
    let opb = bit_and b3 0xf in
    record {
      opcode = bit_and b1 0x3f;
      dst = bit_and b2 0xf;
      opa = b3 >>> 4;
      opb = opb;
      imm12 = bit_or (opb <<< 8) b4;
      imm16 = word_from_bytes b4 b3;
      prefix = b1 >>> 6;
      condition = b2 >>> 4;
    }

-- `ibytes[0]` to `ibytes[3]` of the dword that was fetched.
pub decode_dword : ℕ → Instruction
unfolding decode_bytes
decode_dword idata =
    decode_bytes (u8 idata) (u8 (idata >>> 8)) (u8 (idata >>> 16)) (u8 (idata >>> 24))

-- The instruction, or NULL as `none`, and the state with the instruction pointer advanced.
pub dec_fetch_ins : EmulatorContext → Option (Option Instruction × EmulatorContext)
unfolding decode_dword
dec_fetch_ins e = do
  (success, idata) ← mem_get_instruction_p e.pos e
  some (
      if success
      then (some (decode_dword idata), record e { pos = u32 (e.pos + 4) })
      else (none, e))
