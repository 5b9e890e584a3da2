-- ===== src/Decode.antt =====
-- rv64rs/src/decode.rs: the fields of a 32-bit instruction word. An `i64` immediate is its 64-bit
-- pattern.
pub mod Fields
pub mod RoundTrip
pub mod Jumps
use riscvm.Base.{ℕ, ◌-◌, ◌*◌, ◌/◌, ◌%◌, ◌^◌, bit_and, bit_or, shl, shr, sar, widen}

-- `((value << shift) as i32 >> shift) as i64`
unfoldable pub sext : ℕ → ℕ → ℕ
sext value bits = let shift = 32 - bits in widen 32 64 (sar 32 (shl 32 value shift) shift)

pub record Instruction : Type 0 where
  pub value : ℕ
  pub opcode : ℕ
  pub rd : ℕ
  pub rs1 : ℕ
  pub rs2 : ℕ
  pub funct3 : ℕ
  pub funct7 : ℕ
  pub imm_i : ℕ
  pub imm_s : ℕ
  pub imm_b : ℕ
  pub imm_u : ℕ
  pub imm_j : ℕ
  pub shamt : ℕ
  pub csr : ℕ

-- The raw bits of the scattered immediates.
unfoldable pub raw_s : ℕ → ℕ
raw_s w = bit_or (shl 32 (shr 32 w 25) 5) (bit_and (shr 32 w 7) 0x1f)

unfoldable pub raw_b : ℕ → ℕ
raw_b w =
    bit_or
      (bit_or (bit_or (shl 32 (bit_and (shr 32 w 31) 1) 12) (shl 32 (bit_and (shr 32 w 7) 1) 11))
        (shl 32 (bit_and (shr 32 w 25) 0x3f) 5))
      (shl 32 (bit_and (shr 32 w 8) 0xf) 1)

unfoldable pub raw_j : ℕ → ℕ
raw_j w =
    bit_or
      (bit_or
        (bit_or (shl 32 (bit_and (shr 32 w 31) 1) 20) (shl 32 (bit_and (shr 32 w 12) 0xff) 12))
        (shl 32 (bit_and (shr 32 w 20) 1) 11))
      (shl 32 (bit_and (shr 32 w 21) 0x3ff) 1)

unfoldable pub new : ℕ → Instruction
unfolding sext raw_s raw_b raw_j
new w = record {
  value = w;
  opcode = bit_and w 0x7f;
  rd = bit_and (shr 32 w 7) 0x1f;
  rs1 = bit_and (shr 32 w 15) 0x1f;
  rs2 = bit_and (shr 32 w 20) 0x1f;
  funct3 = bit_and (shr 32 w 12) 0x7;
  funct7 = bit_and (shr 32 w 25) 0x7f;
  imm_i = sext (shr 32 w 20) 12;
  imm_s = sext (raw_s w) 12;
  imm_b = sext (raw_b w) 13;
  imm_u = widen 32 64 (bit_and w 0xffff_f000);
  imm_j = sext (raw_j w) 21;
  shamt = bit_and (shr 32 w 20) 0x3f;
  csr = bit_and (shr 32 w 20) 0xfff;
}
