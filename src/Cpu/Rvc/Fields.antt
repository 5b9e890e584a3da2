-- ===== src/Cpu/Rvc/Fields.antt =====
-- `CInstruction` of rv64rs/src/rvc.rs: the fields and the scattered immediates of a 16-bit word.
use riscvm.Base.{ℕ, ◌+◌, ◌-◌, if◌then◌else◌, ◌==◌, bit_and, bit_or, shl, shr}
use riscvm.Base.{Outcome, ok, err, zero_immediate}
use riscvm.Decode.{sext}

-- `value`, the 16-bit word, is the only field.
abbrev pub CInstruction : Type 0
CInstruction = ℕ

unfoldable pub section : ℕ → ℕ → ℕ → ℕ
section x pos nbits = bit_and (shr 32 x pos) (shl 32 1 nbits - 1)

unfoldable pub op : CInstruction → ℕ
unfolding section
op i = section i 0 2

unfoldable pub rd : CInstruction → ℕ
unfolding section
rd i = section i 7 5

unfoldable pub rs1 : CInstruction → ℕ
unfolding rd
rs1 i = rd i

unfoldable pub rs2 : CInstruction → ℕ
unfolding section
rs2 i = section i 2 5

unfoldable pub rs1_prime : CInstruction → ℕ
unfolding section
rs1_prime i = section i 7 3 + 8

unfoldable pub rs2_prime : CInstruction → ℕ
unfolding section
rs2_prime i = section i 2 3 + 8

unfoldable pub funct3 : CInstruction → ℕ
unfolding section
funct3 i = section i 13 3

unfoldable pub funct6 : CInstruction → ℕ
unfolding section
funct6 i = section i 10 6

unfoldable pub funct2 : CInstruction → ℕ
unfolding section
funct2 i = section i 5 2

unfoldable pub bit12 : CInstruction → ℕ
unfolding section
bit12 i = section i 12 1

unfoldable pub uimm_5_0 : CInstruction → ℕ
unfolding section
uimm_5_0 i = bit_or (shl 32 (section i 12 1) 5) (section i 2 5)

unfoldable pub imm_5_0 : CInstruction → ℕ
unfolding uimm_5_0 sext
imm_5_0 i = sext (uimm_5_0 i) 6

-- An immediate whose value zero is a reserved encoding.
unfoldable pub nz : ℕ → Outcome ℕ
nz v = if v == 0 then err zero_immediate else ok v

unfoldable pub nzimm_5_0 : CInstruction → Outcome ℕ
unfolding nz imm_5_0
nzimm_5_0 i = nz (imm_5_0 i)

unfoldable pub shamt : CInstruction → Outcome ℕ
unfolding nz uimm_5_0
shamt i = nz (uimm_5_0 i)

unfoldable pub nzuimm_9_2 : CInstruction → Outcome ℕ
unfolding nz section
nzuimm_9_2 i = nz (
    bit_or
      (bit_or (bit_or (shl 32 (section i 11 2) 4) (shl 32 (section i 7 4) 6))
        (shl 32 (section i 6 1) 2))
      (shl 32 (section i 5 1) 3))

unfoldable pub nzimm_9_4 : CInstruction → Outcome ℕ
unfolding nz section sext
nzimm_9_4 i = nz (
    sext
      (bit_or
        (bit_or
          (bit_or (bit_or (shl 32 (section i 12 1) 9) (shl 32 (section i 6 1) 4))
            (shl 32 (section i 5 1) 6))
          (shl 32 (section i 3 2) 7))
        (shl 32 (section i 2 1) 5))
      10)

unfoldable pub offset_6_2 : CInstruction → ℕ
unfolding section
offset_6_2 i =
    bit_or (bit_or (shl 32 (section i 10 3) 3) (shl 32 (section i 6 1) 2))
      (shl 32 (section i 5 1) 6)

unfoldable pub offset_7_3 : CInstruction → ℕ
unfolding section
offset_7_3 i = bit_or (shl 32 (section i 10 3) 3) (shl 32 (section i 5 2) 6)

unfoldable pub offset_8_1 : CInstruction → ℕ
unfolding section sext
offset_8_1 i =
    sext
      (bit_or
        (bit_or
          (bit_or (bit_or (shl 32 (section i 12 1) 8) (shl 32 (section i 10 2) 3))
            (shl 32 (section i 5 2) 6))
          (shl 32 (section i 3 2) 1))
        (shl 32 (section i 2 1) 5))
      9

unfoldable pub offset_8_3_ldsp : CInstruction → ℕ
unfolding section
offset_8_3_ldsp i =
    bit_or (bit_or (shl 32 (section i 12 1) 5) (shl 32 (section i 5 2) 3))
      (shl 32 (section i 2 3) 6)

unfoldable pub offset_8_3_sdsp : CInstruction → ℕ
unfolding section
offset_8_3_sdsp i = bit_or (shl 32 (section i 10 3) 3) (shl 32 (section i 7 3) 6)

unfoldable pub offset_11_1 : CInstruction → ℕ
unfolding section sext
offset_11_1 i =
    sext
      (bit_or
        (bit_or
          (bit_or
            (bit_or
              (bit_or
                (bit_or (bit_or (shl 32 (section i 12 1) 11) (shl 32 (section i 11 1) 4))
                  (shl 32 (section i 9 2) 8))
                (shl 32 (section i 8 1) 10))
              (shl 32 (section i 7 1) 6))
            (shl 32 (section i 6 1) 7))
          (shl 32 (section i 3 3) 1))
        (shl 32 (section i 2 1) 5))
      12
