-- ===== src/Decode/Jumps.antt =====
-- The branch and jump encoders of rv64rs/src/asm.rs, and the decoder of rv64rs/src/decode.rs.
use riscvm.Base.{ℕ, ◌+◌, ◌-◌, ◌*◌, ◌/◌, ◌%◌, ◌^◌, ◌<◌, ◌≡◌, ap, arith}
use riscvm.Base.{◌∙◌, widen, ltb, if◌then◌else◌}
use riscvm.Base.Bits.{bit_and_mask}
use riscvm.Asm.{encode_j, encode_b}
use riscvm.Decode.{new, sext, raw_b, raw_j}
use riscvm.Decode.Fields.{bit_or_sum, sext_13, sext_21, fields_lem, imms_lem, raw_b_lem, raw_j_lem}
use riscvm.Decode.RoundTrip.{FitsSigned}

encode_b-sum :
    (imm rs1 rs2 funct3 opcode : ℕ)
    → imm < 2 ^ 32
    → rs1 < 32
    → rs2 < 32
    → funct3 < 8
    → opcode < 128
    → encode_b imm rs1 rs2 funct3 opcode
      ≡ imm / 2 ^ 12 % 2 * 2 ^ 31
        + imm / 2 ^ 5 % 2 ^ 6 * 2 ^ 25
        + rs2 * 2 ^ 20
        + rs1 * 2 ^ 15
        + funct3 * 2 ^ 12
        + imm / 2 % 2 ^ 4 * 2 ^ 8
        + imm / 2 ^ 11 % 2 * 2 ^ 7
        + opcode
unfolding encode_b
encode_b-sum imm rs1 rs2 funct3 opcode hi h1 h2 h3 ho =
    let a = imm / 2 ^ 12 % 2 * 2 ^ 31 in
    let b = a + imm / 2 ^ 5 % 2 ^ 6 * 2 ^ 25 in
    let c = b + rs2 * 2 ^ 20 in
    let d = c + rs1 * 2 ^ 15 in
    let e = d + funct3 * 2 ^ 12 in
    let f = e + imm / 2 % 2 ^ 4 * 2 ^ 8 in
    let g = f + imm / 2 ^ 11 % 2 * 2 ^ 7 in
    ground (
      arith,
      bit_and_mask 1 (imm / 2 ^ 12),
      bit_and_mask 6 (imm / 2 ^ 5),
      bit_and_mask 4 (imm / 2),
      bit_and_mask 1 (imm / 2 ^ 11),
      bit_or_sum 31 a (imm / 2 ^ 5 % 2 ^ 6 * 2 ^ 25),
      bit_or_sum 25 b (rs2 * 2 ^ 20),
      bit_or_sum 20 c (rs1 * 2 ^ 15),
      bit_or_sum 15 d (funct3 * 2 ^ 12),
      bit_or_sum 12 e (imm / 2 % 2 ^ 4 * 2 ^ 8),
      bit_or_sum 8 f (imm / 2 ^ 11 % 2 * 2 ^ 7),
      bit_or_sum 7 g opcode,
    )

encode_j-sum :
    (imm rd opcode : ℕ)
    → imm < 2 ^ 32
    → rd < 32
    → opcode < 128
    → encode_j imm rd opcode
      ≡ imm / 2 ^ 20 % 2 * 2 ^ 31
        + imm / 2 % 2 ^ 10 * 2 ^ 21
        + imm / 2 ^ 11 % 2 * 2 ^ 20
        + imm / 2 ^ 12 % 2 ^ 8 * 2 ^ 12
        + rd * 2 ^ 7
        + opcode
unfolding encode_j
encode_j-sum imm rd opcode hi hd ho =
    let a = imm / 2 ^ 20 % 2 * 2 ^ 31 in
    let b = a + imm / 2 % 2 ^ 10 * 2 ^ 21 in
    let c = b + imm / 2 ^ 11 % 2 * 2 ^ 20 in
    let d = c + imm / 2 ^ 12 % 2 ^ 8 * 2 ^ 12 in
    let e = d + rd * 2 ^ 7 in
    ground (
      arith,
      bit_and_mask 1 (imm / 2 ^ 20),
      bit_and_mask 10 (imm / 2),
      bit_and_mask 1 (imm / 2 ^ 11),
      bit_and_mask 8 (imm / 2 ^ 12),
      bit_or_sum 31 a (imm / 2 % 2 ^ 10 * 2 ^ 21),
      bit_or_sum 21 b (imm / 2 ^ 11 % 2 * 2 ^ 20),
      bit_or_sum 20 c (imm / 2 ^ 12 % 2 ^ 8 * 2 ^ 12),
      bit_or_sum 12 d (rd * 2 ^ 7),
      bit_or_sum 7 e opcode,
    )

-- For an even offset that fits a signed 13-bit field, given as its 32-bit pattern, registers
-- below 32, funct3 below 8 and opcode below 128, decoding what encode_b gives returns its fields
-- and its branch offset, sign-extended.
pub decode-encode_b :
    (imm rs1 rs2 funct3 opcode : ℕ)
    → FitsSigned 13 imm
    → imm % 2 ≡ 0
    → rs1 < 32
    → rs2 < 32
    → funct3 < 8
    → opcode < 128
    → let i = new (encode_b imm rs1 rs2 funct3 opcode) in
      (i.opcode ≡ opcode)
      × (i.funct3 ≡ funct3)
      × (i.rs1 ≡ rs1)
      × (i.rs2 ≡ rs2)
      × (i.imm_b ≡ widen 32 64 imm)
decode-encode_b imm rs1 rs2 funct3 opcode fits even h1 h2 h3 ho =
    let f = fields_lem (encode_b imm rs1 rs2 funct3 opcode) in
    (
      omega (arith, sum, f.0),
      omega (arith, sum, f.2),
      omega (arith, sum, f.3),
      omega (arith, sum, f.4),
      (imms_lem (encode_b imm rs1 rs2 funct3 opcode)).2
          ∙ ap (λ t. sext t 13) raw
          ∙ sext_13 (imm % 2 ^ 13) (omega arith)
          ∙ signed,
    )
  where
    sum :
        encode_b imm rs1 rs2 funct3 opcode
        ≡ imm / 2 ^ 12 % 2 * 2 ^ 31
          + imm / 2 ^ 5 % 2 ^ 6 * 2 ^ 25
          + rs2 * 2 ^ 20
          + rs1 * 2 ^ 15
          + funct3 * 2 ^ 12
          + imm / 2 % 2 ^ 4 * 2 ^ 8
          + imm / 2 ^ 11 % 2 * 2 ^ 7
          + opcode
    sum = encode_b-sum imm rs1 rs2 funct3 opcode (omega arith) h1 h2 h3 ho

    raw : raw_b (encode_b imm rs1 rs2 funct3 opcode) ≡ imm % 2 ^ 13
    raw = raw_b_lem (encode_b imm rs1 rs2 funct3 opcode) (omega (arith, sum)) ∙ omega (arith, sum)

    signed :
        (if ltb (imm % 2 ^ 13) (2 ^ 12) then imm % 2 ^ 13 else imm % 2 ^ 13 + 2 ^ 64 - 2 ^ 13)
        ≡ widen 32 64 imm
    signed = ground arith

-- For an even offset that fits a signed 21-bit field, given as its 32-bit pattern, a register
-- below 32 and opcode below 128, decoding what encode_j gives returns its fields and its jump
-- offset, sign-extended.
pub decode-encode_j :
    (imm rd opcode : ℕ)
    → FitsSigned 21 imm
    → imm % 2 ≡ 0
    → rd < 32
    → opcode < 128
    → let i = new (encode_j imm rd opcode) in
      (i.opcode ≡ opcode) × (i.rd ≡ rd) × (i.imm_j ≡ widen 32 64 imm)
decode-encode_j imm rd opcode fits even hd ho =
    let f = fields_lem (encode_j imm rd opcode) in
    (
      omega (arith, sum, f.0),
      omega (arith, sum, f.1),
      (imms_lem (encode_j imm rd opcode)).3
          ∙ ap (λ t. sext t 21) raw
          ∙ sext_21 (imm % 2 ^ 21) (omega arith)
          ∙ signed,
    )
  where
    sum :
        encode_j imm rd opcode
        ≡ imm / 2 ^ 20 % 2 * 2 ^ 31
          + imm / 2 % 2 ^ 10 * 2 ^ 21
          + imm / 2 ^ 11 % 2 * 2 ^ 20
          + imm / 2 ^ 12 % 2 ^ 8 * 2 ^ 12
          + rd * 2 ^ 7
          + opcode
    sum = encode_j-sum imm rd opcode (omega arith) hd ho

    raw : raw_j (encode_j imm rd opcode) ≡ imm % 2 ^ 21
    raw = raw_j_lem (encode_j imm rd opcode) (omega (arith, sum)) ∙ omega (arith, sum)

    signed :
        (if ltb (imm % 2 ^ 21) (2 ^ 20) then imm % 2 ^ 21 else imm % 2 ^ 21 + 2 ^ 64 - 2 ^ 21)
        ≡ widen 32 64 imm
    signed = ground arith
