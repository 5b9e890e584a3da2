-- ===== src/Decode/RoundTrip.antt =====
-- The encoders of rv64rs/src/asm.rs against the decoder of rv64rs/src/decode.rs.
use riscvm.Base.{ℕ, ◌+◌, ◌-◌, ◌*◌, ◌/◌, ◌%◌, ◌^◌, ◌≤◌, ◌<◌, ◌≡◌, ap, ◌⊎◌, arith}
use riscvm.Base.{◌∙◌, widen, ltb, if◌then◌else◌}
use riscvm.Base.Bits.{bit_and_mask}
use riscvm.Asm.{encode_i, encode_s}
use riscvm.Decode.{new, sext, raw_s}
use riscvm.Decode.Fields.{bit_or_sum, sext_12, fields_lem, imms_lem, raw_s_lem}

-- An `i32` pattern that a signed field of `bits` bits can hold.
abbrev pub FitsSigned : ℕ → ℕ → Type 0
FitsSigned bits imm = (imm < 2 ^ (bits - 1)) ⊎ ((2 ^ 32 - 2 ^ (bits - 1) ≤ imm) × (imm < 2 ^ 32))

encode_i-sum :
    (imm rs1 funct3 rd opcode : ℕ)
    → rs1 < 32
    → funct3 < 8
    → rd < 32
    → opcode < 128
    → encode_i imm rs1 funct3 rd opcode
      ≡ imm % 2 ^ 12 * 2 ^ 20 + rs1 * 2 ^ 15 + funct3 * 2 ^ 12 + rd * 2 ^ 7 + opcode
unfolding encode_i
encode_i-sum imm rs1 funct3 rd opcode h1 h3 hd ho = ground (
  arith,
  bit_and_mask 12 imm,
  bit_or_sum 20 (imm % 2 ^ 12 * 2 ^ 20) (rs1 * 2 ^ 15),
  bit_or_sum 15 (imm % 2 ^ 12 * 2 ^ 20 + rs1 * 2 ^ 15) (funct3 * 2 ^ 12),
  bit_or_sum 12 (imm % 2 ^ 12 * 2 ^ 20 + rs1 * 2 ^ 15 + funct3 * 2 ^ 12) (rd * 2 ^ 7),
  bit_or_sum 7 (imm % 2 ^ 12 * 2 ^ 20 + rs1 * 2 ^ 15 + funct3 * 2 ^ 12 + rd * 2 ^ 7) opcode,
)

-- For a signed 12-bit immediate, given as its 32-bit pattern, registers below 32, funct3 below 8
-- and opcode below 128, decoding what encode_i gives returns its fields and its immediate, sign-
-- extended.
pub decode-encode_i :
    (imm rs1 funct3 rd opcode : ℕ)
    → FitsSigned 12 imm
    → rs1 < 32
    → funct3 < 8
    → rd < 32
    → opcode < 128
    → let i = new (encode_i imm rs1 funct3 rd opcode) in
      (i.opcode ≡ opcode)
      × (i.rd ≡ rd)
      × (i.funct3 ≡ funct3)
      × (i.rs1 ≡ rs1)
      × (i.imm_i ≡ widen 32 64 imm)
decode-encode_i imm rs1 funct3 rd opcode fits h1 h3 hd ho =
    let w = encode_i imm rs1 funct3 rd opcode in
    let e = encode_i-sum imm rs1 funct3 rd opcode h1 h3 hd ho in
    let f = fields_lem w in
    (
      omega (arith, e, f.0),
      omega (arith, e, f.1),
      omega (arith, e, f.2),
      omega (arith, e, f.3),
      (imms_lem w).0 ∙ ap (λ t. sext t 12) upper ∙ sext_12 (imm % 2 ^ 12) (omega arith) ∙ signed,
    )
  where
    upper : encode_i imm rs1 funct3 rd opcode / 2 ^ 20 ≡ imm % 2 ^ 12
    upper = omega (arith, encode_i-sum imm rs1 funct3 rd opcode h1 h3 hd ho)

    signed :
        (if ltb (imm % 2 ^ 12) (2 ^ 11) then imm % 2 ^ 12 else imm % 2 ^ 12 + 2 ^ 64 - 2 ^ 12)
        ≡ widen 32 64 imm
    signed = ground arith

encode_s-sum :
    (imm rs1 rs2 funct3 opcode : ℕ)
    → imm < 2 ^ 32
    → rs1 < 32
    → rs2 < 32
    → funct3 < 8
    → opcode < 128
    → encode_s imm rs1 rs2 funct3 opcode
      ≡ imm / 2 ^ 5 % 2 ^ 7 * 2 ^ 25
        + rs2 * 2 ^ 20
        + rs1 * 2 ^ 15
        + funct3 * 2 ^ 12
        + imm % 2 ^ 5 * 2 ^ 7
        + opcode
unfolding encode_s
encode_s-sum imm rs1 rs2 funct3 opcode hi h1 h2 h3 ho =
    let a = imm / 2 ^ 5 % 2 ^ 7 * 2 ^ 25 in
    let b = a + rs2 * 2 ^ 20 in
    let c = b + rs1 * 2 ^ 15 in
    let d = c + funct3 * 2 ^ 12 in
    let e = d + imm % 2 ^ 5 * 2 ^ 7 in
    ground (
      arith,
      bit_and_mask 7 (imm / 2 ^ 5),
      bit_and_mask 5 imm,
      bit_or_sum 25 a (rs2 * 2 ^ 20),
      bit_or_sum 20 b (rs1 * 2 ^ 15),
      bit_or_sum 15 c (funct3 * 2 ^ 12),
      bit_or_sum 12 d (imm % 2 ^ 5 * 2 ^ 7),
      bit_or_sum 7 e opcode,
    )

-- For a signed 12-bit immediate, given as its 32-bit pattern, registers below 32, funct3 below 8
-- and opcode below 128, decoding what encode_s gives returns its fields and its immediate, sign-
-- extended.
pub decode-encode_s :
    (imm rs1 rs2 funct3 opcode : ℕ)
    → FitsSigned 12 imm
    → rs1 < 32
    → rs2 < 32
    → funct3 < 8
    → opcode < 128
    → let i = new (encode_s imm rs1 rs2 funct3 opcode) in
      (i.opcode ≡ opcode)
      × (i.funct3 ≡ funct3)
      × (i.rs1 ≡ rs1)
      × (i.rs2 ≡ rs2)
      × (i.imm_s ≡ widen 32 64 imm)
decode-encode_s imm rs1 rs2 funct3 opcode fits h1 h2 h3 ho =
    let w = encode_s imm rs1 rs2 funct3 opcode in
    let f = fields_lem w in
    (
      omega (arith, sum, f.0),
      omega (arith, sum, f.2),
      omega (arith, sum, f.3),
      omega (arith, sum, f.4),
      (imms_lem w).1 ∙ ap (λ t. sext t 12) raw ∙ sext_12 (imm % 2 ^ 12) (omega arith) ∙ signed,
    )
  where
    sum :
        encode_s imm rs1 rs2 funct3 opcode
        ≡ imm / 2 ^ 5 % 2 ^ 7 * 2 ^ 25
          + rs2 * 2 ^ 20
          + rs1 * 2 ^ 15
          + funct3 * 2 ^ 12
          + imm % 2 ^ 5 * 2 ^ 7
          + opcode
    sum = encode_s-sum imm rs1 rs2 funct3 opcode (omega arith) h1 h2 h3 ho

    raw : raw_s (encode_s imm rs1 rs2 funct3 opcode) ≡ imm % 2 ^ 12
    raw = raw_s_lem (encode_s imm rs1 rs2 funct3 opcode) (omega (arith, sum)) ∙ omega (arith, sum)

    signed :
        (if ltb (imm % 2 ^ 12) (2 ^ 11) then imm % 2 ^ 12 else imm % 2 ^ 12 + 2 ^ 64 - 2 ^ 12)
        ≡ widen 32 64 imm
    signed = ground arith
