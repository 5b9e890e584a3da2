-- ===== src/Cpu/Rvc/Bits.antt =====
-- The fields and the scattered immediates of rv64rs/src/rvc.rs against the bits of the manual's tables.
use riscvm.Base.{ℕ, ◌+◌, ◌*◌, ◌/◌, ◌%◌, ◌^◌, ◌<◌, ◌≡◌, ap, ◌∙◌, arith, bit_or, shl}
use riscvm.Base.Bits.{bit_and_mask, insert_field}
use riscvm.Decode.{sext}
use riscvm.Cpu.Rvc.Fields.{
  section, op, rd, rs2, rs1_prime, rs2_prime, funct3, funct6, funct2, bit12, uimm_5_0, imm_5_0,
}
use riscvm.Cpu.Rvc.Fields.{
  offset_6_2, offset_7_3, offset_8_1, offset_8_3_ldsp, offset_8_3_sdsp, offset_11_1,
}
use riscvm.Cpu.Rvc.Manual.{
  bits, bit_at, signed, six, addi4spn, addi16sp, word_offset, double_offset, branch_offset,
  jump_offset, ldsp_offset, sdsp_offset,
}

pub uimm_5_0-six : (c : ℕ) → uimm_5_0 c ≡ six c
unfolding uimm_5_0 six section
uimm_5_0-six c = ground (
  arith,
  bit_and_mask 1 (c / 2 ^ 12),
  bit_and_mask 5 (c / 2 ^ 2),
  insert_field 0 5 (c / 2 ^ 12 % 2 * 2 ^ 5) (c / 2 ^ 2 % 2 ^ 5),
)

pub offset_6_2-word_offset : (c : ℕ) → offset_6_2 c ≡ word_offset c
unfolding offset_6_2 word_offset section
offset_6_2-word_offset c =
    let a = c / 2 ^ 10 % 2 ^ 3 * 2 ^ 3 in
    let b = a + c / 2 ^ 6 % 2 ^ 1 * 2 ^ 2 in
    ground (
      arith,
      bit_and_mask 1 (c / 2 ^ 5),
      bit_and_mask 1 (c / 2 ^ 6),
      bit_and_mask 3 (c / 2 ^ 10),
      insert_field 2 1 a (c / 2 ^ 6 % 2 ^ 1),
      insert_field 6 1 b (c / 2 ^ 5 % 2 ^ 1),
    )

pub offset_7_3-double_offset : (c : ℕ) → offset_7_3 c ≡ double_offset c
unfolding offset_7_3 double_offset section
offset_7_3-double_offset c =
    let a = c / 2 ^ 10 % 2 ^ 3 * 2 ^ 3 in
    ground (
      arith,
      bit_and_mask 2 (c / 2 ^ 5),
      bit_and_mask 3 (c / 2 ^ 10),
      insert_field 6 2 a (c / 2 ^ 5 % 2 ^ 2),
    )

pub ldsp-ldsp_offset : (c : ℕ) → offset_8_3_ldsp c ≡ ldsp_offset c
unfolding offset_8_3_ldsp ldsp_offset section
ldsp-ldsp_offset c =
    let a = c / 2 ^ 12 % 2 ^ 1 * 2 ^ 5 in
    let b = a + c / 2 ^ 5 % 2 ^ 2 * 2 ^ 3 in
    ground (
      arith,
      bit_and_mask 1 (c / 2 ^ 12),
      bit_and_mask 2 (c / 2 ^ 5),
      bit_and_mask 3 (c / 2 ^ 2),
      insert_field 3 2 a (c / 2 ^ 5 % 2 ^ 2),
      insert_field 6 3 b (c / 2 ^ 2 % 2 ^ 3),
    )

pub sdsp-sdsp_offset : (c : ℕ) → offset_8_3_sdsp c ≡ sdsp_offset c
unfolding offset_8_3_sdsp sdsp_offset section
sdsp-sdsp_offset c =
    let a = c / 2 ^ 10 % 2 ^ 3 * 2 ^ 3 in
    ground (
      arith,
      bit_and_mask 3 (c / 2 ^ 7),
      bit_and_mask 3 (c / 2 ^ 10),
      insert_field 6 3 a (c / 2 ^ 7 % 2 ^ 3),
    )

-- The code's own bits.
abbrev pub raw_addi4spn : ℕ → ℕ
raw_addi4spn c =
    bit_or
      (bit_or (bit_or (shl 32 (section c 11 2) 4) (shl 32 (section c 7 4) 6))
        (shl 32 (section c 6 1) 2))
      (shl 32 (section c 5 1) 3)

pub raw_addi4spn_lem : (c : ℕ) → raw_addi4spn c ≡ addi4spn c
unfolding addi4spn section
raw_addi4spn_lem c =
    let a = c / 2 ^ 11 % 2 ^ 2 * 2 ^ 4 in
    let b = a + c / 2 ^ 7 % 2 ^ 4 * 2 ^ 6 in
    let d = b + c / 2 ^ 6 % 2 ^ 1 * 2 ^ 2 in
    ground (
      arith,
      bit_and_mask 2 (c / 2 ^ 11),
      bit_and_mask 4 (c / 2 ^ 7),
      bit_and_mask 1 (c / 2 ^ 6),
      bit_and_mask 1 (c / 2 ^ 5),
      insert_field 6 4 a (c / 2 ^ 7 % 2 ^ 4),
      insert_field 2 1 b (c / 2 ^ 6 % 2 ^ 1),
      insert_field 3 1 d (c / 2 ^ 5 % 2 ^ 1),
    )

-- The code's own bits.
abbrev pub raw_addi16sp : ℕ → ℕ
raw_addi16sp c =
    bit_or
      (bit_or
        (bit_or (bit_or (shl 32 (section c 12 1) 9) (shl 32 (section c 6 1) 4))
          (shl 32 (section c 5 1) 6))
        (shl 32 (section c 3 2) 7))
      (shl 32 (section c 2 1) 5)

pub raw_addi16sp_lem : (c : ℕ) → raw_addi16sp c ≡ addi16sp c
unfolding addi16sp section
raw_addi16sp_lem c =
    let a = c / 2 ^ 12 % 2 ^ 1 * 2 ^ 9 in
    let b = a + c / 2 ^ 6 % 2 ^ 1 * 2 ^ 4 in
    let d = b + c / 2 ^ 5 % 2 ^ 1 * 2 ^ 6 in
    let e = d + c / 2 ^ 3 % 2 ^ 2 * 2 ^ 7 in
    ground (
      arith,
      bit_and_mask 1 (c / 2 ^ 12),
      bit_and_mask 1 (c / 2 ^ 6),
      bit_and_mask 1 (c / 2 ^ 5),
      bit_and_mask 2 (c / 2 ^ 3),
      bit_and_mask 1 (c / 2 ^ 2),
      insert_field 4 1 a (c / 2 ^ 6 % 2 ^ 1),
      insert_field 6 1 b (c / 2 ^ 5 % 2 ^ 1),
      insert_field 7 2 d (c / 2 ^ 3 % 2 ^ 2),
      insert_field 5 1 e (c / 2 ^ 2 % 2 ^ 1),
    )

-- The code's own bits.
abbrev raw_branch : ℕ → ℕ
raw_branch c =
    bit_or
      (bit_or
        (bit_or (bit_or (shl 32 (section c 12 1) 8) (shl 32 (section c 10 2) 3))
          (shl 32 (section c 5 2) 6))
        (shl 32 (section c 3 2) 1))
      (shl 32 (section c 2 1) 5)

raw_branch_lem : (c : ℕ) → raw_branch c ≡ branch_offset c
unfolding branch_offset section
raw_branch_lem c =
    let a = c / 2 ^ 12 % 2 ^ 1 * 2 ^ 8 in
    let b = a + c / 2 ^ 10 % 2 ^ 2 * 2 ^ 3 in
    let d = b + c / 2 ^ 5 % 2 ^ 2 * 2 ^ 6 in
    let e = d + c / 2 ^ 3 % 2 ^ 2 * 2 ^ 1 in
    ground (
      arith,
      bit_and_mask 1 (c / 2 ^ 12),
      bit_and_mask 2 (c / 2 ^ 10),
      bit_and_mask 2 (c / 2 ^ 5),
      bit_and_mask 2 (c / 2 ^ 3),
      bit_and_mask 1 (c / 2 ^ 2),
      insert_field 3 2 a (c / 2 ^ 10 % 2 ^ 2),
      insert_field 6 2 b (c / 2 ^ 5 % 2 ^ 2),
      insert_field 1 2 d (c / 2 ^ 3 % 2 ^ 2),
      insert_field 5 1 e (c / 2 ^ 2 % 2 ^ 1),
    )

-- The code's own bits.
abbrev raw_jump : ℕ → ℕ
raw_jump c =
    bit_or
      (bit_or
        (bit_or
          (bit_or
            (bit_or
              (bit_or (bit_or (shl 32 (section c 12 1) 11) (shl 32 (section c 11 1) 4))
                (shl 32 (section c 9 2) 8))
              (shl 32 (section c 8 1) 10))
            (shl 32 (section c 7 1) 6))
          (shl 32 (section c 6 1) 7))
        (shl 32 (section c 3 3) 1))
      (shl 32 (section c 2 1) 5)

raw_jump_lem : (c : ℕ) → raw_jump c ≡ jump_offset c
unfolding jump_offset section
raw_jump_lem c =
    let a = c / 2 ^ 12 % 2 ^ 1 * 2 ^ 11 in
    let b = a + c / 2 ^ 11 % 2 ^ 1 * 2 ^ 4 in
    let d = b + c / 2 ^ 9 % 2 ^ 2 * 2 ^ 8 in
    let e = d + c / 2 ^ 8 % 2 ^ 1 * 2 ^ 10 in
    let f = e + c / 2 ^ 7 % 2 ^ 1 * 2 ^ 6 in
    let g = f + c / 2 ^ 6 % 2 ^ 1 * 2 ^ 7 in
    let h = g + c / 2 ^ 3 % 2 ^ 3 * 2 ^ 1 in
    ground (
      arith,
      bit_and_mask 1 (c / 2 ^ 12),
      bit_and_mask 1 (c / 2 ^ 11),
      bit_and_mask 2 (c / 2 ^ 9),
      bit_and_mask 1 (c / 2 ^ 8),
      bit_and_mask 1 (c / 2 ^ 7),
      bit_and_mask 1 (c / 2 ^ 6),
      bit_and_mask 3 (c / 2 ^ 3),
      bit_and_mask 1 (c / 2 ^ 2),
      insert_field 4 1 a (c / 2 ^ 11 % 2 ^ 1),
      insert_field 8 2 b (c / 2 ^ 9 % 2 ^ 2),
      insert_field 10 1 d (c / 2 ^ 8 % 2 ^ 1),
      insert_field 6 1 e (c / 2 ^ 7 % 2 ^ 1),
      insert_field 7 1 f (c / 2 ^ 6 % 2 ^ 1),
      insert_field 1 3 g (c / 2 ^ 3 % 2 ^ 3),
      insert_field 5 1 h (c / 2 ^ 2 % 2 ^ 1),
    )

sext_6_bits : (v : ℕ) → v < 2 ^ 6 → sext v 6 ≡ signed 6 v
unfolding sext
sext_6_bits v h = ground arith

sext_9_bits : (v : ℕ) → v < 2 ^ 9 → sext v 9 ≡ signed 9 v
unfolding sext
sext_9_bits v h = ground arith

pub sext_10_bits : (v : ℕ) → v < 2 ^ 10 → sext v 10 ≡ signed 10 v
unfolding sext
sext_10_bits v h = ground arith

sext_12_bits : (v : ℕ) → v < 2 ^ 12 → sext v 12 ≡ signed 12 v
unfolding sext
sext_12_bits v h = ground arith

pub offset_8_1-branch_offset : (c : ℕ) → offset_8_1 c ≡ signed 9 (branch_offset c)
unfolding offset_8_1 branch_offset
offset_8_1-branch_offset c =
    ap (λ t. sext t 9) (raw_branch_lem c) ∙ sext_9_bits (branch_offset c) (omega arith)

pub offset_11_1-jump_offset : (c : ℕ) → offset_11_1 c ≡ signed 12 (jump_offset c)
unfolding offset_11_1 jump_offset
offset_11_1-jump_offset c =
    ap (λ t. sext t 12) (raw_jump_lem c) ∙ sext_12_bits (jump_offset c) (omega arith)

pub imm_5_0-six : (c : ℕ) → imm_5_0 c ≡ signed 6 (six c)
unfolding imm_5_0 six
imm_5_0-six c = ap (λ t. sext t 6) (uimm_5_0-six c) ∙ sext_6_bits (six c) (omega arith)

-- The fields at a fixed place.
pub places :
    (c : ℕ)
    → (op c ≡ bits c 0 2)
      × (funct3 c ≡ bits c 13 3)
      × (rd c ≡ bits c 7 5)
      × (rs2 c ≡ bits c 2 5)
      × (rs1_prime c ≡ bits c 7 3 + 8)
      × (rs2_prime c ≡ bits c 2 3 + 8)
      × (funct2 c ≡ bits c 5 2)
      × (bit12 c ≡ bit_at c 12)
      × (funct6 c ≡ bits c 10 6)
unfolding op funct3 rd rs2 rs1_prime rs2_prime funct2 bit12 funct6 section
places c = (
  bit_and_mask 2 (c / 2 ^ 0),
  bit_and_mask 3 (c / 2 ^ 13),
  bit_and_mask 5 (c / 2 ^ 7),
  bit_and_mask 5 (c / 2 ^ 2),
  ap (λ t. t + 8) (bit_and_mask 3 (c / 2 ^ 7)),
  ap (λ t. t + 8) (bit_and_mask 3 (c / 2 ^ 2)),
  bit_and_mask 2 (c / 2 ^ 5),
  bit_and_mask 1 (c / 2 ^ 12),
  bit_and_mask 6 (c / 2 ^ 10),
)
