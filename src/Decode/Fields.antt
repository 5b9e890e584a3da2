-- ===== src/Decode/Fields.antt =====
-- The fields of rv64rs/src/decode.rs as arithmetic on the word.
use riscvm.Base.{ℕ, ◌+◌, ◌-◌, ◌*◌, ◌/◌, ◌%◌, ◌^◌, ◌<◌, ◌≡◌, refl, ap, arith, bit_or}
use riscvm.Base.{sym, ◌∙◌, ltb, if◌then◌else◌}
use riscvm.Base.Bits.{bit_or_fields, bit_and_mask}
use riscvm.Decode.{new, sext, raw_s, raw_b, raw_j}

-- `|` of fields, the upper one a multiple of `2 ^ k` and the lower one below it.
pub bit_or_sum : (k x r : ℕ) → x ≡ x / 2 ^ k * 2 ^ k → r < 2 ^ k → bit_or x r ≡ x + r
bit_or_sum k x r e h =
    ap (λ t. bit_or t r) e ∙ bit_or_fields k (x / 2 ^ k) r h ∙ ap (λ t. t + r) (sym e)

pub sext_12 : (v : ℕ) → v < 2 ^ 12 → sext v 12 ≡ (if ltb v (2 ^ 11) then v else v + 2 ^ 64 - 2 ^ 12)
unfolding sext
sext_12 v h = ground arith

pub sext_13 : (v : ℕ) → v < 2 ^ 13 → sext v 13 ≡ (if ltb v (2 ^ 12) then v else v + 2 ^ 64 - 2 ^ 13)
unfolding sext
sext_13 v h = ground arith

pub sext_21 : (v : ℕ) → v < 2 ^ 21 → sext v 21 ≡ (if ltb v (2 ^ 20) then v else v + 2 ^ 64 - 2 ^ 21)
unfolding sext
sext_21 v h = ground arith

-- The fields at a fixed place, and the raw immediates as sums.
pub fields_lem :
    (w : ℕ)
    → ((new w).opcode ≡ w % 2 ^ 7)
      × ((new w).rd ≡ w / 2 ^ 7 % 2 ^ 5)
      × ((new w).funct3 ≡ w / 2 ^ 12 % 2 ^ 3)
      × ((new w).rs1 ≡ w / 2 ^ 15 % 2 ^ 5)
      × ((new w).rs2 ≡ w / 2 ^ 20 % 2 ^ 5)
      × ((new w).funct7 ≡ w / 2 ^ 25 % 2 ^ 7)
unfolding new
fields_lem w = (
  bit_and_mask 7 w,
  bit_and_mask 5 (w / 2 ^ 7),
  bit_and_mask 3 (w / 2 ^ 12),
  bit_and_mask 5 (w / 2 ^ 15),
  bit_and_mask 5 (w / 2 ^ 20),
  bit_and_mask 7 (w / 2 ^ 25),
)

pub raw_s_lem : (w : ℕ) → w < 2 ^ 32 → raw_s w ≡ w / 2 ^ 25 * 2 ^ 5 + w / 2 ^ 7 % 2 ^ 5
unfolding raw_s
raw_s_lem w h = rw (bit_and_mask 5 (w / 2 ^ 7)) (
    rw (bit_or_sum 5 (w / 2 ^ 25 * 2 ^ 5 % 2 ^ 32) (w / 2 ^ 7 % 2 ^ 5) (omega arith) (omega arith))
      (omega arith))

pub raw_b_lem :
    (w : ℕ)
    → w < 2 ^ 32
    → raw_b w
      ≡ w / 2 ^ 31 * 2 ^ 12
        + w / 2 ^ 7 % 2 * 2 ^ 11
        + w / 2 ^ 25 % 2 ^ 6 * 2 ^ 5
        + w / 2 ^ 8 % 2 ^ 4 * 2
unfolding raw_b
raw_b_lem w h = ground (
  arith,
  bit_and_mask 1 (w / 2 ^ 31),
  bit_and_mask 1 (w / 2 ^ 7),
  bit_and_mask 6 (w / 2 ^ 25),
  bit_and_mask 4 (w / 2 ^ 8),
  bit_or_sum 12 (w / 2 ^ 31 * 2 ^ 12) (w / 2 ^ 7 % 2 * 2 ^ 11),
  bit_or_sum 11 (w / 2 ^ 31 * 2 ^ 12 + w / 2 ^ 7 % 2 * 2 ^ 11) (w / 2 ^ 25 % 2 ^ 6 * 2 ^ 5),
  bit_or_sum 5 (w / 2 ^ 31 * 2 ^ 12 + w / 2 ^ 7 % 2 * 2 ^ 11 + w / 2 ^ 25 % 2 ^ 6 * 2 ^ 5)
      (w / 2 ^ 8 % 2 ^ 4 * 2),
)

pub raw_j_lem :
    (w : ℕ)
    → w < 2 ^ 32
    → raw_j w
      ≡ w / 2 ^ 31 * 2 ^ 20
        + w / 2 ^ 12 % 2 ^ 8 * 2 ^ 12
        + w / 2 ^ 20 % 2 * 2 ^ 11
        + w / 2 ^ 21 % 2 ^ 10 * 2
unfolding raw_j
raw_j_lem w h = ground (
  arith,
  bit_and_mask 1 (w / 2 ^ 31),
  bit_and_mask 8 (w / 2 ^ 12),
  bit_and_mask 1 (w / 2 ^ 20),
  bit_and_mask 10 (w / 2 ^ 21),
  bit_or_sum 20 (w / 2 ^ 31 * 2 ^ 20) (w / 2 ^ 12 % 2 ^ 8 * 2 ^ 12),
  bit_or_sum 12 (w / 2 ^ 31 * 2 ^ 20 + w / 2 ^ 12 % 2 ^ 8 * 2 ^ 12) (w / 2 ^ 20 % 2 * 2 ^ 11),
  bit_or_sum 11 (w / 2 ^ 31 * 2 ^ 20 + w / 2 ^ 12 % 2 ^ 8 * 2 ^ 12 + w / 2 ^ 20 % 2 * 2 ^ 11)
      (w / 2 ^ 21 % 2 ^ 10 * 2),
)

pub imms_lem :
    (w : ℕ)
    → ((new w).imm_i ≡ sext (w / 2 ^ 20) 12)
      × ((new w).imm_s ≡ sext (raw_s w) 12)
      × ((new w).imm_b ≡ sext (raw_b w) 13)
      × ((new w).imm_j ≡ sext (raw_j w) 21)
unfolding new
imms_lem w = (refl, refl, refl, refl)
