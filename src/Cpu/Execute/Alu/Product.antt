-- ===== src/Cpu/Execute/Alu/Product.antt =====
-- MULH, MULHSU, MULHU and SLT of rv64rs/src/execute.rs against signs and magnitudes.
use riscvm.Base.{
  ℕ, ◌+◌, ◌-◌, ◌*◌, ◌/◌, ◌%◌, ◌^◌, ◌<◌, ◌≤◌, ◌≡◌, refl, arith, inl, inr, Bool, true, false,
  if◌then◌else◌,
}
use riscvm.Base.{
  ltb, is_neg, magnitude, with_sign, widen, u64, sar, of_bool, slt, Bool-cases, ap, sym, ◌∙◌, some,
}
use riscvm.Cpu.Execute.Alu.{mul_div_op, base_op, high_half, high_half_unsigned}
use mathlib.Core.Bool.{xor}
use native.Mathlib.Nat.{add-mul, mul-add, mul_comm, mul-le-mul_right}

-- The high half of a 128-bit pattern.
high_half-pattern : (x y : ℕ) → high_half x y ≡ x * y % 2 ^ 128 / 2 ^ 64
unfolding high_half
high_half-pattern x y = shifted (x * y % 2 ^ 128) (omega arith)
  where
    shifted : (p : ℕ) → p < 2 ^ 128 → u64 (sar 128 p 64) ≡ p / 2 ^ 64
    shifted p l = ground arith

high_half_unsigned-product : (a b : ℕ) → a * b < 2 ^ 128 → high_half_unsigned a b ≡ a * b / 2 ^ 64
unfolding high_half_unsigned
high_half_unsigned-product a b l = shifted (a * b) l
  where
    shifted : (p : ℕ) → p < 2 ^ 128 → u64 (p % 2 ^ 128 / 2 ^ (64 % 128)) ≡ p / 2 ^ 64
    shifted p l = ground arith

-- The product of patterns is the pattern of the product, by the signs.
negative-positive :
    (p q : ℕ)
    → p ≤ 2 ^ 128
    → p * q < 2 ^ 128
    → (2 ^ 128 - p) * q % 2 ^ 128 ≡ (2 ^ 128 - p * q) % 2 ^ 128
negative-positive p q l small =
    let whole : (2 ^ 128 - p) * q + p * q ≡ 2 ^ 128 * q =
      sym (add-mul (2 ^ 128 - p) p q) ∙ ap (λ t. t * q) (omega (arith, l)) in
    omega (arith, whole, small)

negative-negative :
    (p q : ℕ)
    → p ≤ 2 ^ 128
    → q ≤ 2 ^ 128
    → p * q < 2 ^ 128
    → (2 ^ 128 - p) * (2 ^ 128 - q) % 2 ^ 128 ≡ p * q
negative-negative p q l m small =
    let whole : (2 ^ 128 - p) * (2 ^ 128 - q) + p * (2 ^ 128 - q) ≡ 2 ^ 128 * (2 ^ 128 - q) =
      sym (add-mul (2 ^ 128 - p) p (2 ^ 128 - q))
      ∙ ap (λ t. t * (2 ^ 128 - q)) (omega (arith, l)) in
    let rest : p * (2 ^ 128 - q) + p * q ≡ p * 2 ^ 128 =
      sym (mul-add p (2 ^ 128 - q) q) ∙ ap (λ t. p * t) (omega (arith, m)) in
    omega (arith, whole, rest, small)

-- A word, sign-extended to 128 bits.
widen-sign :
    (a : ℕ)
    → a < 2 ^ 64
    → widen 64 128 a ≡ (if is_neg 64 a then 2 ^ 128 - magnitude 64 a else magnitude 64 a)
widen-sign a l = ground arith

-- Two words by their signs: the high half of their 128-bit product.
signed_product :
    (s t : Bool) (p q : ℕ)
    → p < 2 ^ 64
    → q < 2 ^ 64
    → p * q < 2 ^ 128
    → high_half (if s then 2 ^ 128 - p else p) (if t then 2 ^ 128 - q else q)
      ≡ with_sign 128 (xor s t) (p * q) / 2 ^ 64
unfolding xor
signed_product true true p q l m small =
    high_half-pattern (2 ^ 128 - p) (2 ^ 128 - q)
    ∙ ap (λ t. t / 2 ^ 64) (negative-negative p q (omega (arith, l)) (omega (arith, m)) small)
signed_product true false p q l m small =
    high_half-pattern (2 ^ 128 - p) q
    ∙ ap (λ t. t / 2 ^ 64) (negative-positive p q (omega (arith, l)) small)
signed_product false true p q l m small =
    let flipped : q * p < 2 ^ 128 = omega (arith, small, mul_comm q p) in
    high_half-pattern p (2 ^ 128 - q)
    ∙ ap (λ t. t % 2 ^ 128 / 2 ^ 64) (mul_comm p (2 ^ 128 - q))
    ∙ ap (λ t. t / 2 ^ 64) (negative-positive q p (omega (arith, m)) flipped)
    ∙ ap (λ t. (2 ^ 128 - t) % 2 ^ 128 / 2 ^ 64) (mul_comm q p)
signed_product false false p q l m small =
    high_half-pattern p q ∙ ap (λ t. t / 2 ^ 64) (omega (arith, small))

magnitude-lt : (a : ℕ) → a < 2 ^ 64 → magnitude 64 a < 2 ^ 64
magnitude-lt a l = ground arith

product-lt : (p q : ℕ) → p < 2 ^ 64 → q < 2 ^ 64 → p * q < 2 ^ 128
product-lt p q l m =
    let first : p * q ≤ 2 ^ 64 * q = mul-le-mul_right q (omega (arith, l)) in
    omega (arith, first, m)

xor-false : (t : Bool) → xor t false ≡ t
unfolding xor
xor-false true = refl
xor-false false = refl

-- Words of different signs are in the order of their signs, the others in that of their patterns.
slt-sign :
    (a b : ℕ)
    → a < 2 ^ 64
    → b < 2 ^ 64
    → slt 64 a b ≡ (if xor (is_neg 64 a) (is_neg 64 b) then is_neg 64 a else ltb a b)
unfolding xor
slt-sign a b l m = elim (Bool-cases (is_neg 64 a)) [
  | inl s ↦ elim (Bool-cases (is_neg 64 b)) [ inl t ↦ ground arith | inr t ↦ ground arith ]
  | inr s ↦ elim (Bool-cases (is_neg 64 b)) [ inl t ↦ ground arith | inr t ↦ ground arith ]
]

-- On words, MULH, MULHSU and MULHU give the upper 64 bits of the 128-bit product of the two
-- values, whose sign is that of the signed operands and whose magnitude is the product of the
-- magnitudes; SLT is 1 exactly where the signs differ and the first is negative, or agree and
-- the first pattern is below the second.
pub signed_arms :
    (a b : ℕ)
    → a < 2 ^ 64
    → b < 2 ^ 64
    → (mul_div_op 1 a b
        ≡ some (
            with_sign 128 (xor (is_neg 64 a) (is_neg 64 b)) (magnitude 64 a * magnitude 64 b)
            / 2 ^ 64))
      × (mul_div_op 2 a b ≡ some (with_sign 128 (is_neg 64 a) (magnitude 64 a * b) / 2 ^ 64))
      × (mul_div_op 3 a b ≡ some (a * b / 2 ^ 64))
      × (base_op 2 a b
          ≡ some (of_bool (if xor (is_neg 64 a) (is_neg 64 b) then is_neg 64 a else ltb a b)))
unfolding mul_div_op base_op
signed_arms a b l m =
    let p = magnitude-lt a l in
    let q = magnitude-lt b m in
    (
      ap some (
          ap (λ t. high_half t (widen 64 128 b)) (widen-sign a l)
          ∙ ap (high_half (if is_neg 64 a then 2 ^ 128 - magnitude 64 a else magnitude 64 a))
              (widen-sign b m)
          ∙ signed_product (is_neg 64 a) (is_neg 64 b) (magnitude 64 a) (magnitude 64 b) p q
              (product-lt (magnitude 64 a) (magnitude 64 b) p q)),
      ap some (
          ap (λ t. high_half t b) (widen-sign a l)
          ∙ signed_product (is_neg 64 a) false (magnitude 64 a) b p m
              (product-lt (magnitude 64 a) b p m)
          ∙ ap (λ t. with_sign 128 t (magnitude 64 a * b) / 2 ^ 64) (xor-false (is_neg 64 a))),
      ap some (high_half_unsigned-product a b (product-lt a b l m)),
      ap (λ t. some (of_bool t)) (slt-sign a b l m),
    )
