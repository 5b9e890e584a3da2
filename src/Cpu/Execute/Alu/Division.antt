-- ===== src/Cpu/Execute/Alu/Division.antt =====
-- DIV, REM, DIVU and REMU of rv64rs/src/execute.rs against each other.
use riscvm.Base.{
  ℕ, zero, suc, ◌+◌, ◌-◌, ◌*◌, ◌/◌, ◌%◌, ◌^◌, ◌<◌, ◌≤◌, ◌≡◌, ◌⊎◌, refl, arith, inl, inr, ◌&&◌, Bool,
  true, false,
}
use riscvm.Base.{◌==◌, is_neg, magnitude, with_sign, Bool-cases, ap, sym, ◌∙◌}
use riscvm.Cpu.Execute.Alu.{div_signed, rem_signed, div_unsigned, rem_unsigned}
use mathlib.Core.Bool.{xor}
use native.Mathlib.Nat.{div-add-mod, div-le_self, mod-le, mod-lt, add-mul, mul-add, mul_comm}

-- Two numbers that make 2 ^ 64, times a third.
complement : (u v k : ℕ) → u + v ≡ 2 ^ 64 → u * k + v * k ≡ 2 ^ 64 * k
complement u v k e = sym (add-mul u v k) ∙ ap (λ t. t * k) e

-- The pattern of -q times k, and q times k, make a multiple of 2 ^ 64.
negated : (q k : ℕ) → q ≤ 2 ^ 63 → (w : ℕ) × ((2 ^ 64 - q) % 2 ^ 64 * k + q * k ≡ 2 ^ 64 * w)
negated zero k l = (0, omega arith)
negated (suc q) k l = (k, complement ((2 ^ 64 - suc q) % 2 ^ 64) (suc q) k (omega (arith, l)))

-- The words that the signs give, from the quotient and the remainder of the magnitudes.
module _ (q r x y : ℕ) (whole : y * q + r ≡ x) (x_fits : x ≤ 2 ^ 63) (y_fits : y ≤ 2 ^ 63)
    (q_fits : q ≤ 2 ^ 63) where
  product : q * y ≡ y * q
  product = mul_comm q y

  positive_by_positive : (q * y + r) % 2 ^ 64 ≡ x
  positive_by_positive = omega (arith, whole, product, x_fits)

  positive_by_negative : ((2 ^ 64 - q) % 2 ^ 64 * (2 ^ 64 - y) + r) % 2 ^ 64 ≡ x
  positive_by_negative =
      let (w, e) = negated q (2 ^ 64 - y) q_fits in
      let f : q * (2 ^ 64 - y) + q * y ≡ q * 2 ^ 64 =
        sym (mul-add q (2 ^ 64 - y) y) ∙ ap (λ t. q * t) (omega (arith, y_fits)) in
      omega (arith, whole, product, x_fits, e, f)

  negative_by_positive :
      ((2 ^ 64 - q) % 2 ^ 64 * y + (2 ^ 64 - r) % 2 ^ 64) % 2 ^ 64 ≡ (2 ^ 64 - x) % 2 ^ 64
  negative_by_positive = let (w, e) = negated q y q_fits in omega (arith, whole, product, x_fits, e)

  negative_by_negative : (q * (2 ^ 64 - y) + (2 ^ 64 - r) % 2 ^ 64) % 2 ^ 64 ≡ (2 ^ 64 - x) % 2 ^ 64
  negative_by_negative =
      let f : q * (2 ^ 64 - y) + q * y ≡ q * 2 ^ 64 =
        sym (mul-add q (2 ^ 64 - y) y) ∙ ap (λ t. q * t) (omega (arith, y_fits)) in
      omega (arith, whole, product, x_fits, f)

-- A quotient and a remainder make the dividend.
abbrev pub IsDivision : ℕ → ℕ → ℕ → ℕ → Type 0
IsDivision a b q r = (q * b + r) % 2 ^ 64 ≡ a

module _ (a b : ℕ) (la : a < 2 ^ 64) (lb : b < 2 ^ 64) where
  unsigned_division : (div_unsigned 64 a b * b + rem_unsigned a b) % 2 ^ 64 ≡ a
  unfolding div_unsigned rem_unsigned
  unsigned_division = ground (arith, div-add-mod a b, mul_comm b (a / b))

  -- By the signs, away from a division by zero; the overflow needs no case of its own.
  by_signs :
      (s t : Bool)
      → is_neg 64 a ≡ s
      → is_neg 64 b ≡ t
      → 0 < b
      → (with_sign 64 (xor s t) (magnitude 64 a / magnitude 64 b) * b
            + with_sign 64 s (magnitude 64 a % magnitude 64 b))
          % 2 ^ 64
        ≡ a
  unfolding xor
  by_signs true true e f p =
      let x = magnitude 64 a in
      let y = magnitude 64 b in
      let small : x ≤ 2 ^ 63 = ground (arith, e) in
      let negative : b ≡ 2 ^ 64 - y = ground (arith, f) in
      ap (λ k. (x / y * k + (2 ^ 64 - x % y) % 2 ^ 64) % 2 ^ 64) negative
      ∙ negative_by_negative (x / y) (x % y) x y (div-add-mod x y) small (ground (arith, f))
          (omega (arith, div-le_self x y, small))
      ∙ ground (arith, e)
  by_signs true false e f p =
      let x = magnitude 64 a in
      let y = magnitude 64 b in
      let small : x ≤ 2 ^ 63 = ground (arith, e) in
      let positive : b ≡ y = ground (arith, f) in
      ap (λ k. ((2 ^ 64 - x / y) % 2 ^ 64 * k + (2 ^ 64 - x % y) % 2 ^ 64) % 2 ^ 64) positive
      ∙ negative_by_positive (x / y) (x % y) x y (div-add-mod x y) small (ground (arith, f))
          (omega (arith, div-le_self x y, small))
      ∙ ground (arith, e)
  by_signs false true e f p =
      let x = magnitude 64 a in
      let y = magnitude 64 b in
      let small : x ≤ 2 ^ 63 = ground (arith, e) in
      let negative : b ≡ 2 ^ 64 - y = ground (arith, f) in
      ap (λ k. ((2 ^ 64 - x / y) % 2 ^ 64 * k + x % y) % 2 ^ 64) negative
      ∙ positive_by_negative (x / y) (x % y) x y (div-add-mod x y) small (ground (arith, f))
          (omega (arith, div-le_self x y, small))
      ∙ ground (arith, e)
  by_signs false false e f p =
      let x = magnitude 64 a in
      let y = magnitude 64 b in
      let small : x ≤ 2 ^ 63 = ground (arith, e) in
      let positive : b ≡ y = ground (arith, f) in
      ap (λ k. (x / y * k + x % y) % 2 ^ 64) positive
      ∙ positive_by_positive (x / y) (x % y) x y (div-add-mod x y) small (ground (arith, f))
          (omega (arith, div-le_self x y, small))
      ∙ ground (arith, e)

  signed_division : (div_signed 64 a b * b + rem_signed 64 a b) % 2 ^ 64 ≡ a
  unfolding div_signed rem_signed
  signed_division = elim (Bool-cases (b == 0)) [
    | inl zero_b ↦ let e : b ≡ 0 = ground (arith, zero_b) in rw e (ground arith)
    | inr nonzero ↦ elim (Bool-cases ((a == 2 ^ 63) && (b == 2 ^ 64 - 1))) [
      | inl over ↦
          let top : a ≡ 2 ^ 63 = ground (arith, over) in
          let minus_one : b ≡ 2 ^ 64 - 1 = ground (arith, over) in rw (top, minus_one) refl
      | inr ordinary ↦
          rw (div_signed, nonzero, ordinary) (by_signs _ _ refl refl (ground (arith, nonzero)))
    ]
  ]

  -- The remainder is smaller than the divisor, and has the sign of the dividend.
  signed_remainder :
      0 < b
      → (magnitude 64 (rem_signed 64 a b) < magnitude 64 b)
        × ((rem_signed 64 a b ≡ 0) ⊎ (is_neg 64 (rem_signed 64 a b) ≡ is_neg 64 a))
  unfolding rem_signed
  signed_remainder p =
      let divisor : 0 < magnitude 64 b = ground (arith, p) in
      let small = mod-lt (magnitude 64 a) {m = magnitude 64 b} divisor in
      let below = mod-le (magnitude 64 a) (magnitude 64 b) in
      (ground (arith, p, small, below), ground (arith, p, small, below))

  unsigned_remainder : 0 < b → rem_unsigned a b < b
  unfolding rem_unsigned
  unsigned_remainder p = ground (arith, mod-lt a {m = b} p)

  -- On words, the quotient of DIV times the divisor, plus the remainder of REM, is the dividend
  -- modulo 2 ^ 64, by zero and on overflow as well, and so for DIVU and REMU; unless the divisor
  -- is 0, the remainders are smaller than the divisor in magnitude, and that of REM is 0 or has
  -- the sign of the dividend.
  pub division_lem :
      IsDivision a b (div_signed 64 a b) (rem_signed 64 a b)
      × IsDivision a b (div_unsigned 64 a b) (rem_unsigned a b)
      × ((b ≡ 0)
          ⊎ ((magnitude 64 (rem_signed 64 a b) < magnitude 64 b)
              × ((rem_signed 64 a b ≡ 0) ⊎ (is_neg 64 (rem_signed 64 a b) ≡ is_neg 64 a))
              × (rem_unsigned a b < b)))
  division_lem = (
    signed_division,
    unsigned_division,
    elim (Bool-cases (b == 0)) [
      | inl e ↦ inl (ground (arith, e))
      | inr f ↦
          let p : 0 < b = ground (arith, f) in
          inr ((signed_remainder p).0, (signed_remainder p).1, unsigned_remainder p)
    ],
  )
