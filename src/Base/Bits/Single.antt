-- ===== src/Base/Bits/Single.antt =====
-- One bit of a word, and the bit operations bit by bit.
use Prim.Native.Nat.{ℕ, zero, suc, ◌/◌, ◌%◌, ◌^◌, ◌≤◌, ◌<◌, min, max}
use Prim.Native.Nat.{bit_and, bit_or, bit_xor, differ, bit_and-bitwise}
use mathlib.Core.Path.{◌≡◌, ap, ◌∙◌}
use native.Mathlib.Nat.{le_refl, pow-suc}
use native.Mathlib.Omega.{arith}
use riscvm.Base.Bits.Step.{bit_and_step, bit_or_step, bit_xor_step, half_induction}

-- Bit `i` of `x`.
abbrev pub bit : ℕ → ℕ → ℕ
bit x zero = x % 2
bit x (suc i) = bit (x / 2) i

pub bit-and : (i a b : ℕ) → bit (bit_and a b) i ≡ min (bit a i) (bit b i)
bit-and zero a b = omega (arith, bit_and_step a b)
bit-and (suc i) a b = ap (λ t. bit t i) half ∙ bit-and i (a / 2) (b / 2)
  where
    half : bit_and a b / 2 ≡ bit_and (a / 2) (b / 2)
    half = omega (arith, bit_and_step a b)

pub bit-or : (i a b : ℕ) → bit (bit_or a b) i ≡ max (bit a i) (bit b i)
bit-or zero a b = omega (arith, bit_or_step a b)
bit-or (suc i) a b = ap (λ t. bit t i) half ∙ bit-or i (a / 2) (b / 2)
  where
    half : bit_or a b / 2 ≡ bit_or (a / 2) (b / 2)
    half = omega (arith, bit_or_step a b)

pub bit-lt : (i x : ℕ) → bit x i < 2
bit-lt zero x = omega arith
bit-lt (suc i) x = bit-lt i (x / 2)

-- Words with the same bits are equal.
pub bit_ext : (w x y : ℕ) → x < 2 ^ w → y < 2 ^ w → ((i : ℕ) → i < w → bit x i ≡ bit y i) → x ≡ y
bit_ext zero x y hx hy h = omega arith
bit_ext (suc w) x y hx hy h = omega (
  arith,
  h 0 (omega arith),
  bit_ext w (x / 2) (y / 2) (omega (arith, pow-suc 2 w)) (omega (arith, pow-suc 2 w))
      (λ i lt. h (suc i) (omega arith)),
)

pub bit_and-le : (k a b : ℕ) → a ≤ k → bit_and a b ≤ a
bit_and-le k zero b h = simp bit_and-bitwise (le_refl 0)
bit_and-le zero (suc a) b h = absurd (omega arith)
bit_and-le (suc k) (suc a) b h =
    omega (arith, bit_and_step (suc a) b, bit_and-le k (suc a / 2) (b / 2) (omega arith))

pub bit_and-lt : (w a b : ℕ) → a < 2 ^ w → bit_and a b < 2 ^ w
bit_and-lt w a b h = omega (arith, bit_and-le a a b (le_refl a))

pub bit_or-lt : (w a b : ℕ) → a < 2 ^ w → b < 2 ^ w → bit_or a b < 2 ^ w
bit_or-lt zero zero zero h k = omega arith
bit_or-lt zero zero (suc b) h k = absurd (omega arith)
bit_or-lt zero (suc a) b h k = absurd (omega arith)
bit_or-lt (suc w) a b h k = omega (
  arith,
  pow-suc 2 w,
  bit_or_step a b,
  bit_or-lt w (a / 2) (b / 2) (omega (arith, pow-suc 2 w)) (omega (arith, pow-suc 2 w)),
)

differ-lt : (a b : ℕ) → a < 2 → b < 2 → differ a b < 2
differ-lt zero b h k = k
differ-lt (suc a) zero h k = h
differ-lt (suc a) (suc b) h k = differ-lt a b (omega arith) (omega arith)

pub bit_xor-lt : (w a b : ℕ) → a < 2 ^ w → b < 2 ^ w → bit_xor a b < 2 ^ w
bit_xor-lt zero zero zero h k = omega arith
bit_xor-lt zero zero (suc b) h k = absurd (omega arith)
bit_xor-lt zero (suc a) b h k = absurd (omega arith)
bit_xor-lt (suc w) a b h k = omega (
  arith,
  pow-suc 2 w,
  bit_xor_step a b,
  differ-lt (a % 2) (b % 2) (omega arith) (omega arith),
  bit_xor-lt w (a / 2) (b / 2) (omega (arith, pow-suc 2 w)) (omega (arith, pow-suc 2 w)),
)

zero-bit_and : (b : ℕ) → bit_and 0 b ≡ 0
zero-bit_and b = omega (arith, bit_and-le 0 0 b (le_refl 0))

pub bit_and_assoc : (a b c : ℕ) → bit_and (bit_and a b) c ≡ bit_and a (bit_and b c)
bit_and_assoc =
    half_induction (λ a. (b c : ℕ) → bit_and (bit_and a b) c ≡ bit_and a (bit_and b c))
      (λ b c. simp zero-bit_and)
      (λ n ih b c. ground (
        arith,
        ih (b / 2) (c / 2),
        bit_and_step (suc n) b,
        bit_and_step (bit_and (suc n) b) c,
        bit_and_step b c,
        bit_and_step (suc n) (bit_and b c),
      ))

pub bit_and-le_right : (k a b : ℕ) → a ≤ k → bit_and a b ≤ b
bit_and-le_right k zero b h = simp zero-bit_and (omega arith)
bit_and-le_right zero (suc a) b h = absurd (omega arith)
bit_and-le_right (suc k) (suc a) b h =
    omega (arith, bit_and_step (suc a) b, bit_and-le_right k (suc a / 2) (b / 2) (omega arith))
