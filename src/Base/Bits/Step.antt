-- ===== src/Base/Bits/Step.antt =====
-- The lowest binary digit of `&` and `|`, and what follows for masks and disjoint fields.
use Prim.Native.Nat.{ℕ, zero, suc, ◌+◌, ◌-◌, ◌*◌, ◌/◌, ◌%◌, ◌^◌, ◌≤◌, ◌<◌, min, max}
use Prim.Native.Nat.{bit_and, bit_or, bit_xor, differ, digits, bitwise, bit_and-bitwise}
use Prim.Native.Nat.{bit_or-bitwise, bit_xor-bitwise}
use mathlib.Core.Path.{◌≡◌, refl, ap, sym, ◌∙◌}
use native.Mathlib.Nat.{le_refl, pow-suc, pow-succ', one-le-pow, div-add-mod, div-div-eq-div-mul}
use native.Mathlib.Omega.{arith}

-- The operations are a recursion on digits with fuel; one more unit of fuel than enough is no use.
module _ (z : ℕ → ℕ) (f : ℕ → ℕ → ℕ) where
  unused_unit : (n x y : ℕ) → x ≤ n → digits z f (suc n) x y ≡ digits z f n x y
  unused_unit zero zero y le = refl
  unused_unit zero (suc x) y le = absurd (omega arith)
  unused_unit (suc n) zero y le = refl
  unused_unit (suc n) (suc x) y le =
      ap (λ h. h * 2 + f (suc x % 2) (y % 2)) (unused_unit n (suc x / 2) (y / 2) (omega arith))

  unused_units : (k x y : ℕ) → digits z f (k + x) x y ≡ digits z f x x y
  unused_units zero x y = let flat : 0 + x ≡ x = omega arith in ap (λ n. digits z f n x y) flat
  unused_units (suc k) x y =
      let flat : suc k + x ≡ suc (k + x) = omega arith in
      ap (λ n. digits z f n x y) flat ∙ unused_unit (k + x) x y (omega arith) ∙ unused_units k x y

  lowest_digit :
      (x y : ℕ)
      → bitwise z f (suc x) y ≡ f (suc x % 2) (y % 2) + 2 * bitwise z f (suc x / 2) (y / 2)
  lowest_digit x y =
      let half = suc x / 2 in
      let enough : x ≡ x - half + half = omega arith in
      let spare : digits z f x half (y / 2) ≡ digits z f (x - half + half) half (y / 2) =
        ap (λ n. digits z f n half (y / 2)) enough in
      omega (arith, spare, unused_units (x - half) half (y / 2))

pub bit_and_step : (x y : ℕ) → bit_and x y ≡ min (x % 2) (y % 2) + 2 * bit_and (x / 2) (y / 2)
bit_and_step zero y = simp bit_and-bitwise (omega arith)
bit_and_step (suc x) y = simp bit_and-bitwise (lowest_digit (λ r. 0) min x y)

pub bit_or_step : (x y : ℕ) → bit_or x y ≡ max (x % 2) (y % 2) + 2 * bit_or (x / 2) (y / 2)
bit_or_step zero y = simp bit_or-bitwise (omega arith)
bit_or_step (suc x) y = simp bit_or-bitwise (lowest_digit (λ r. r) max x y)

pub bit_xor_step : (x y : ℕ) → bit_xor x y ≡ differ (x % 2) (y % 2) + 2 * bit_xor (x / 2) (y / 2)
bit_xor_step zero y = simp bit_xor-bitwise (ground arith)
bit_xor_step (suc x) y = simp bit_xor-bitwise (lowest_digit (λ r. r) differ x y)

half_fuel : (P : ℕ → Type 0) → P 0 → ((n : ℕ) → P (suc n / 2) → P (suc n)) → (k n : ℕ) → n ≤ k → P n
half_fuel P base step k zero h = base
half_fuel P base step zero (suc n) h = absurd (omega arith)
half_fuel P base step (suc k) (suc n) h = step n (half_fuel P base step k (suc n / 2) (omega arith))

-- Induction on the binary digits.
pub half_induction : (P : ℕ → Type 0) → P 0 → ((n : ℕ) → P (suc n / 2) → P (suc n)) → (n : ℕ) → P n
half_induction P base step n = half_fuel P base step n n (le_refl n)

pub bit_or-zero : (a : ℕ) → bit_or a 0 ≡ a
bit_or-zero =
    half_induction (λ a. bit_or a 0 ≡ a) refl (λ n ih. omega (arith, bit_or_step (suc n) 0))

pub bit_and-zero : (a : ℕ) → bit_and a 0 ≡ 0
bit_and-zero =
    half_induction (λ a. bit_and a 0 ≡ 0) refl (λ n ih. omega (arith, bit_and_step (suc n) 0))

pub shifted_double : (k q : ℕ) → q * 2 ^ suc k ≡ 2 * (q * 2 ^ k)
shifted_double k q = grind (arith, pow-suc 2 k)

-- A word is its half and its parity.
from_half : (x y : ℕ) → x / 2 ≡ y / 2 → x % 2 ≡ y % 2 → x ≡ y
from_half x y h p = omega (arith, h, p)

-- Fields of a word above and below bit `k`.
shifted_half : (k q : ℕ) → q * 2 ^ suc k / 2 ≡ q * 2 ^ k
shifted_half k q = omega (arith, shifted_double k q)

shifted_parity : (k q : ℕ) → q * 2 ^ suc k % 2 ≡ 0
shifted_parity k q = omega (arith, shifted_double k q)

-- Two fields that do not overlap are joined by a sum.
pub bit_or_fields : (k q r : ℕ) → r < 2 ^ k → bit_or (q * 2 ^ k) r ≡ q * 2 ^ k + r
bit_or_fields zero q zero fits = omega (arith, bit_or-zero (q * 1))
bit_or_fields zero q (suc r) fits = absurd (omega arith)
bit_or_fields (suc k) q r fits =
    let halves : bit_or (q * 2 ^ suc k / 2) (r / 2) ≡ q * 2 ^ k + r / 2 =
      ap (λ t. bit_or t (r / 2)) (shifted_half k q)
      ∙ bit_or_fields k q (r / 2) (omega (arith, pow-suc 2 k)) in
    from_half _ _ (omega (arith, bit_or_step (q * 2 ^ suc k) r, halves, shifted_double k q))
      (omega (arith, bit_or_step (q * 2 ^ suc k) r, shifted_double k q))

low_field : (k q r : ℕ) → r < 2 ^ k → bit_and (q * 2 ^ k + r) (2 ^ k - 1) ≡ r
low_field zero q r fits = omega (arith, bit_and-zero (q * 1 + r))
low_field (suc k) q r fits =
    let word = q * 2 ^ suc k + r in
    let mask = 2 ^ suc k - 1 in
    let word_half : word / 2 ≡ q * 2 ^ k + r / 2 = omega (arith, shifted_double k q) in
    let mask_half : mask / 2 ≡ 2 ^ k - 1 = omega (arith, pow-suc 2 k) in
    let halves : bit_and (word / 2) (mask / 2) ≡ r / 2 =
      ap (λ t. bit_and t (mask / 2)) word_half
      ∙ ap (bit_and (q * 2 ^ k + r / 2)) mask_half
      ∙ low_field k q (r / 2) (omega (arith, pow-suc 2 k)) in
    from_half _ _ (omega (arith, bit_and_step word mask, halves))
      (omega (arith, bit_and_step word mask, shifted_double k q, pow-suc 2 k, one-le-pow k 2))

-- A mask of the `k` low bits is a remainder.
pub bit_and_mask : (k a : ℕ) → bit_and a (2 ^ k - 1) ≡ a % 2 ^ k
bit_and_mask k a =
    let parts : a ≡ a / 2 ^ k * 2 ^ k + a % 2 ^ k = grind (arith, one-le-pow k 2) in
    ap (λ t. bit_and t (2 ^ k - 1)) parts
    ∙ low_field k (a / 2 ^ k) (a % 2 ^ k) (grind (arith, one-le-pow k 2))

-- `|` of a field into the zero bits of a word.
pub insert_field :
    (k n x r : ℕ) → x / 2 ^ k % 2 ^ n ≡ 0 → r < 2 ^ n → bit_or x (r * 2 ^ k) ≡ x + r * 2 ^ k
insert_field zero n x r e l =
    let unit : x / 1 ≡ x = omega arith in
    let clear : x % 2 ^ n ≡ 0 = ap (λ t. t % 2 ^ n) (sym unit) ∙ e in
    let above : x ≡ x / 2 ^ n * 2 ^ n = omega (arith, clear, div-add-mod x (2 ^ n)) in
    let whole : r * 2 ^ 0 ≡ r = omega arith in
    ap (bit_or x) whole
    ∙ ap (λ t. bit_or t r) above
    ∙ bit_or_fields n (x / 2 ^ n) r l
    ∙ omega (arith, above, whole)
insert_field (suc k) n x r e l =
    let below : x / 2 / 2 ^ k ≡ x / 2 ^ suc k =
      div-div-eq-div-mul x 2 (2 ^ k) ∙ ap (λ t. x / t) (sym (pow-succ' 2 k)) in
    let halves : bit_or (x / 2) (r * 2 ^ suc k / 2) ≡ x / 2 + r * 2 ^ k =
      ap (bit_or (x / 2)) (shifted_half k r)
      ∙ insert_field k n (x / 2) r (ap (λ t. t % 2 ^ n) below ∙ e) l in
    from_half _ _ (omega (arith, bit_or_step x (r * 2 ^ suc k), halves, shifted_double k r))
      (omega (arith, bit_or_step x (r * 2 ^ suc k), shifted_double k r))
