-- ===== src/CommandLine/RoundTrip.antt =====
-- Numerals, and what the number parsing of rv64rs/src/main.rs makes of them.
use riscvm.Base.{
  ℕ, zero, suc, ◌+◌, ◌-◌, ◌*◌, ◌/◌, ◌%◌, ◌^◌, ◌≤◌, ◌<◌, ◌≡◌, refl, sym, ap, ◌∙◌, arith, inl, inr,
}
use riscvm.Base.{Bool-cases, if◌then◌else◌, ltb, ◌==◌, List, [], ◌∷◌, ◌++◌, Option, none, some}
use native.Mathlib.Nat.{pow-zero, pow-suc, mod-lt, div-add-mod, div-lt_iff_lt-mul, div-le_self}
use riscvm.Base.{lt→ltb}
use riscvm.CommandLine.Arguments.{to_digit, push_digit, digits, some_digits, from_str_radix}

-- The digit of a value below the radix, and the number that a list of digits spells.
abbrev pub from_digit : ℕ → ℕ
from_digit v = if ltb v 10 then b'0' + v else b'a' + (v - 10)

-- The numeral of `n` in a radix: enough digits come first, the least significant one last.
abbrev pub numeral : ℕ → ℕ → ℕ → List ℕ
numeral zero radix n = []
numeral (suc width) radix n = numeral width radix (n / radix) ++ (from_digit (n % radix) ∷ [])

to_digit-from_digit :
    (radix v : ℕ) → v < radix → radix ≤ 36 → to_digit radix (from_digit v) ≡ some v
unfolding to_digit
to_digit-from_digit radix v l m = ground arith

digits-snoc :
    (radix : ℕ) (acc : Option ℕ) (cs : List ℕ) (c : ℕ)
    → digits radix acc (cs ++ (c ∷ [])) ≡ push_digit radix (digits radix acc cs) (to_digit radix c)
unfolding digits
digits-snoc radix acc [] c = refl
digits-snoc radix acc (d ∷ cs) c = digits-snoc radix (push_digit radix acc (to_digit radix d)) cs c

digits-numeral :
    (width radix n : ℕ)
    → 2 ≤ radix
    → radix ≤ 36
    → n < radix ^ width
    → n < 2 ^ 64
    → digits radix (some 0) (numeral width radix n) ≡ some n
unfolding digits push_digit
digits-numeral zero radix n low high w l =
    let one : radix ^ 0 ≡ 1 = pow-zero radix in ap some (omega (arith, w, one))
digits-numeral (suc width) radix n low high w l =
    let shorter : n / radix < radix ^ width =
      (div-lt_iff_lt-mul {k = radix} {x = n} {y = radix ^ width} (omega (arith, low))).1
        (omega (arith, w, pow-suc radix width)) in
    let smaller : n / radix ≤ n = div-le_self n radix in
    let whole : n / radix * radix + n % radix ≡ n = omega (arith, div-add-mod n radix) in
    let last =
      to_digit-from_digit radix (n % radix) (mod-lt n {m = radix} (omega (arith, low))) high in
    let front =
      digits-numeral width radix (n / radix) low high shorter (omega (arith, smaller, l)) in
    digits-snoc radix (some 0) (numeral width radix (n / radix)) (from_digit (n % radix))
    ∙ rw (front, last, whole, lt→ltb n (2 ^ 64) l) refl

digits-none : (radix : ℕ) (cs : List ℕ) → digits radix none cs ≡ none
unfolding digits push_digit
digits-none radix [] = refl
digits-none radix (c ∷ cs) = digits-none radix cs

to_digit-plus : (radix : ℕ) → to_digit radix b'+' ≡ none
unfolding to_digit
to_digit-plus radix = ground arith

-- Digits that spell a number are parsed, as none of them is a `+`.
from_str_radix-digits :
    (radix n c : ℕ) (cs : List ℕ)
    → digits radix (some 0) (c ∷ cs) ≡ some n
    → from_str_radix radix (c ∷ cs) ≡ some n
unfolding from_str_radix some_digits digits push_digit
from_str_radix-digits radix n c cs e = elim (Bool-cases (c == b'+')) [
  | inl t ↦ absurd (cc (sym e ∙ no_plus (ground arith)))
  | inr f ↦ rw f e
]
  where
    no_plus : c ≡ b'+' → digits radix (some 0) (c ∷ cs) ≡ none
    no_plus e = rw (e, to_digit-plus radix) (digits-none radix cs)

-- A number below 2 ^ 64 that is printed with enough digits in a radix from 2 to 36, one digit at
-- least, is what from_str_radix parses.
pub from_str_radix-numeral :
    (width radix n : ℕ)
    → 2 ≤ radix
    → radix ≤ 36
    → 0 < width
    → n < radix ^ width
    → n < 2 ^ 64
    → from_str_radix radix (numeral width radix n) ≡ some n
from_str_radix-numeral width radix n low high some_width w l =
    nonempty width (numeral width radix n) refl some_width
      (digits-numeral width radix n low high w l)
  where
    nonempty :
        (width : ℕ) (cs : List ℕ)
        → numeral width radix n ≡ cs
        → 0 < width
        → digits radix (some 0) cs ≡ some n
        → from_str_radix radix cs ≡ some n
    nonempty width (c ∷ cs) e w d = from_str_radix-digits radix n c cs d
    nonempty zero [] e w d = absurd (omega (arith, w))
    nonempty (suc width) [] e w d = absurd (snoc_nil (numeral width radix (n / radix)) _ e)
      where
        snoc_nil : (xs : List ℕ) (x : ℕ) → xs ++ (x ∷ []) ≡ [] → ⊥
        snoc_nil [] x e = cc e
        snoc_nil (y ∷ ys) x e = cc e
