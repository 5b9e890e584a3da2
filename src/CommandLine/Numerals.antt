-- ===== src/CommandLine/Numerals.antt =====
-- The arguments of `xv6-boot` in rv64rs/src/main.rs, given as numerals.
use Prim.Native.String.{String}
use riscvm.Base.{ℕ, zero, suc, ◌%◌, ◌/◌, ◌^◌, ◌<◌, ◌≡◌, refl, arith}
use riscvm.Base.{All, List, [], ◌∷◌, ◌++◌, some, ok, ◌==◌, ◌&&◌, Bool, true, false}
use riscvm.CommandLine.Arguments.{
  codes, trim_0x, parse_address, parse_limit, boot_arguments, main, xv6_boot, command,
}
use riscvm.CommandLine.RoundTrip.{numeral, from_digit, from_str_radix-numeral}

-- No digit is an `x`.
from_digit-x : (v : ℕ) → v < 16 → (from_digit v == 120) ≡ false
from_digit-x v l = ground arith

NoX : List ℕ → Type 0
NoX = All (λ c. (c == 120) ≡ false)

NoX-snoc : (xs : List ℕ) (x : ℕ) → NoX xs → (x == 120) ≡ false → NoX (xs ++ (x ∷ []))
unfolding NoX
NoX-snoc [] x clean e = (e, tt)
NoX-snoc (y ∷ xs) x clean e = (clean.0, NoX-snoc xs x clean.1 e)

numeral-NoX : (width n : ℕ) → NoX (numeral width 16 n)
unfolding NoX
numeral-NoX zero n = tt
numeral-NoX (suc width) n =
    NoX-snoc (numeral width 16 (n / 16)) (from_digit (n % 16)) (numeral-NoX width (n / 16))
      (from_digit-x (n % 16) (omega arith))

-- A list with no `x` is not trimmed.
trim_0x-NoX : (xs : List ℕ) → NoX xs → trim_0x xs ≡ xs
unfolding trim_0x NoX
trim_0x-NoX [] clean = refl
trim_0x-NoX (a ∷ []) clean = refl
trim_0x-NoX (a ∷ b ∷ rest) clean = rw (clean.1.0, and_false (a == b'0')) refl
  where
    and_false : (t : Bool) → (t && false) ≡ false
    and_false true = refl
    and_false false = refl

parse_address-numeral :
    (width n : ℕ) (default : ℕ) (s : String)
    → 0 < width
    → n < 16 ^ width
    → n < 2 ^ 64
    → codes s ≡ 48 ∷ 120 ∷ numeral width 16 n
    → parse_address (some s) default ≡ ok n
unfolding parse_address trim_0x
parse_address-numeral width n default s w fits l e =
    rw
      (
        e,
        trim_0x-NoX (numeral width 16 n) (numeral-NoX width n),
        from_str_radix-numeral width 16 n (omega arith) (omega arith) w fits l,
      )
      refl

parse_limit-numeral :
    (width n : ℕ) (default : ℕ) (s : String)
    → 0 < width
    → n < 10 ^ width
    → n < 2 ^ 64
    → codes s ≡ numeral width 10 n
    → parse_limit (some s) default ≡ ok n
unfolding parse_limit
parse_limit-numeral width n default s w fits l e =
    rw (e, from_str_radix-numeral width 10 n (omega arith) (omega arith) w fits l) refl

-- The arguments xv6-boot, a path, an address as 0x and a hexadecimal numeral, a disk image, and
-- a limit and a number of harts as decimal numerals, each number below 2 ^ 64 and of at least
-- one digit, call run_xv6_boot with exactly these.
pub main-boot :
    (program path address fs limit ncpu : String) (wa a wl l wn n : ℕ)
    → (codes address ≡ 48 ∷ 120 ∷ numeral wa 16 a) × (0 < wa) × (a < 16 ^ wa) × (a < 2 ^ 64)
    → (codes limit ≡ numeral wl 10 l) × (0 < wl) × (l < 10 ^ wl) × (l < 2 ^ 64)
    → (codes ncpu ≡ numeral wn 10 n) × (0 < wn) × (n < 10 ^ wn) × (n < 2 ^ 64)
    → main (program ∷ "xv6-boot" ∷ path ∷ address ∷ fs ∷ limit ∷ ncpu ∷ [])
      ≡ ok (xv6_boot path a l (some fs) n)
unfolding main command boot_arguments
main-boot program path address fs limit ncpu wa a wl l wn n (ea, pa, fa, la) (el, pl, fl, ll)
      (en, pn, fn, ln) =
    rw
      (
        parse_address-numeral wa a 0x8000_0000 address pa fa la ea,
        parse_limit-numeral wl l 0 limit pl fl ll el,
        parse_limit-numeral wn n 1 ncpu pn fn ln en,
      )
      refl
