-- ===== src/Base/Word.antt =====
-- Machine words. An unsigned w-bit integer is a number below 2 ^ w; a signed one is its
-- two's complement bit pattern. Arithmetic is that of a release build: it wraps, and the amount
-- of a shift is taken modulo the width.
use Prim.Native.Nat.{ℕ, ◌+◌, ◌-◌, ◌*◌, ◌/◌, ◌%◌, ◌^◌}
use mathlib.Core.Bool.{Bool, true, false}
use riscvm.Base.Test.{ltb, if◌then◌else◌}

abbrev pub u8 : ℕ → ℕ
u8 n = n % 2 ^ 8

abbrev pub u16 : ℕ → ℕ
u16 n = n % 2 ^ 16

abbrev pub u32 : ℕ → ℕ
u32 n = n % 2 ^ 32

abbrev pub u64 : ℕ → ℕ
u64 n = n % 2 ^ 64

abbrev pub u64_max : ℕ
u64_max = 2 ^ 64 - 1

abbrev pub add64 : ℕ → ℕ → ℕ
add64 a b = (a + b) % 2 ^ 64

abbrev pub sub64 : ℕ → ℕ → ℕ
sub64 a b = (a + 2 ^ 64 - b) % 2 ^ 64

abbrev pub add32 : ℕ → ℕ → ℕ
add32 a b = (a + b) % 2 ^ 32

abbrev pub sub32 : ℕ → ℕ → ℕ
sub32 a b = (a + 2 ^ 32 - b) % 2 ^ 32

-- `x << k` and `x >> k` on an unsigned word of `w` bits.
abbrev pub shl : ℕ → ℕ → ℕ → ℕ
shl w x k = x * 2 ^ (k % w) % 2 ^ w

abbrev pub shr : ℕ → ℕ → ℕ → ℕ
shr w x k = x / 2 ^ (k % w)

-- The sign of a pattern of `w` bits.
abbrev pub is_neg : ℕ → ℕ → Bool
is_neg w x = if ltb x (2 ^ (w - 1)) then false else true

-- `x >> k` on a signed word: the quotient rounded down.
abbrev pub sar : ℕ → ℕ → ℕ → ℕ
sar w x k = if is_neg w x then 2 ^ w - 1 - (2 ^ w - 1 - x) / 2 ^ (k % w) else x / 2 ^ (k % w)

-- `x as i32 as i64`, and `x as i64 as i128`, on patterns.
abbrev pub widen : ℕ → ℕ → ℕ → ℕ
widen v w x = if is_neg v x then x + 2 ^ w - 2 ^ v else x

-- `a < b` on signed words of `w` bits.
abbrev pub slt : ℕ → ℕ → ℕ → Bool
slt w a b = ltb ((a + 2 ^ (w - 1)) % 2 ^ w) ((b + 2 ^ (w - 1)) % 2 ^ w)

-- `!x` on `w` bits.
abbrev pub inv : ℕ → ℕ → ℕ
inv w x = 2 ^ w - 1 - x

-- The magnitude of a signed word, and the pattern of a signed value.
abbrev pub magnitude : ℕ → ℕ → ℕ
magnitude w x = if is_neg w x then 2 ^ w - x else x

abbrev pub with_sign : ℕ → Bool → ℕ → ℕ
with_sign w neg m = if neg then (2 ^ w - m) % 2 ^ w else m
