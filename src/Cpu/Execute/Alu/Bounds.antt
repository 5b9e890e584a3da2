-- ===== src/Cpu/Execute/Alu/Bounds.antt =====
-- The widths of the results of the computations of rv64rs/src/execute.rs.
use riscvm.Base.{ℕ, ◌%◌, ◌^◌, ◌<◌, arith, if◌then◌else◌, Bool, true, false}
use riscvm.Base.{Option, none, some, bit_and}
use riscvm.Base.{sub64, shr, sar, magnitude}
use riscvm.Base.Bits.{bit_and-lt, bit_or-lt, bit_xor-lt}
use riscvm.Decode.{Instruction}
use riscvm.Cpu.Execute.Alu.{
  op, base_op, mul_div_op, div_signed, rem_signed, div_unsigned, rem_unsigned,
}
use riscvm.Cpu.Execute.Alu.{high_half, high_half_unsigned}
use native.Mathlib.Nat.{div-le_self, mod-le}

-- There is a result, and it is a word.
abbrev pub IsWord : ℕ → Option ℕ → Type 0
IsWord w none = Unit
IsWord w (some v) = v < 2 ^ w

if-IsWord :
    (w : ℕ) (t : Bool) (x y : Option ℕ) → IsWord w x → IsWord w y → IsWord w (if t then x else y)
if-IsWord w true x y p q = p
if-IsWord w false x y p q = q

module _ (a b : ℕ) (la : a < 2 ^ 64) (lb : b < 2 ^ 64) where
  shr-lt : (k : ℕ) → shr 64 a k < 2 ^ 64
  shr-lt k = omega (arith, div-le_self a (2 ^ (k % 64)))

  sar-lt : (k : ℕ) → sar 64 a k < 2 ^ 64
  sar-lt k = ground (arith, div-le_self a (2 ^ (k % 64)))

  div_signed-lt : div_signed 64 a b < 2 ^ 64
  unfolding div_signed
  div_signed-lt = ground (arith, div-le_self (magnitude 64 a) (magnitude 64 b))

  rem_signed-lt : rem_signed 64 a b < 2 ^ 64
  unfolding rem_signed
  rem_signed-lt = ground (arith, mod-le (magnitude 64 a) (magnitude 64 b))

  div_unsigned-lt : div_unsigned 64 a b < 2 ^ 64
  unfolding div_unsigned
  div_unsigned-lt = ground (arith, div-le_self a b)

  rem_unsigned-lt : rem_unsigned a b < 2 ^ 64
  unfolding rem_unsigned
  rem_unsigned-lt = ground (arith, mod-le a b)

  sub64-lt : sub64 a b < 2 ^ 64
  sub64-lt = omega arith

  base_op-IsWord : (funct3 : ℕ) → IsWord 64 (base_op funct3 a b)
  unfolding base_op
  base_op-IsWord funct3 = ground (
    arith,
    bit_and-lt 64 a b la,
    bit_or-lt 64 a b la lb,
    bit_xor-lt 64 a b la lb,
    shr-lt (bit_and b 0x3f),
  )

  mul_div_op-IsWord : (funct3 : ℕ) → IsWord 64 (mul_div_op funct3 a b)
  unfolding mul_div_op high_half high_half_unsigned
  mul_div_op-IsWord funct3 =
      ground (arith, div_signed-lt, rem_signed-lt, div_unsigned-lt, rem_unsigned-lt)

  -- A register operation on two words has a result below 2 ^ 64, or is an encoding with no arm.
  pub op-IsWord : (i : Instruction) → IsWord 64 (op i a b)
  unfolding op
  op-IsWord i = ground (
    arith,
    base_op-IsWord i.funct3,
    mul_div_op-IsWord i.funct3,
    sar-lt (bit_and b 0x3f),
    sub64-lt,
  )
