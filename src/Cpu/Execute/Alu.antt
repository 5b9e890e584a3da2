-- ===== src/Cpu/Execute/Alu.antt =====
-- The computations of rv64rs/src/execute.rs on registers. `none` is an encoding that has no arm.
pub mod Bounds
pub mod Division
pub mod Product
use riscvm.Base.{ℕ, ◌-◌, ◌*◌, ◌/◌, ◌%◌, ◌^◌, ◌&&◌, if◌then◌else◌}
use riscvm.Base.{ltb, ◌==◌, ◌!=◌, of_bool, Option, none, some, bit_and, bit_or, bit_xor}
use riscvm.Base.{u32, u64, add32, sub32, add64, sub64, shl, shr, sar, slt, widen}
use riscvm.Base.{is_neg, magnitude, with_sign}
use riscvm.Decode.{Instruction}
use mathlib.Core.Bool.{xor}

-- `((value << shift) as i64 >> shift) as u64`
unfoldable pub sext64 : ℕ → ℕ → ℕ
sext64 value bits = let shift = 64 - bits in sar 64 (shl 64 value shift) shift

unfoldable pub op_imm : Instruction → ℕ → Option ℕ
op_imm i a =
    if i.funct3 == 0x0
    then some (add64 a i.imm_i)
    else if i.funct3 == 0x2
    then some (of_bool (slt 64 a i.imm_i))
    else if i.funct3 == 0x3
    then some (of_bool (ltb a i.imm_i))
    else if i.funct3 == 0x4
    then some (bit_xor a i.imm_i)
    else if i.funct3 == 0x6
    then some (bit_or a i.imm_i)
    else if i.funct3 == 0x7
    then some (bit_and a i.imm_i)
    else if i.funct3 == 0x1
    then some (shl 64 a i.shamt)
    else if i.funct3 == 0x5
    then some (if bit_and i.funct7 0x20 != 0 then sar 64 a i.shamt else shr 64 a i.shamt)
    else none

-- The 32-bit result, before its extension.
unfoldable pub op_imm_32 : Instruction → ℕ → Option ℕ
op_imm_32 i a =
    let shamt32 = bit_and i.shamt 0x1f in
    if i.funct3 == 0x0
    then some (add32 a (u32 i.imm_i))
    else if i.funct3 == 0x1
    then some (shl 32 a shamt32)
    else if i.funct3 == 0x5
    then some (if bit_and i.funct7 0x20 != 0 then sar 32 a shamt32 else shr 32 a shamt32)
    else none

-- Signed division and remainder on words of `w` bits, with the two exceptions of RV64M.
unfoldable pub div_signed : ℕ → ℕ → ℕ → ℕ
div_signed w a b =
    if b == 0
    then 2 ^ w - 1
    else if (a == 2 ^ (w - 1)) && (b == 2 ^ w - 1)
    then a
    else with_sign w (xor (is_neg w a) (is_neg w b)) (magnitude w a / magnitude w b)

unfoldable pub rem_signed : ℕ → ℕ → ℕ → ℕ
rem_signed w a b =
    if b == 0
    then a
    else if (a == 2 ^ (w - 1)) && (b == 2 ^ w - 1)
    then 0
    else with_sign w (is_neg w a) (magnitude w a % magnitude w b)

unfoldable pub div_unsigned : ℕ → ℕ → ℕ → ℕ
div_unsigned w a b = if b == 0 then 2 ^ w - 1 else a / b

unfoldable pub rem_unsigned : ℕ → ℕ → ℕ
rem_unsigned a b = if b == 0 then a else a % b

-- `((x * y) >> 64) as u64` on `i128` patterns, and on `u128`.
unfoldable pub high_half : ℕ → ℕ → ℕ
high_half x y = u64 (sar 128 (x * y % 2 ^ 128) 64)

unfoldable pub high_half_unsigned : ℕ → ℕ → ℕ
high_half_unsigned x y = u64 (shr 128 (x * y % 2 ^ 128) 64)

unfoldable pub base_op : ℕ → ℕ → ℕ → Option ℕ
base_op funct3 a b =
    if funct3 == 0x0
    then some (add64 a b)
    else if funct3 == 0x1
    then some (shl 64 a (bit_and b 0x3f))
    else if funct3 == 0x2
    then some (of_bool (slt 64 a b))
    else if funct3 == 0x3
    then some (of_bool (ltb a b))
    else if funct3 == 0x4
    then some (bit_xor a b)
    else if funct3 == 0x5
    then some (shr 64 a (bit_and b 0x3f))
    else if funct3 == 0x6
    then some (bit_or a b)
    else if funct3 == 0x7
    then some (bit_and a b)
    else none

unfoldable pub mul_div_op : ℕ → ℕ → ℕ → Option ℕ
unfolding high_half high_half_unsigned div_signed div_unsigned rem_signed rem_unsigned
mul_div_op funct3 a b =
    if funct3 == 0x0
    then some (a * b % 2 ^ 64)
    else if funct3 == 0x1
    then some (high_half (widen 64 128 a) (widen 64 128 b))
    else if funct3 == 0x2
    then some (high_half (widen 64 128 a) b)
    else if funct3 == 0x3
    then some (high_half_unsigned a b)
    else if funct3 == 0x4
    then some (div_signed 64 a b)
    else if funct3 == 0x5
    then some (div_unsigned 64 a b)
    else if funct3 == 0x6
    then some (rem_signed 64 a b)
    else if funct3 == 0x7
    then some (rem_unsigned a b)
    else none

unfoldable pub op : Instruction → ℕ → ℕ → Option ℕ
unfolding base_op mul_div_op
op i a b =
    if i.funct7 == 0x00
    then base_op i.funct3 a b
    else if i.funct7 == 0x01
    then mul_div_op i.funct3 a b
    else if (i.funct7 == 0x20) && (i.funct3 == 0x0)
    then some (sub64 a b)
    else if (i.funct7 == 0x20) && (i.funct3 == 0x5)
    then some (sar 64 a (bit_and b 0x3f))
    else none

unfoldable pub op_32 : Instruction → ℕ → ℕ → Option ℕ
unfolding div_signed div_unsigned rem_signed rem_unsigned
op_32 i a b =
    if (i.funct3 == 0x0) && (i.funct7 == 0x00)
    then some (add32 a b)
    else if (i.funct3 == 0x0) && (i.funct7 == 0x20)
    then some (sub32 a b)
    else if i.funct3 == 0x1
    then some (shl 32 a (bit_and b 0x1f))
    else if (i.funct3 == 0x5) && (i.funct7 == 0x00)
    then some (shr 32 a (bit_and b 0x1f))
    else if (i.funct3 == 0x5) && (i.funct7 == 0x20)
    then some (sar 32 a (bit_and b 0x1f))
    else if (i.funct3 == 0x0) && (i.funct7 == 0x01)
    then some (a * b % 2 ^ 32)
    else if (i.funct3 == 0x4) && (i.funct7 == 0x01)
    then some (div_signed 32 a b)
    else if (i.funct3 == 0x5) && (i.funct7 == 0x01)
    then some (div_unsigned 32 a b)
    else if (i.funct3 == 0x6) && (i.funct7 == 0x01)
    then some (rem_signed 32 a b)
    else if (i.funct3 == 0x7) && (i.funct7 == 0x01)
    then some (rem_unsigned a b)
    else none
