-- ===== src/Cpu/Words/Values.antt =====
-- The widths of the values that the instructions of rv64rs/src/decode.rs and execute.rs compute.
use riscvm.Base.{ℕ, ◌-◌, ◌%◌, ◌^◌, ◌<◌, arith, Option, none, some}
use riscvm.Base.{bit_and, bit_or, bit_xor, shl, shr, sar, add64, sub64, widen, magnitude}
use riscvm.Base.Bits.{bit_and-lt, bit_or-lt, bit_xor-lt, bit_and_mask}
use riscvm.Decode
use riscvm.Decode.{Instruction, sext}
use riscvm.Cpu.Execute.Alu.{
  sext64, op_imm, op_imm_32, op, op_32, div_signed, rem_signed, div_unsigned, rem_unsigned,
}
use riscvm.Cpu.Execute.Alu.Bounds.{op-IsWord}
use riscvm.Bus.Words.{IsWord}
use native.Mathlib.Nat.{div-le_self, mod-le}

abbrev pub Gives : Option ℕ → Type 0
Gives none = Unit
Gives (some v) = IsWord v

abbrev pub Gives32 : Option ℕ → Type 0
Gives32 none = Unit
Gives32 (some v) = v < 2 ^ 32

shr-lt : (w x k : ℕ) → x < 2 ^ w → shr w x k < 2 ^ w
shr-lt w x k l = omega (arith, div-le_self x (2 ^ (k % w)))

sar-lt : (w x k : ℕ) → x < 2 ^ w → sar w x k < 2 ^ w
sar-lt w x k l = ground (arith, div-le_self x (2 ^ (k % w)))

pub widen-IsWord : (x : ℕ) → x < 2 ^ 32 → IsWord (widen 32 64 x)
widen-IsWord x l = ground arith

pub sext-IsWord : (v bits : ℕ) → IsWord (sext v bits)
unfolding sext
sext-IsWord v bits = widen-IsWord _ (sar-lt 32 (shl 32 v (32 - bits)) (32 - bits) (omega arith))

pub sext64-IsWord : (v bits : ℕ) → IsWord (sext64 v bits)
unfolding sext64
sext64-IsWord v bits = sar-lt 64 (shl 64 v (64 - bits)) (64 - bits) (omega arith)

pub add64-IsWord : (a b : ℕ) → IsWord (add64 a b)
add64-IsWord a b = omega arith

pub sub64-IsWord : (a b : ℕ) → IsWord (sub64 a b)
sub64-IsWord a b = omega arith

pub shl-IsWord : (a k : ℕ) → IsWord (shl 64 a k)
shl-IsWord a k = omega arith

pub shr-IsWord : (a k : ℕ) → IsWord a → IsWord (shr 64 a k)
shr-IsWord = shr-lt 64

pub sar-IsWord : (a k : ℕ) → IsWord a → IsWord (sar 64 a k)
sar-IsWord = sar-lt 64

pub and-IsWord : (a b : ℕ) → IsWord a → IsWord (bit_and a b)
and-IsWord = bit_and-lt 64

pub or-IsWord : (a b : ℕ) → IsWord a → IsWord b → IsWord (bit_or a b)
or-IsWord = bit_or-lt 64

pub xor-IsWord : (a b : ℕ) → IsWord a → IsWord b → IsWord (bit_xor a b)
xor-IsWord = bit_xor-lt 64

-- The fields of an instruction that reach a register as they are.
pub record InstructionWords (i : Instruction) : Type 0 where
  pub imm_i : IsWord i.imm_i
  pub imm_u : IsWord i.imm_u
  pub rs1 : IsWord i.rs1

pub new-InstructionWords : (w : ℕ) → w < 2 ^ 32 → InstructionWords (Decode.new w)
unfolding Decode.new
new-InstructionWords w l = record {
  imm_i = sext-IsWord (shr 32 w 20) 12;
  imm_u = widen-IsWord _ (bit_and-lt 32 w _ l);
  rs1 = omega (arith, bit_and_mask 5 (shr 32 w 15));
}

pub op_imm-Gives : (i : Instruction) (a : ℕ) → InstructionWords i → IsWord a → Gives (op_imm i a)
unfolding op_imm
op_imm-Gives i a k l = ground (
  arith,
  k.imm_i,
  bit_and-lt 64 a i.imm_i l,
  bit_or-lt 64 a i.imm_i l k.imm_i,
  bit_xor-lt 64 a i.imm_i l k.imm_i,
  sar-IsWord a i.shamt l,
  shr-IsWord a i.shamt l,
)

pub op-Gives : (i : Instruction) (a b : ℕ) → IsWord a → IsWord b → Gives (op i a b)
op-Gives i a b la lb = seen (op i a b) (op-IsWord a b la lb i)
  where
    seen : (o : Option ℕ) → riscvm.Cpu.Execute.Alu.Bounds.IsWord 64 o → Gives o
    seen none p = tt
    seen (some v) p = p

pub op_imm_32-Gives : (i : Instruction) (a : ℕ) → a < 2 ^ 32 → Gives32 (op_imm_32 i a)
unfolding op_imm_32
op_imm_32-Gives i a l =
    ground (arith, sar-lt 32 a (bit_and i.shamt 0x1f) l, shr-lt 32 a (bit_and i.shamt 0x1f) l)

module _ (a b : ℕ) (la : a < 2 ^ 32) (lb : b < 2 ^ 32) where
  div_signed-lt : div_signed 32 a b < 2 ^ 32
  unfolding div_signed
  div_signed-lt = ground (arith, div-le_self (magnitude 32 a) (magnitude 32 b))

  rem_signed-lt : rem_signed 32 a b < 2 ^ 32
  unfolding rem_signed
  rem_signed-lt = ground (arith, mod-le (magnitude 32 a) (magnitude 32 b))

  div_unsigned-lt : div_unsigned 32 a b < 2 ^ 32
  unfolding div_unsigned
  div_unsigned-lt = ground (arith, div-le_self a b)

  rem_unsigned-lt : rem_unsigned a b < 2 ^ 32
  unfolding rem_unsigned
  rem_unsigned-lt = ground (arith, mod-le a b)

  pub op_32-Gives : (i : Instruction) → Gives32 (op_32 i a b)
  unfolding op_32
  op_32-Gives i = ground (
    arith,
    div_signed-lt,
    rem_signed-lt,
    div_unsigned-lt,
    rem_unsigned-lt,
    sar-lt 32 a (bit_and b 0x1f) la,
    shr-lt 32 a (bit_and b 0x1f) la,
  )
