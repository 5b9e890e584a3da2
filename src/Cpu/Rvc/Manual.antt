-- ===== src/Cpu/Rvc/Manual.antt =====
-- The RVC tables of the RISC-V manual for the instructions that rv64rs/src/rvc.rs implements, read off
-- the bits of the word alone, with the 32-bit instructions as Cpu/Rvc/Expand builds them. C.LWSP, C.SWSP and the HINTs, which the code rejects, have
-- no entry, nor have the floating-point instructions and C.EBREAK.
use riscvm.Base.{
  ℕ, ◌+◌, ◌-◌, ◌*◌, ◌/◌, ◌%◌, ◌^◌, Bool, if◌then◌else◌, ltb, ◌==◌, ◌&&◌, Option, none, some,
}
use riscvm.Decode.{Instruction}
use riscvm.Cpu.Rvc.Expand.{
  imm_op, addiw, slli, srli, srai, load_op, store_op, reg_op, word_op, lui, jal, jalr, branch_zero,
}

-- The `n` bits from bit `k` on, and one bit.
abbrev pub bits : ℕ → ℕ → ℕ → ℕ
bits c k n = c / 2 ^ k % 2 ^ n

abbrev pub bit_at : ℕ → ℕ → ℕ
bit_at c k = c / 2 ^ k % 2

-- The 64-bit pattern of a signed field of `n` bits.
abbrev pub signed : ℕ → ℕ → ℕ
signed n v = if ltb v (2 ^ (n - 1)) then v else v + 2 ^ 64 - 2 ^ n

-- The immediates: imm[5] at bit 12 and imm[4:0] at 6:2, and so on.
unfoldable pub six : ℕ → ℕ
six c = bit_at c 12 * 32 + bits c 2 5

unfoldable pub addi4spn : ℕ → ℕ
addi4spn c = bits c 7 4 * 64 + bits c 11 2 * 16 + bit_at c 5 * 8 + bit_at c 6 * 4

unfoldable pub addi16sp : ℕ → ℕ
addi16sp c =
    bit_at c 12 * 512 + bits c 3 2 * 128 + bit_at c 5 * 64 + bit_at c 2 * 32 + bit_at c 6 * 16

unfoldable pub word_offset : ℕ → ℕ
word_offset c = bit_at c 5 * 64 + bits c 10 3 * 8 + bit_at c 6 * 4

unfoldable pub double_offset : ℕ → ℕ
double_offset c = bits c 5 2 * 64 + bits c 10 3 * 8

unfoldable pub branch_offset : ℕ → ℕ
branch_offset c =
    bit_at c 12 * 256 + bits c 5 2 * 64 + bit_at c 2 * 32 + bits c 10 2 * 8 + bits c 3 2 * 2

unfoldable pub jump_offset : ℕ → ℕ
jump_offset c =
    bit_at c 12 * 2048
    + bit_at c 8 * 1024
    + bits c 9 2 * 256
    + bit_at c 6 * 128
    + bit_at c 7 * 64
    + bit_at c 2 * 32
    + bit_at c 11 * 16
    + bits c 3 3 * 2

unfoldable pub ldsp_offset : ℕ → ℕ
ldsp_offset c = bits c 2 3 * 64 + bit_at c 12 * 32 + bits c 5 2 * 8

unfoldable pub sdsp_offset : ℕ → ℕ
sdsp_offset c = bits c 7 3 * 64 + bits c 10 3 * 8

-- The registers: five bits, or three that name x8 to x15.
abbrev pub rd_of : ℕ → ℕ
rd_of c = bits c 7 5

abbrev pub rs2_of : ℕ → ℕ
rs2_of c = bits c 2 5

abbrev pub upper_of : ℕ → ℕ
upper_of c = bits c 7 3 + 8

abbrev pub lower_of : ℕ → ℕ
lower_of c = bits c 2 3 + 8

-- An entry whose value must not be zero.
abbrev pub nonzero : ℕ → Option Instruction → Option Instruction
nonzero v entry = if v == 0 then none else entry

unfoldable pub table0 : ℕ → Option Instruction
table0 c =
    if bits c 13 3 == 0
    then nonzero (addi4spn c) (some (imm_op 0 (lower_of c) 2 (addi4spn c)))
    else if bits c 13 3 == 2
    then some (load_op 2 (lower_of c) (upper_of c) (word_offset c))
    else if bits c 13 3 == 3
    then some (load_op 3 (lower_of c) (upper_of c) (double_offset c))
    else if bits c 13 3 == 6
    then some (store_op 2 (lower_of c) (upper_of c) (word_offset c))
    else if bits c 13 3 == 7
    then some (store_op 3 (lower_of c) (upper_of c) (double_offset c))
    else none

-- C.SUB, C.XOR, C.OR and C.AND; C.SUBW and C.ADDW.
unfoldable pub table_arith : ℕ → Option Instruction
table_arith c =
    if bit_at c 12 == 0
    then (if bits c 5 2 == 0
        then some (reg_op 0x20 0 (upper_of c) (upper_of c) (lower_of c))
        else if bits c 5 2 == 1
        then some (reg_op 0 4 (upper_of c) (upper_of c) (lower_of c))
        else if bits c 5 2 == 2
        then some (reg_op 0 6 (upper_of c) (upper_of c) (lower_of c))
        else some (reg_op 0 7 (upper_of c) (upper_of c) (lower_of c)))
    else if bits c 5 2 == 0
    then some (word_op 0x20 (upper_of c) (lower_of c))
    else if bits c 5 2 == 1
    then some (word_op 0 (upper_of c) (lower_of c))
    else none

unfoldable pub table_misc : ℕ → Option Instruction
unfolding table_arith
table_misc c =
    if bits c 10 2 == 0
    then nonzero (six c) (some (srli (upper_of c) (six c)))
    else if bits c 10 2 == 1
    then nonzero (six c) (some (srai (upper_of c) (six c)))
    else if bits c 10 2 == 2
    then some (imm_op 7 (upper_of c) (upper_of c) (signed 6 (six c)))
    else table_arith c

-- C.ADDI16SP and C.LUI.
unfoldable pub table_lui : ℕ → Option Instruction
table_lui c =
    if rd_of c == 2
    then nonzero (addi16sp c) (some (imm_op 0 2 2 (signed 10 (addi16sp c))))
    else if rd_of c == 0
    then none
    else nonzero (six c) (some (lui (rd_of c) (signed 6 (six c) * 2 ^ 12 % 2 ^ 64)))

unfoldable pub table1 : ℕ → Option Instruction
unfolding table_misc table_lui
table1 c =
    if bits c 13 3 == 0
    then some (imm_op 0 (rd_of c) (rd_of c) (signed 6 (six c)))
    else if bits c 13 3 == 1
    then nonzero (rd_of c) (some (addiw (rd_of c) (signed 6 (six c))))
    else if bits c 13 3 == 2
    then nonzero (rd_of c) (some (imm_op 0 (rd_of c) 0 (signed 6 (six c))))
    else if bits c 13 3 == 3
    then table_lui c
    else if bits c 13 3 == 4
    then table_misc c
    else if bits c 13 3 == 5
    then some (jal 0 (signed 12 (jump_offset c)))
    else if bits c 13 3 == 6
    then some (branch_zero 0 (upper_of c) (signed 9 (branch_offset c)))
    else some (branch_zero 1 (upper_of c) (signed 9 (branch_offset c)))

-- C.JR and C.MV; C.JALR and C.ADD.
unfoldable pub table_jump : ℕ → Option Instruction
table_jump c =
    if bit_at c 12 == 0
    then nonzero (rd_of c) (
        if rs2_of c == 0 then some (jalr 0 (rd_of c)) else some (reg_op 0 0 (rd_of c) 0 (rs2_of c)))
    else nonzero (rd_of c) (
        if rs2_of c == 0
        then some (jalr 1 (rd_of c))
        else some (reg_op 0 0 (rd_of c) (rd_of c) (rs2_of c)))

unfoldable pub table2 : ℕ → Option Instruction
unfolding table_jump
table2 c =
    if bits c 13 3 == 0
    then nonzero (six c) (some (slli (rd_of c) (six c)))
    else if bits c 13 3 == 3
    then nonzero (rd_of c) (some (load_op 3 (rd_of c) 2 (ldsp_offset c)))
    else if bits c 13 3 == 4
    then table_jump c
    else if bits c 13 3 == 7
    then some (store_op 3 (rs2_of c) 2 (sdsp_offset c))
    else none

-- What a compressed instruction stands for.
unfoldable pub table : ℕ → Option Instruction
unfolding table0 table1 table2
table c =
    if bits c 0 2 == 0
    then table0 c
    else if bits c 0 2 == 1
    then table1 c
    else if bits c 0 2 == 2
    then table2 c
    else none

-- Whether it is C.JR or C.JALR.
abbrev pub is_register_jump : ℕ → Bool
is_register_jump c = (bits c 0 2 == 2) && ((bits c 13 3 == 4) && (rs2_of c == 0))
