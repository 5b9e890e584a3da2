-- ===== src/Cpu/Rvc/Expand.antt =====
-- The 32-bit instruction that a compressed one stands for, as the comments of rv64rs/src/rvc.rs name
-- it, with the fields as the code extracts them; Cpu/Rvc/Manual has the tables of the RISC-V manual.
use riscvm.Base.{ℕ, ◌*◌, ◌^◌, ◌%◌, ◌||◌, if◌then◌else◌, ◌==◌, ◌!=◌, bit_and, Option}
use riscvm.Base.{none, some}
use riscvm.Base.{Outcome, ok, err, panic, timeout}
use riscvm.Decode.{Instruction}
use riscvm.Cpu.Rvc.Fields.{CInstruction, op, rd, rs1, rs2, rs1_prime, rs2_prime, funct3, funct6}
use riscvm.Cpu.Rvc.Fields.{funct2, bit12, imm_5_0, nzimm_5_0, shamt, nzuimm_9_2, nzimm_9_4}
use riscvm.Cpu.Rvc.Fields.{offset_6_2, offset_7_3, offset_8_1, offset_8_3_ldsp, offset_8_3_sdsp}
use riscvm.Cpu.Rvc.Fields.{offset_11_1}

abbrev pub blank : Instruction
blank = record {
  value = 0;
  opcode = 0;
  rd = 0;
  rs1 = 0;
  rs2 = 0;
  funct3 = 0;
  funct7 = 0;
  imm_i = 0;
  imm_s = 0;
  imm_b = 0;
  imm_u = 0;
  imm_j = 0;
  shamt = 0;
  csr = 0;
}

-- An immediate operation, by its `funct3`.
abbrev pub imm_op : ℕ → ℕ → ℕ → ℕ → Instruction
imm_op funct3 rd rs1 imm = record blank {
  opcode = 0x13;
  funct3 = funct3;
  rd = rd;
  rs1 = rs1;
  imm_i = imm;
}

abbrev pub addiw : ℕ → ℕ → Instruction
addiw rd imm = record blank { opcode = 0x1b; rd = rd; rs1 = rd; imm_i = imm }

-- A shift of a register by a constant: the left one, the logical and the arithmetic right one.
abbrev pub slli : ℕ → ℕ → Instruction
slli rd k = record blank { opcode = 0x13; funct3 = 1; rd = rd; rs1 = rd; shamt = k }

abbrev pub srli : ℕ → ℕ → Instruction
srli rd k = record blank { opcode = 0x13; funct3 = 5; rd = rd; rs1 = rd; shamt = k }

abbrev pub srai : ℕ → ℕ → Instruction
srai rd k = record blank { opcode = 0x13; funct3 = 5; funct7 = 0x20; rd = rd; rs1 = rd; shamt = k }

-- A load or a store of 4 bytes (`funct3` is 2) or 8 (3).
abbrev pub load_op : ℕ → ℕ → ℕ → ℕ → Instruction
load_op funct3 rd rs1 imm = record blank {
  opcode = 0x03;
  funct3 = funct3;
  rd = rd;
  rs1 = rs1;
  imm_i = imm;
}

abbrev pub store_op : ℕ → ℕ → ℕ → ℕ → Instruction
store_op funct3 rs2 rs1 imm = record blank {
  opcode = 0x23;
  funct3 = funct3;
  rs2 = rs2;
  rs1 = rs1;
  imm_s = imm;
}

-- An operation on registers, and one on words.
abbrev pub reg_op : ℕ → ℕ → ℕ → ℕ → ℕ → Instruction
reg_op funct7 funct3 rd rs1 rs2 = record blank {
  opcode = 0x33;
  funct7 = funct7;
  funct3 = funct3;
  rd = rd;
  rs1 = rs1;
  rs2 = rs2;
}

abbrev pub word_op : ℕ → ℕ → ℕ → Instruction
word_op funct7 rd rs2 = record blank {
  opcode = 0x3b;
  funct7 = funct7;
  rd = rd;
  rs1 = rd;
  rs2 = rs2;
}

abbrev pub lui : ℕ → ℕ → Instruction
lui rd imm = record blank { opcode = 0x37; rd = rd; imm_u = imm }

abbrev pub jal : ℕ → ℕ → Instruction
jal rd imm = record blank { opcode = 0x6f; rd = rd; imm_j = imm }

abbrev pub jalr : ℕ → ℕ → Instruction
jalr rd rs1 = record blank { opcode = 0x67; rd = rd; rs1 = rs1 }

-- BEQ (0) or BNE (1) against x0.
abbrev pub branch_zero : ℕ → ℕ → ℕ → Instruction
branch_zero funct3 rs1 imm = record blank { opcode = 0x63; funct3 = funct3; rs1 = rs1; imm_b = imm }

-- With an immediate that must not be zero.
abbrev pub with_imm : Outcome ℕ → (ℕ → Instruction) → Option Instruction
with_imm (ok imm) f = some (f imm)
with_imm (err e) f = none
with_imm panic f = none
with_imm timeout f = none

unfoldable pub expand0 : CInstruction → Option Instruction
expand0 i =
    if funct3 i == 0b000
    then with_imm (nzuimm_9_2 i) (imm_op 0 (rs2_prime i) 2)
    else if funct3 i == 0b010
    then some (load_op 2 (rs2_prime i) (rs1_prime i) (offset_6_2 i))
    else if funct3 i == 0b011
    then some (load_op 3 (rs2_prime i) (rs1_prime i) (offset_7_3 i))
    else if funct3 i == 0b110
    then some (store_op 2 (rs2_prime i) (rs1_prime i) (offset_6_2 i))
    else if funct3 i == 0b111
    then some (store_op 3 (rs2_prime i) (rs1_prime i) (offset_7_3 i))
    else none

unfoldable pub expand_arith : CInstruction → Option Instruction
expand_arith i =
    if bit_and (funct6 i) 0b100 == 0
    then (if funct2 i == 0b00
        then some (reg_op 0x20 0 (rs1_prime i) (rs1_prime i) (rs2_prime i))
        else if funct2 i == 0b01
        then some (reg_op 0 4 (rs1_prime i) (rs1_prime i) (rs2_prime i))
        else if funct2 i == 0b10
        then some (reg_op 0 6 (rs1_prime i) (rs1_prime i) (rs2_prime i))
        else some (reg_op 0 7 (rs1_prime i) (rs1_prime i) (rs2_prime i)))
    else if funct2 i == 0b00
    then some (word_op 0x20 (rs1_prime i) (rs2_prime i))
    else if funct2 i == 0b01
    then some (word_op 0 (rs1_prime i) (rs2_prime i))
    else none

unfoldable pub expand_misc : CInstruction → Option Instruction
unfolding expand_arith
expand_misc i =
    if bit_and (funct6 i) 0b11 == 0b00
    then with_imm (shamt i) (srli (rs1_prime i))
    else if bit_and (funct6 i) 0b11 == 0b01
    then with_imm (shamt i) (srai (rs1_prime i))
    else if bit_and (funct6 i) 0b11 == 0b10
    then some (imm_op 7 (rs1_prime i) (rs1_prime i) (imm_5_0 i))
    else expand_arith i

unfoldable pub expand_lui : CInstruction → Option Instruction
expand_lui i =
    if rd i == 2
    then with_imm (nzimm_9_4 i) (imm_op 0 2 2)
    else if rd i == 0 || rd i == 2
    then none
    else with_imm (nzimm_5_0 i) (λ imm. lui (rd i) (imm * 2 ^ 12 % 2 ^ 64))

unfoldable pub expand1 : CInstruction → Option Instruction
unfolding expand_misc expand_lui
expand1 i =
    if funct3 i == 0b000
    then some (imm_op 0 (rd i) (rd i) (imm_5_0 i))
    else if funct3 i == 0b001
    then (if rd i == 0 then none else some (addiw (rd i) (imm_5_0 i)))
    else if funct3 i == 0b010
    then (if rd i == 0 then none else some (imm_op 0 (rd i) 0 (imm_5_0 i)))
    else if funct3 i == 0b011
    then expand_lui i
    else if funct3 i == 0b100
    then expand_misc i
    else if funct3 i == 0b101
    then some (jal 0 (offset_11_1 i))
    else if funct3 i == 0b110
    then some (branch_zero 0 (rs1_prime i) (offset_8_1 i))
    else some (branch_zero 1 (rs1_prime i) (offset_8_1 i))

-- C.MV and C.ADD.
unfoldable pub expand_add : CInstruction → Option Instruction
expand_add i =
    if bit12 i == 0
    then (if rs1 i == 0
        then none
        else if rs2 i != 0
        then some (reg_op 0 0 (rs1 i) 0 (rs2 i))
        else none)
    else if rs2 i != 0
    then (if rd i == 0 then none else some (reg_op 0 0 (rd i) (rd i) (rs2 i)))
    else none

unfoldable pub expand2 : CInstruction → Option Instruction
unfolding expand_add
expand2 i =
    if funct3 i == 0b000
    then with_imm (shamt i) (slli (rd i))
    else if funct3 i == 0b011
    then (if rd i == 0 then none else some (load_op 3 (rd i) 2 (offset_8_3_ldsp i)))
    else if funct3 i == 0b100
    then expand_add i
    else if funct3 i == 0b111
    then some (store_op 3 (rs2 i) 2 (offset_8_3_sdsp i))
    else none

unfoldable pub expand : CInstruction → Option Instruction
unfolding expand0 expand1 expand2
expand i =
    if op i == 0b00
    then expand0 i
    else if op i == 0b01
    then expand1 i
    else if op i == 0b10
    then expand2 i
    else none
