-- ===== src/Asm.antt =====
-- rv64rs/src/asm.rs: the encoders. An `i32` immediate is its 32-bit pattern.
use riscvm.Base.{ℕ, ◌/◌, ◌%◌, ◌^◌, List, [], ◌∷◌, ◌++◌, bit_and, bit_or, shl, shr}

unfoldable pub encode_i : ℕ → ℕ → ℕ → ℕ → ℕ → ℕ
encode_i imm rs1 funct3 rd opcode =
    bit_or
      (bit_or (bit_or (bit_or (shl 32 (bit_and imm 0xfff) 20) (shl 32 rs1 15)) (shl 32 funct3 12))
        (shl 32 rd 7))
      opcode

unfoldable pub encode_s : ℕ → ℕ → ℕ → ℕ → ℕ → ℕ
encode_s imm rs1 rs2 funct3 opcode =
    bit_or
      (bit_or
        (bit_or
          (bit_or (bit_or (shl 32 (bit_and (shr 32 imm 5) 0x7f) 25) (shl 32 rs2 20))
            (shl 32 rs1 15))
          (shl 32 funct3 12))
        (shl 32 (bit_and imm 0x1f) 7))
      opcode

unfoldable pub encode_u : ℕ → ℕ → ℕ → ℕ
encode_u imm rd opcode = bit_or (bit_or (bit_and imm 0xffff_f000) (shl 32 rd 7)) opcode

unfoldable pub encode_j : ℕ → ℕ → ℕ → ℕ
encode_j imm rd opcode =
    let bit20 = bit_and (shr 32 imm 20) 1 in
    let bits10_1 = bit_and (shr 32 imm 1) 0x3ff in
    let bit11 = bit_and (shr 32 imm 11) 1 in
    let bits19_12 = bit_and (shr 32 imm 12) 0xff in
    bit_or
      (bit_or
        (bit_or (bit_or (bit_or (shl 32 bit20 31) (shl 32 bits10_1 21)) (shl 32 bit11 20))
          (shl 32 bits19_12 12))
        (shl 32 rd 7))
      opcode

unfoldable pub encode_b : ℕ → ℕ → ℕ → ℕ → ℕ → ℕ
encode_b imm rs1 rs2 funct3 opcode =
    let bit12 = bit_and (shr 32 imm 12) 1 in
    let bits10_5 = bit_and (shr 32 imm 5) 0x3f in
    let bits4_1 = bit_and (shr 32 imm 1) 0xf in
    let bit11 = bit_and (shr 32 imm 11) 1 in
    bit_or
      (bit_or
        (bit_or
          (bit_or
            (bit_or (bit_or (bit_or (shl 32 bit12 31) (shl 32 bits10_5 25)) (shl 32 rs2 20))
              (shl 32 rs1 15))
            (shl 32 funct3 12))
          (shl 32 bits4_1 8))
        (shl 32 bit11 7))
      opcode

word_bytes : ℕ → List ℕ
word_bytes w = w % 256 ∷ w / 2 ^ 8 % 256 ∷ w / 2 ^ 16 % 256 ∷ w / 2 ^ 24 % 256 ∷ []

flat : List ℕ → List ℕ
unfolding word_bytes
flat [] = []
flat (w ∷ ws) = word_bytes w ++ flat ws

-- Register numbers and codes of the demo programs.
abbrev pub zero_reg : ℕ
zero_reg = 0

abbrev pub ra : ℕ
ra = 1

abbrev pub sp : ℕ
sp = 2

abbrev pub t0 : ℕ
t0 = 5

abbrev pub t1 : ℕ
t1 = 6

abbrev pub t2 : ℕ
t2 = 7

abbrev pub a0 : ℕ
a0 = 10

abbrev pub opcode_load : ℕ
opcode_load = 0x03

abbrev pub opcode_store : ℕ
opcode_store = 0x23

abbrev pub opcode_op_imm : ℕ
opcode_op_imm = 0x13

abbrev pub opcode_lui : ℕ
opcode_lui = 0x37

abbrev pub opcode_jalr : ℕ
opcode_jalr = 0x67

abbrev pub opcode_jal : ℕ
opcode_jal = 0x6f

abbrev pub opcode_branch : ℕ
opcode_branch = 0x63

abbrev pub funct3_sw : ℕ
funct3_sw = 0x2

abbrev pub funct3_lw : ℕ
funct3_lw = 0x2

abbrev pub funct3_addi : ℕ
funct3_addi = 0x0

abbrev pub funct3_beq : ℕ
funct3_beq = 0x0

unfoldable pub stack_demo_program : List ℕ
unfolding encode_u encode_i encode_s flat
stack_demo_program = flat (
    encode_u 0x3000 sp opcode_lui
    ∷ encode_i 42 zero_reg funct3_addi t0 opcode_op_imm
    ∷ encode_s 0 sp t0 funct3_sw opcode_store
    ∷ encode_i 0 sp funct3_lw t1 opcode_load
    ∷ encode_i 1 t1 funct3_addi t1 opcode_op_imm
    ∷ encode_s 4 sp t1 funct3_sw opcode_store
    ∷ encode_i 4 sp funct3_lw a0 opcode_load
    ∷ encode_i 0 ra 0x0 zero_reg opcode_jalr
    ∷ [])
