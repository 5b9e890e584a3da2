-- ===== src/Cpu/Rvc.antt =====
-- rv64rs/src/rvc.rs: the compressed instructions, a quadrant to a function.
pub mod Fields
pub mod Expand
pub mod Manual
pub mod Bits
pub mod Table
pub mod Jumps
pub mod Agree
pub mod Equivalence
use riscvm.Base.{ℕ, ◌+◌, ◌-◌, ◌*◌, ◌/◌, ◌%◌, ◌^◌, Bool, ◌||◌, if◌then◌else◌, ◌==◌, ◌!=◌}
use riscvm.Base.{bit_and, bit_or, bit_xor, u32, add64, sub64, add32, sub32, shl, shr, sar, widen}
use riscvm.Base.{M, Outcome, ok, pure, fail, lift, ◌>>=◌, ◌>>◌, illegal_c_instruction}
use riscvm.Decode.{sext}
use riscvm.Cpu.State.{Hart, reg, set_reg}
use riscvm.Cpu.Execute.{read, write}
use riscvm.Cpu.Rvc.Fields.{CInstruction, op, rd, rs1, rs2, rs1_prime, rs2_prime, funct3, funct6}
use riscvm.Cpu.Rvc.Fields.{funct2, bit12, imm_5_0, nzimm_5_0, shamt, nzuimm_9_2, nzimm_9_4}
use riscvm.Cpu.Rvc.Fields.{offset_6_2, offset_7_3, offset_8_1, offset_8_3_ldsp, offset_8_3_sdsp}
use riscvm.Cpu.Rvc.Fields.{offset_11_1}

abbrev pub illegal_c : {A : Type 0} → M Hart A
illegal_c = fail illegal_c_instruction

-- A result in a register, and the address `reg(base) + offset`.
abbrev pub put : ℕ → ℕ → ℕ → M Hart ℕ
put index value default_next = do set_reg index value; pure default_next

abbrev pub address : ℕ → ℕ → M Hart ℕ
address base offset = do b ← reg base; pure (add64 b offset)

unfoldable pub quadrant0 : CInstruction → ℕ → M Hart ℕ
unfolding reg set_reg read write sext
quadrant0 i default_next =
    if funct3 i == 0b000
    then (do imm ← lift (nzuimm_9_2 i); sp ← reg 2; put (rs2_prime i) (add64 sp imm) default_next)
    else if funct3 i == 0b010
    then (do
      addr ← address (rs1_prime i) (offset_6_2 i)
      v ← read addr 4
      put (rs2_prime i) (sext (u32 v) 32) default_next)
    else if funct3 i == 0b011
    then (do
      addr ← address (rs1_prime i) (offset_7_3 i)
      v ← read addr 8
      put (rs2_prime i) v default_next)
    else if funct3 i == 0b110
    then (do
      addr ← address (rs1_prime i) (offset_6_2 i)
      v ← reg (rs2_prime i)
      write addr 4 v
      pure default_next)
    else if funct3 i == 0b111
    then (do
      addr ← address (rs1_prime i) (offset_7_3 i)
      v ← reg (rs2_prime i)
      write addr 8 v
      pure default_next)
    else illegal_c

-- C.SUB, C.XOR, C.OR, C.AND, C.SUBW and C.ADDW.
unfoldable pub c_arith : CInstruction → ℕ → M Hart ℕ
unfolding reg set_reg
c_arith i default_next = do
  a ← reg (rs1_prime i)
  b ← reg (rs2_prime i)
  if bit_and (funct6 i) 0b100 == 0
      then (if funct2 i == 0b00
          then put (rs1_prime i) (sub64 a b) default_next
          else if funct2 i == 0b01
          then put (rs1_prime i) (bit_xor a b) default_next
          else if funct2 i == 0b10
          then put (rs1_prime i) (bit_or a b) default_next
          else put (rs1_prime i) (bit_and a b) default_next)
      else if funct2 i == 0b00
      then put (rs1_prime i) (widen 32 64 (sub32 (u32 a) (u32 b))) default_next
      else if funct2 i == 0b01
      then put (rs1_prime i) (widen 32 64 (add32 (u32 a) (u32 b))) default_next
      else illegal_c

-- C.SRLI, C.SRAI, C.ANDI and `c_arith`.
unfoldable pub c_misc : CInstruction → ℕ → M Hart ℕ
unfolding c_arith reg set_reg
c_misc i default_next =
    if bit_and (funct6 i) 0b11 == 0b00
    then (do k ← lift (shamt i); a ← reg (rs1_prime i); put (rs1_prime i) (shr 64 a k) default_next)
    else if bit_and (funct6 i) 0b11 == 0b01
    then (do k ← lift (shamt i); a ← reg (rs1_prime i); put (rs1_prime i) (sar 64 a k) default_next)
    else if bit_and (funct6 i) 0b11 == 0b10
    then (do a ← reg (rs1_prime i); put (rs1_prime i) (bit_and a (imm_5_0 i)) default_next)
    else c_arith i default_next

-- C.ADDI16SP and C.LUI.
unfoldable pub c_lui : CInstruction → ℕ → M Hart ℕ
unfolding reg set_reg
c_lui i default_next =
    if rd i == 2
    then (do imm ← lift (nzimm_9_4 i); sp ← reg 2; put 2 (add64 sp imm) default_next)
    else if rd i == 0 || rd i == 2
    then illegal_c
    else (do imm ← lift (nzimm_5_0 i); put (rd i) (shl 64 imm 12) default_next)

unfoldable pub c_branch : CInstruction → Bool → ℕ → ℕ → M Hart ℕ
c_branch i taken pc default_next = pure (if taken then add64 pc (offset_8_1 i) else default_next)

unfoldable pub quadrant1 : CInstruction → ℕ → ℕ → M Hart ℕ
unfolding c_lui c_misc c_branch reg set_reg
quadrant1 i pc default_next =
    if funct3 i == 0b000
    then (do a ← reg (rd i); put (rd i) (add64 a (imm_5_0 i)) default_next)
    else if funct3 i == 0b001
    then (if rd i == 0 then illegal_c else (do
      a ← reg (rd i)
      put (rd i) (widen 32 64 (add32 (u32 a) (u32 (imm_5_0 i)))) default_next))
    else if funct3 i == 0b010
    then (if rd i == 0 then illegal_c else put (rd i) (imm_5_0 i) default_next)
    else if funct3 i == 0b011
    then c_lui i default_next
    else if funct3 i == 0b100
    then c_misc i default_next
    else if funct3 i == 0b101
    then pure (add64 pc (offset_11_1 i))
    else if funct3 i == 0b110
    then (do a ← reg (rs1_prime i); c_branch i (a == 0) pc default_next)
    else (do a ← reg (rs1_prime i); c_branch i (a != 0) pc default_next)

-- C.MV, C.JR, C.ADD, C.JALR and C.EBREAK.
unfoldable pub c_jump : CInstruction → ℕ → ℕ → M Hart ℕ
unfolding reg set_reg
c_jump i pc default_next =
    if bit12 i == 0
    then (if rs1 i == 0
        then illegal_c
        else if rs2 i != 0
        then (do b ← reg (rs2 i); put (rs1 i) b default_next)
        else reg (rs1 i))
    else if rs2 i != 0
    then (if rd i == 0
        then illegal_c
        else (do a ← reg (rd i); b ← reg (rs2 i); put (rd i) (add64 a b) default_next))
    else if rs1 i != 0
    then (do target ← reg (rs1 i); set_reg 1 (add64 pc 2); pure target)
    else illegal_c

unfoldable pub quadrant2 : CInstruction → ℕ → ℕ → M Hart ℕ
unfolding c_jump reg set_reg read write
quadrant2 i pc default_next =
    if funct3 i == 0b000
    then (do k ← lift (shamt i); a ← reg (rd i); put (rd i) (shl 64 a k) default_next)
    else if funct3 i == 0b011
    then (if rd i == 0
        then illegal_c
        else (do addr ← address 2 (offset_8_3_ldsp i); v ← read addr 8; put (rd i) v default_next))
    else if funct3 i == 0b100
    then c_jump i pc default_next
    else if funct3 i == 0b111
    then (do
      addr ← address 2 (offset_8_3_sdsp i)
      v ← reg (rs2 i)
      write addr 8 v
      pure default_next)
    else illegal_c

unfoldable pub dispatch : CInstruction → ℕ → ℕ → M Hart ℕ
unfolding quadrant0 quadrant1 quadrant2
dispatch i pc default_next =
    if op i == 0b00
    then quadrant0 i default_next
    else if op i == 0b01
    then quadrant1 i pc default_next
    else if op i == 0b10
    then quadrant2 i pc default_next
    else illegal_c

unfoldable pub execute : CInstruction → M Hart ℕ
unfolding dispatch
execute i h = dispatch i h.cpu.pc (add64 h.cpu.pc 2) h
