-- ===== src/Cpu/Words/Rvc.antt =====
-- The words of a hart across the compressed instructions of rv64rs/src/rvc.rs.
use riscvm.Base.{
  ℕ, Bool, ◌==◌, ◌!=◌, ◌||◌, arith, if◌then◌else◌, bit_and, bit_or, bit_xor, u32, add64, sub64,
  add32, sub32, shl, shr, sar, widen,
}
use riscvm.Base.{Outcome, illegal_c_instruction, fail, lift, pure, ◌>>=◌, ◌>>◌}
use riscvm.Base.Yields.{any-Holds}
use riscvm.Base.Yields.{
  Anything, Yields, pure-Yields, fail-Yields, lift-Yields, if-Yields, bind-Yields, then-Yields,
}
use riscvm.Decode.{sext}
use riscvm.Bus.Words.{IsWord}
use riscvm.Cpu.State.{reg}
use riscvm.Cpu.Execute
use riscvm.Cpu.Rvc.{
  quadrant0, quadrant1, quadrant2, c_arith, c_misc, c_lui, c_branch, c_jump, dispatch, execute, put,
  address,
}
use riscvm.Cpu.Rvc.Fields.{
  CInstruction, op, rd, rs1, rs2, rs1_prime, rs2_prime, funct3, funct6, funct2, bit12, imm_5_0,
  uimm_5_0, nzimm_5_0, shamt, nzuimm_9_2, nzimm_9_4,
}
use riscvm.Cpu.Rvc.Fields.{
  offset_6_2, offset_7_3, offset_8_1, offset_8_3_ldsp, offset_8_3_sdsp, offset_11_1,
}
use riscvm.Cpu.Words.{HartWords, reg-Yields, set_reg-Yields}
use riscvm.Cpu.Words.Access.{read-HartYields, write-HartYields}
use riscvm.Cpu.Words.Execute.{either_pc}
use riscvm.Cpu.Words.Values.{
  sext-IsWord, widen-IsWord, add64-IsWord, sub64-IsWord, shl-IsWord, shr-IsWord, sar-IsWord,
  and-IsWord, or-IsWord, xor-IsWord,
}

put-Yields : (index v n : ℕ) → IsWord v → IsWord n → Yields HartWords IsWord (put index v n)
put-Yields index v n l k =
    then-Yields HartWords IsWord _ _ (set_reg-Yields index v l) (pure-Yields HartWords IsWord n k)

address-Yields : (base offset : ℕ) → Yields HartWords IsWord (address base offset)
address-Yields base offset =
    bind-Yields HartWords IsWord IsWord _ _ (reg-Yields base)
      (λ b _. pure-Yields HartWords IsWord (add64 b offset) (add64-IsWord b offset))

illegal_c-Yields : Yields {A = ℕ} HartWords IsWord (fail illegal_c_instruction)
illegal_c-Yields = fail-Yields HartWords IsWord illegal_c_instruction

-- An immediate that may be a reserved zero.
lifted : (r : Outcome ℕ) → Yields HartWords Anything (lift r)
lifted r = lift-Yields HartWords Anything r (any-Holds r)

imm_5_0-IsWord : (i : CInstruction) → IsWord (imm_5_0 i)
unfolding imm_5_0
imm_5_0-IsWord i = sext-IsWord (uimm_5_0 i) 6

add32-IsWord : (a b : ℕ) → IsWord (widen 32 64 (add32 a b))
add32-IsWord a b = widen-IsWord (add32 a b) (omega arith)

sub32-IsWord : (a b : ℕ) → IsWord (widen 32 64 (sub32 a b))
sub32-IsWord a b = widen-IsWord (sub32 a b) (omega arith)

-- A load to a register, and a store of one.
load-Yields :
    (base offset index n : ℕ)
    → IsWord n
    → Yields HartWords IsWord
        (address base offset >>= λ addr. Execute.read addr 8 >>= λ v. put index v n)
load-Yields base offset index n k =
    bind-Yields HartWords IsWord IsWord _ _ (address-Yields base offset) (λ addr _.
      bind-Yields HartWords IsWord IsWord _ _ (read-HartYields addr 8)
        (λ v l. put-Yields index v n l k))

store-Yields :
    (base offset index size n : ℕ)
    → IsWord n
    → Yields HartWords IsWord
        (address base offset >>= λ addr. reg index >>= λ v. Execute.write addr size v >> pure n)
store-Yields base offset index size n k =
    bind-Yields HartWords IsWord IsWord _ _ (address-Yields base offset) (λ addr _.
      bind-Yields HartWords IsWord IsWord _ _ (reg-Yields index) (λ v l.
        then-Yields HartWords IsWord _ _ (write-HartYields addr size v l)
          (pure-Yields HartWords IsWord n k)))

quadrant0-Yields : (i : CInstruction) (n : ℕ) → IsWord n → Yields HartWords IsWord (quadrant0 i n)
unfolding quadrant0
quadrant0-Yields i n k =
    if-Yields HartWords IsWord (funct3 i == 0b000) _ _
      (bind-Yields HartWords Anything IsWord _ _ (lifted (nzuimm_9_2 i)) (λ imm _.
        bind-Yields HartWords IsWord IsWord _ _ (reg-Yields 2)
          (λ sp _. put-Yields (rs2_prime i) (add64 sp imm) n (add64-IsWord sp imm) k)))
      (if-Yields HartWords IsWord (funct3 i == 0b010) _ _
        (bind-Yields HartWords IsWord IsWord _ _ (address-Yields (rs1_prime i) (offset_6_2 i))
          (λ addr _.
            bind-Yields HartWords IsWord IsWord _ _ (read-HartYields addr 4)
              (λ v _. put-Yields (rs2_prime i) (sext (u32 v) 32) n (sext-IsWord (u32 v) 32) k)))
        (if-Yields HartWords IsWord (funct3 i == 0b011) _ _
          (load-Yields (rs1_prime i) (offset_7_3 i) (rs2_prime i) n k)
          (if-Yields HartWords IsWord (funct3 i == 0b110) _ _
            (store-Yields (rs1_prime i) (offset_6_2 i) (rs2_prime i) 4 n k)
            (if-Yields HartWords IsWord (funct3 i == 0b111) _ _
              (store-Yields (rs1_prime i) (offset_7_3 i) (rs2_prime i) 8 n k) (illegal_c-Yields)))))

c_arith-Yields : (i : CInstruction) (n : ℕ) → IsWord n → Yields HartWords IsWord (c_arith i n)
unfolding c_arith
c_arith-Yields i n k = bind-Yields HartWords IsWord IsWord _ _ (reg-Yields (rs1_prime i)) (λ a la.
    bind-Yields HartWords IsWord IsWord _ _ (reg-Yields (rs2_prime i)) (λ b lb.
      if-Yields HartWords IsWord (bit_and (funct6 i) 0b100 == 0) _ _
        (if-Yields HartWords IsWord (funct2 i == 0b00) _ _
          (put-Yields (rs1_prime i) (sub64 a b) n (sub64-IsWord a b) k)
          (if-Yields HartWords IsWord (funct2 i == 0b01) _ _
            (put-Yields (rs1_prime i) (bit_xor a b) n (xor-IsWord a b la lb) k)
            (if-Yields HartWords IsWord (funct2 i == 0b10) _ _
              (put-Yields (rs1_prime i) (bit_or a b) n (or-IsWord a b la lb) k)
              (put-Yields (rs1_prime i) (bit_and a b) n (and-IsWord a b la) k))))
        (if-Yields HartWords IsWord (funct2 i == 0b00) _ _
          (put-Yields (rs1_prime i) (widen 32 64 (sub32 (u32 a) (u32 b))) n
            (sub32-IsWord (u32 a) (u32 b)) k)
          (if-Yields HartWords IsWord (funct2 i == 0b01) _ _
            (put-Yields (rs1_prime i) (widen 32 64 (add32 (u32 a) (u32 b))) n
              (add32-IsWord (u32 a) (u32 b)) k)
            (illegal_c-Yields)))))

c_misc-Yields : (i : CInstruction) (n : ℕ) → IsWord n → Yields HartWords IsWord (c_misc i n)
unfolding c_misc
c_misc-Yields i n k =
    if-Yields HartWords IsWord (bit_and (funct6 i) 0b11 == 0b00) _ _
      (bind-Yields HartWords Anything IsWord _ _ (lifted (shamt i)) (λ s _.
        bind-Yields HartWords IsWord IsWord _ _ (reg-Yields (rs1_prime i))
          (λ a l. put-Yields (rs1_prime i) (shr 64 a s) n (shr-IsWord a s l) k)))
      (if-Yields HartWords IsWord (bit_and (funct6 i) 0b11 == 0b01) _ _
        (bind-Yields HartWords Anything IsWord _ _ (lifted (shamt i)) (λ s _.
          bind-Yields HartWords IsWord IsWord _ _ (reg-Yields (rs1_prime i))
            (λ a l. put-Yields (rs1_prime i) (sar 64 a s) n (sar-IsWord a s l) k)))
        (if-Yields HartWords IsWord (bit_and (funct6 i) 0b11 == 0b10) _ _
          (bind-Yields HartWords IsWord IsWord _ _ (reg-Yields (rs1_prime i)) (λ a l.
            put-Yields (rs1_prime i) (bit_and a (imm_5_0 i)) n (and-IsWord a (imm_5_0 i) l) k))
          (c_arith-Yields i n k)))

c_lui-Yields : (i : CInstruction) (n : ℕ) → IsWord n → Yields HartWords IsWord (c_lui i n)
unfolding c_lui
c_lui-Yields i n k =
    if-Yields HartWords IsWord (rd i == 2) _ _
      (bind-Yields HartWords Anything IsWord _ _ (lifted (nzimm_9_4 i)) (λ imm _.
        bind-Yields HartWords IsWord IsWord _ _ (reg-Yields 2)
          (λ sp _. put-Yields (2) (add64 sp imm) n (add64-IsWord sp imm) k)))
      (if-Yields HartWords IsWord (rd i == 0 || rd i == 2) _ _ (illegal_c-Yields) (
        bind-Yields HartWords Anything IsWord _ _ (lifted (nzimm_5_0 i))
          (λ imm _. put-Yields (rd i) (shl 64 imm 12) n (shl-IsWord imm 12) k)))

c_branch-Yields :
    (i : CInstruction) (t : Bool) (pc n : ℕ)
    → IsWord n
    → Yields HartWords IsWord (c_branch i t pc n)
unfolding c_branch
c_branch-Yields i t pc n k =
    pure-Yields HartWords IsWord (if t then add64 pc (offset_8_1 i) else n)
      (either_pc t _ n (add64-IsWord pc (offset_8_1 i)) k)

quadrant1-Yields :
    (i : CInstruction) (pc n : ℕ) → IsWord n → Yields HartWords IsWord (quadrant1 i pc n)
unfolding quadrant1
quadrant1-Yields i pc n k =
    if-Yields HartWords IsWord (funct3 i == 0b000) _ _
      (bind-Yields HartWords IsWord IsWord _ _ (reg-Yields (rd i))
        (λ a _. put-Yields (rd i) (add64 a (imm_5_0 i)) n (add64-IsWord a (imm_5_0 i)) k))
      (if-Yields HartWords IsWord (funct3 i == 0b001) _ _
        (if-Yields HartWords IsWord (rd i == 0) _ _ illegal_c-Yields (
          bind-Yields HartWords IsWord IsWord _ _ (reg-Yields (rd i)) (λ a _.
            put-Yields (rd i) (widen 32 64 (add32 (u32 a) (u32 (imm_5_0 i)))) n
              (add32-IsWord (u32 a) (u32 (imm_5_0 i))) k)))
        (if-Yields HartWords IsWord (funct3 i == 0b010) _ _
          (if-Yields HartWords IsWord (rd i == 0) _ _ illegal_c-Yields
            (put-Yields (rd i) (imm_5_0 i) n (imm_5_0-IsWord i) k))
          (if-Yields HartWords IsWord (funct3 i == 0b011) _ _ (c_lui-Yields i n k) (
            if-Yields HartWords IsWord (funct3 i == 0b100) _ _ (c_misc-Yields i n k) (
              if-Yields HartWords IsWord (funct3 i == 0b101) _ _
                (pure-Yields HartWords IsWord (add64 pc (offset_11_1 i))
                  (add64-IsWord pc (offset_11_1 i)))
                (if-Yields HartWords IsWord (funct3 i == 0b110) _ _
                  (bind-Yields HartWords IsWord IsWord _ _ (reg-Yields (rs1_prime i))
                    (λ a _. c_branch-Yields i (a == 0) pc n k))
                  (bind-Yields HartWords IsWord IsWord _ _ (reg-Yields (rs1_prime i))
                    (λ a _. c_branch-Yields i (a != 0) pc n k))))))))

c_jump-Yields : (i : CInstruction) (pc n : ℕ) → IsWord n → Yields HartWords IsWord (c_jump i pc n)
unfolding c_jump
c_jump-Yields i pc n k =
    if-Yields HartWords IsWord (bit12 i == 0) _ _
      (if-Yields HartWords IsWord (rs1 i == 0) _ _ (illegal_c-Yields) (
        if-Yields HartWords IsWord (rs2 i != 0) _ _
          (bind-Yields HartWords IsWord IsWord _ _ (reg-Yields (rs2 i))
            (λ b l. put-Yields (rs1 i) (b) n (l) k))
          (reg-Yields (rs1 i))))
      (if-Yields HartWords IsWord (rs2 i != 0) _ _
        (if-Yields HartWords IsWord (rd i == 0) _ _ illegal_c-Yields (
          bind-Yields HartWords IsWord IsWord _ _ (reg-Yields (rd i)) (λ a _.
            bind-Yields HartWords IsWord IsWord _ _ (reg-Yields (rs2 i))
              (λ b _. put-Yields (rd i) (add64 a b) n (add64-IsWord a b) k))))
        (if-Yields HartWords IsWord (rs1 i != 0) _ _
          (bind-Yields HartWords IsWord IsWord _ _ (reg-Yields (rs1 i)) (λ target l.
            then-Yields HartWords IsWord _ _ (set_reg-Yields 1 (add64 pc 2) (add64-IsWord pc 2))
              (pure-Yields HartWords IsWord target l)))
          (illegal_c-Yields)))

quadrant2-Yields :
    (i : CInstruction) (pc n : ℕ) → IsWord n → Yields HartWords IsWord (quadrant2 i pc n)
unfolding quadrant2
quadrant2-Yields i pc n k =
    if-Yields HartWords IsWord (funct3 i == 0b000) _ _
      (bind-Yields HartWords Anything IsWord _ _ (lifted (shamt i)) (λ s _.
        bind-Yields HartWords IsWord IsWord _ _ (reg-Yields (rd i))
          (λ a _. put-Yields (rd i) (shl 64 a s) n (shl-IsWord a s) k)))
      (if-Yields HartWords IsWord (funct3 i == 0b011) _ _
        (if-Yields HartWords IsWord (rd i == 0) _ _ illegal_c-Yields
          (load-Yields 2 (offset_8_3_ldsp i) (rd i) n k))
        (if-Yields HartWords IsWord (funct3 i == 0b100) _ _ (c_jump-Yields i pc n k) (
          if-Yields HartWords IsWord (funct3 i == 0b111) _ _
            (store-Yields 2 (offset_8_3_sdsp i) (rs2 i) 8 n k) (illegal_c-Yields))))

dispatch-Yields :
    (i : CInstruction) (pc n : ℕ) → IsWord n → Yields HartWords IsWord (dispatch i pc n)
unfolding dispatch
dispatch-Yields i pc n k = if-Yields HartWords IsWord (op i == 0b00) _ _ (quadrant0-Yields i n k) (
    if-Yields HartWords IsWord (op i == 0b01) _ _ (quadrant1-Yields i pc n k) (
      if-Yields HartWords IsWord (op i == 0b10) _ _ (quadrant2-Yields i pc n k) (illegal_c-Yields)))

pub execute-CYields : (i : CInstruction) → Yields HartWords IsWord (execute i)
unfolding execute
execute-CYields i = record {
  yields = λ h. (dispatch-Yields i h.cpu.pc (add64 h.cpu.pc 2) (add64-IsWord h.cpu.pc 2)).yields h;
}
