-- ===== src/Cpu/Words/Execute.antt =====
-- The words of a hart across the instructions of rv64rs/src/execute.rs.
use riscvm.Base.{
  ℕ, Bool, true, false, ◌/◌, ◌^◌, ◌<◌, ◌==◌, ◌&&◌, arith, if◌then◌else◌, bit_and, inv, u32, add64,
}
use riscvm.Base.{Option, none, some, fail, pure, ◌>>=◌, illegal_instruction, widen}
use riscvm.Base.Yields.{
  Anything, Yields, pure-Yields, fail-Yields, if-Yields, bind-Yields, then-Yields,
}
use riscvm.Decode.{Instruction}
use riscvm.Bus.Words.{IsWord}
use riscvm.Cpu.Execute.{read, load, load_value, store, store_value, branch, legal, taken, jalr}
use riscvm.Cpu.Execute.{alu_imm, alu_imm_32, alu, alu_32, amo, to_rd}
use riscvm.Cpu.Execute.Alu.{sext64, op_imm, op_imm_32, op, op_32}
use riscvm.Cpu.Words.{HartWords, reg-Yields, set_reg-Yields}
use riscvm.Cpu.Words.Access.{read-HartYields, write-HartYields}
use riscvm.Cpu.Words.Values.{
  Gives, Gives32, InstructionWords, op_imm-Gives, op-Gives, op_imm_32-Gives, op_32-Gives,
}
use riscvm.Cpu.Words.Values.{sext64-IsWord, widen-IsWord, add64-IsWord, and-IsWord}

-- A load that is sign-extended.
read_as :
    (address size bits : ℕ)
    → Yields HartWords IsWord (read address size >>= λ v. pure (sext64 v bits))
read_as address size bits =
    bind-Yields HartWords IsWord IsWord _ _ (read-HartYields address size)
      (λ v _. pure-Yields HartWords IsWord (sext64 v bits) (sext64-IsWord v bits))

pub illegal-Yields :
    {A : Type 0} (Q : A → Type 0) → Yields {A = A} HartWords Q (fail illegal_instruction)
illegal-Yields Q = fail-Yields HartWords Q illegal_instruction

load_value-Yields : (i : Instruction) (addr : ℕ) → Yields HartWords IsWord (load_value i addr)
unfolding load_value
load_value-Yields i addr = if-Yields HartWords IsWord (i.funct3 == 0x0) _ _ (read_as addr 1 8) (
    if-Yields HartWords IsWord (i.funct3 == 0x1) _ _ (read_as addr 2 16) (
      if-Yields HartWords IsWord (i.funct3 == 0x2) _ _ (read_as addr 4 32) (
        if-Yields HartWords IsWord (i.funct3 == 0x3) _ _ (read-HartYields addr 8) (
          if-Yields HartWords IsWord (i.funct3 == 0x4) _ _ (read-HartYields addr 1) (
            if-Yields HartWords IsWord (i.funct3 == 0x5) _ _ (read-HartYields addr 2) (
              if-Yields HartWords IsWord (i.funct3 == 0x6) _ _ (read-HartYields addr 4)
                (illegal-Yields IsWord)))))))

store_value-Yields :
    (i : Instruction) (addr value : ℕ)
    → IsWord value
    → Yields HartWords Anything (store_value i addr value)
unfolding store_value
store_value-Yields i addr value l =
    if-Yields HartWords Anything (i.funct3 == 0x0) _ _ (write-HartYields addr 1 value l) (
      if-Yields HartWords Anything (i.funct3 == 0x1) _ _ (write-HartYields addr 2 value l) (
        if-Yields HartWords Anything (i.funct3 == 0x2) _ _ (write-HartYields addr 4 value l) (
          if-Yields HartWords Anything (i.funct3 == 0x3) _ _ (write-HartYields addr 8 value l)
            (illegal-Yields Anything))))

-- A value in a register, and the next program counter.
pub to_rd-Yields :
    (i : Instruction) (out n : ℕ) → IsWord out → IsWord n → Yields HartWords IsWord (to_rd i out n)
to_rd-Yields i out n l k =
    then-Yields HartWords IsWord _ _ (set_reg-Yields i.rd out l) (pure-Yields HartWords IsWord n k)

pub load-Yields : (i : Instruction) (n : ℕ) → IsWord n → Yields HartWords IsWord (load i n)
unfolding load
load-Yields i n k = bind-Yields HartWords IsWord IsWord _ _ (reg-Yields i.rs1) (λ base _.
    bind-Yields HartWords IsWord IsWord _ _ (load_value-Yields i (add64 base i.imm_i))
      (λ out l. to_rd-Yields i out n l k))

pub store-Yields : (i : Instruction) (n : ℕ) → IsWord n → Yields HartWords IsWord (store i n)
unfolding store
store-Yields i n k = bind-Yields HartWords IsWord IsWord _ _ (reg-Yields i.rs1) (λ base _.
    bind-Yields HartWords IsWord IsWord _ _ (reg-Yields i.rs2) (λ value l.
      then-Yields HartWords IsWord _ _ (store_value-Yields i (add64 base i.imm_s) value l)
        (pure-Yields HartWords IsWord n k)))

Gives-legal : (o : Option ℕ) → Gives o → Yields HartWords IsWord (legal o)
Gives-legal none g = illegal-Yields IsWord
Gives-legal (some v) g = pure-Yields HartWords IsWord v g

abbrev Is32 : ℕ → Type 0
Is32 v = v < 2 ^ 32

Gives32-legal : (o : Option ℕ) → Gives32 o → Yields HartWords Is32 (legal o)
Gives32-legal none g = illegal-Yields Is32
Gives32-legal (some v) g = pure-Yields HartWords Is32 v g

any_legal : {A : Type 0} (o : Option A) → Yields HartWords Anything (legal o)
any_legal none = illegal-Yields Anything
any_legal (some v) = pure-Yields HartWords Anything v tt

pub either_pc : (t : Bool) (a b : ℕ) → IsWord a → IsWord b → IsWord (if t then a else b)
either_pc true a b p q = p
either_pc false a b p q = q

pub branch-Yields :
    (i : Instruction) (pc n : ℕ) → IsWord n → Yields HartWords IsWord (branch i pc n)
unfolding branch
branch-Yields i pc n k = bind-Yields HartWords IsWord IsWord _ _ (reg-Yields i.rs1) (λ a _.
    bind-Yields HartWords IsWord IsWord _ _ (reg-Yields i.rs2) (λ b _.
      bind-Yields HartWords Anything IsWord _ _ (any_legal (taken i.funct3 a b)) (λ t _.
        pure-Yields HartWords IsWord (if t then add64 pc i.imm_b else n)
          (either_pc t _ n (add64-IsWord pc i.imm_b) k))))

pub jalr-Yields : (i : Instruction) (n : ℕ) → IsWord n → Yields HartWords IsWord (jalr i n)
unfolding jalr
jalr-Yields i n k = bind-Yields HartWords IsWord IsWord _ _ (reg-Yields i.rs1) (λ base _.
    then-Yields HartWords IsWord _ _ (set_reg-Yields i.rd n k) (
      pure-Yields HartWords IsWord (bit_and (add64 base i.imm_i) (inv 64 1))
        (and-IsWord _ _ (add64-IsWord base i.imm_i))))

pub alu_imm-Yields :
    (i : Instruction) (n : ℕ)
    → InstructionWords i
    → IsWord n
    → Yields HartWords IsWord (alu_imm i n)
unfolding alu_imm
alu_imm-Yields i n w k = bind-Yields HartWords IsWord IsWord _ _ (reg-Yields i.rs1) (λ a la.
    bind-Yields HartWords IsWord IsWord _ _ (Gives-legal (op_imm i a) (op_imm-Gives i a w la))
      (λ out l. to_rd-Yields i out n l k))

pub alu_imm_32-Yields :
    (i : Instruction) (n : ℕ) → IsWord n → Yields HartWords IsWord (alu_imm_32 i n)
unfolding alu_imm_32
alu_imm_32-Yields i n k = bind-Yields HartWords IsWord IsWord _ _ (reg-Yields i.rs1) (λ a _.
    bind-Yields HartWords Is32 IsWord _ _
      (Gives32-legal (op_imm_32 i (u32 a)) (op_imm_32-Gives i (u32 a) (omega arith)))
      (λ out l. to_rd-Yields i (widen 32 64 out) n (widen-IsWord out l) k))

pub alu-Yields : (i : Instruction) (n : ℕ) → IsWord n → Yields HartWords IsWord (alu i n)
unfolding alu
alu-Yields i n k = bind-Yields HartWords IsWord IsWord _ _ (reg-Yields i.rs1) (λ a la.
    bind-Yields HartWords IsWord IsWord _ _ (reg-Yields i.rs2) (λ b lb.
      bind-Yields HartWords IsWord IsWord _ _ (Gives-legal (op i a b) (op-Gives i a b la lb))
        (λ out l. to_rd-Yields i out n l k)))

pub alu_32-Yields : (i : Instruction) (n : ℕ) → IsWord n → Yields HartWords IsWord (alu_32 i n)
unfolding alu_32
alu_32-Yields i n k = bind-Yields HartWords IsWord IsWord _ _ (reg-Yields i.rs1) (λ a _.
    bind-Yields HartWords IsWord IsWord _ _ (reg-Yields i.rs2) (λ b _.
      bind-Yields HartWords Is32 IsWord _ _
        (Gives32-legal (op_32 i (u32 a) (u32 b))
          (op_32-Gives (u32 a) (u32 b) (omega arith) (omega arith) i))
        (λ out l. to_rd-Yields i (widen 32 64 out) n (widen-IsWord out l) k)))

pub amo-Yields : (i : Instruction) (n : ℕ) → IsWord n → Yields HartWords IsWord (amo i n)
unfolding amo
amo-Yields i n k =
    if-Yields HartWords IsWord ((i.funct3 == 0x2) && (i.funct7 / 4 == 0b00001)) _ _
      (bind-Yields HartWords IsWord IsWord _ _ (reg-Yields i.rs1) (λ addr _.
        bind-Yields HartWords IsWord IsWord _ _ (read-HartYields addr 4) (λ word _.
          bind-Yields HartWords IsWord IsWord _ _ (reg-Yields i.rs2) (λ value l.
            then-Yields HartWords IsWord _ _ (write-HartYields addr 4 value l)
              (to_rd-Yields i (sext64 word 32) n (sext64-IsWord word 32) k)))))
      (illegal-Yields IsWord)
