-- ===== src/Cpu/Execute.antt =====
-- rv64rs/src/execute.rs, an opcode to a function. The result is the next pc.
pub mod Alu
pub mod System
use riscvm.Base.{ℕ, ◌+◌, ◌-◌, ◌*◌, ◌/◌, ◌%◌, ◌^◌, Bool, true, false, not, ◌&&◌, if◌then◌else◌}
use riscvm.Base.{ltb, ◌==◌, ◌!=◌, Option, none, some, bit_and, inv, add64, slt, widen}
use riscvm.Base.{u32, M, Outcome, ok, pure, fail, gets, lift, ◌>>=◌, ◌>>◌, illegal_instruction}
use riscvm.Decode.{Instruction}
use riscvm.Bus.Access
use riscvm.Bus.Write
use riscvm.Cpu.State.{Hart, reg, set_reg, on_bus}
use riscvm.Cpu.Mmu.{translate, read_access, write_access}
use riscvm.Cpu.Execute.Alu.{sext64, op_imm, op_imm_32, op, op_32}
use riscvm.Cpu.Execute.System.{execute_system, illegal}

abbrev pub opcode_load : ℕ
opcode_load = 0x03

abbrev pub opcode_misc_mem : ℕ
opcode_misc_mem = 0x0f

abbrev pub opcode_store : ℕ
opcode_store = 0x23

abbrev pub opcode_auipc : ℕ
opcode_auipc = 0x17

abbrev pub opcode_op_imm : ℕ
opcode_op_imm = 0x13

abbrev pub opcode_op_imm_32 : ℕ
opcode_op_imm_32 = 0x1b

abbrev pub opcode_lui : ℕ
opcode_lui = 0x37

abbrev pub opcode_op : ℕ
opcode_op = 0x33

abbrev pub opcode_op_32 : ℕ
opcode_op_32 = 0x3b

abbrev pub opcode_branch : ℕ
opcode_branch = 0x63

abbrev pub opcode_jalr : ℕ
opcode_jalr = 0x67

abbrev pub opcode_jal : ℕ
opcode_jal = 0x6f

abbrev pub opcode_system : ℕ
opcode_system = 0x73

abbrev pub opcode_amo : ℕ
opcode_amo = 0x2f

-- `Cpu::read` and `Cpu::write` of rv64rs/src/cpu.rs.
unfoldable pub read : ℕ → ℕ → M Hart ℕ
unfolding on_bus
read address size = do pa ← translate address read_access; on_bus (Access.read pa size)

unfoldable pub write : ℕ → ℕ → ℕ → M Hart (Unit {0})
unfolding on_bus
write address size value = do
  pa ← translate address write_access
  on_bus (Write.write pa size value)

unfoldable pub load_value : Instruction → ℕ → M Hart ℕ
unfolding read sext64
load_value i addr =
    if i.funct3 == 0x0
    then (do v ← read addr 1; pure (sext64 v 8))
    else if i.funct3 == 0x1
    then (do v ← read addr 2; pure (sext64 v 16))
    else if i.funct3 == 0x2
    then (do v ← read addr 4; pure (sext64 v 32))
    else if i.funct3 == 0x3
    then read addr 8
    else if i.funct3 == 0x4
    then read addr 1
    else if i.funct3 == 0x5
    then read addr 2
    else if i.funct3 == 0x6
    then read addr 4
    else illegal

unfoldable pub load : Instruction → ℕ → M Hart ℕ
unfolding load_value reg set_reg
load i default_next = do
  base ← reg i.rs1
  out ← load_value i (add64 base i.imm_i)
  set_reg i.rd out
  pure default_next

unfoldable pub store_value : Instruction → ℕ → ℕ → M Hart (Unit {0})
unfolding write
store_value i addr value =
    if i.funct3 == 0x0
    then write addr 1 value
    else if i.funct3 == 0x1
    then write addr 2 value
    else if i.funct3 == 0x2
    then write addr 4 value
    else if i.funct3 == 0x3
    then write addr 8 value
    else illegal

unfoldable pub store : Instruction → ℕ → M Hart ℕ
unfolding store_value reg
store i default_next = do
  base ← reg i.rs1
  value ← reg i.rs2
  store_value i (add64 base i.imm_s) value
  pure default_next

unfoldable pub taken : ℕ → ℕ → ℕ → Option Bool
taken funct3 a b =
    if funct3 == 0x0
    then some (a == b)
    else if funct3 == 0x1
    then some (a != b)
    else if funct3 == 0x4
    then some (slt 64 a b)
    else if funct3 == 0x5
    then some (not (slt 64 a b))
    else if funct3 == 0x6
    then some (ltb a b)
    else if funct3 == 0x7
    then some (not (ltb a b))
    else none

-- An encoding that has an arm, or an illegal instruction.
abbrev pub legal : {A : Type 0} → Option A → M Hart A
legal none = illegal
legal (some x) = pure x

unfoldable pub branch : Instruction → ℕ → ℕ → M Hart ℕ
unfolding taken reg
branch i pc default_next = do
  a ← reg i.rs1
  b ← reg i.rs2
  t ← legal (taken i.funct3 a b)
  pure (if t then add64 pc i.imm_b else default_next)

-- A result in `rd`.
abbrev pub to_rd : Instruction → ℕ → ℕ → M Hart ℕ
to_rd i out default_next = do set_reg i.rd out; pure default_next

unfoldable pub jalr : Instruction → ℕ → M Hart ℕ
unfolding reg set_reg
jalr i default_next = do
  base ← reg i.rs1
  let target = bit_and (add64 base i.imm_i) (inv 64 1)
  set_reg i.rd default_next
  pure target

unfoldable pub alu_imm : Instruction → ℕ → M Hart ℕ
unfolding op_imm reg set_reg
alu_imm i default_next = do a ← reg i.rs1; out ← legal (op_imm i a); to_rd i out default_next

unfoldable pub alu_imm_32 : Instruction → ℕ → M Hart ℕ
unfolding op_imm_32 reg set_reg
alu_imm_32 i default_next = do
  a ← reg i.rs1
  out ← legal (op_imm_32 i (u32 a))
  to_rd i (widen 32 64 out) default_next

unfoldable pub alu : Instruction → ℕ → M Hart ℕ
unfolding op reg set_reg
alu i default_next = do
  a ← reg i.rs1
  b ← reg i.rs2
  out ← legal (op i a b)
  to_rd i out default_next

unfoldable pub alu_32 : Instruction → ℕ → M Hart ℕ
unfolding op_32 reg set_reg
alu_32 i default_next = do
  a ← reg i.rs1
  b ← reg i.rs2
  out ← legal (op_32 i (u32 a) (u32 b))
  to_rd i (widen 32 64 out) default_next

-- AMOSWAP.W is the only one.
unfoldable pub amo : Instruction → ℕ → M Hart ℕ
unfolding read write sext64 reg set_reg
amo i default_next =
    if (i.funct3 == 0x2) && (i.funct7 / 4 == 0b00001)
    then (do
      addr ← reg i.rs1
      word ← read addr 4
      value ← reg i.rs2
      write addr 4 value
      set_reg i.rd (sext64 word 32)
      pure default_next)
    else illegal

unfoldable pub dispatch : Instruction → ℕ → ℕ → M Hart ℕ
unfolding load store branch jalr alu_imm alu_imm_32 alu alu_32 amo execute_system set_reg
dispatch i pc default_next =
    if i.opcode == opcode_load
    then load i default_next
    else if i.opcode == opcode_store
    then store i default_next
    else if i.opcode == opcode_lui
    then to_rd i i.imm_u default_next
    else if i.opcode == opcode_auipc
    then to_rd i (add64 pc i.imm_u) default_next
    else if i.opcode == opcode_jal
    then to_rd i default_next (add64 pc i.imm_j)
    else if i.opcode == opcode_jalr
    then jalr i default_next
    else if i.opcode == opcode_branch
    then branch i pc default_next
    else if i.opcode == opcode_op_imm
    then alu_imm i default_next
    else if i.opcode == opcode_op_imm_32
    then alu_imm_32 i default_next
    else if i.opcode == opcode_op
    then alu i default_next
    else if i.opcode == opcode_op_32
    then alu_32 i default_next
    else if i.opcode == opcode_misc_mem
    then pure default_next
    else if i.opcode == opcode_system
    then execute_system i default_next
    else if i.opcode == opcode_amo
    then amo i default_next
    else illegal

unfoldable pub execute : Instruction → M Hart ℕ
unfolding dispatch
execute i h = dispatch i h.cpu.pc (add64 h.cpu.pc 4) h
