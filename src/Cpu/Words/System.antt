-- ===== src/Cpu/Words/System.antt =====
-- The words of a hart across the system instructions of rv64rs/src/execute.rs, and with them every
-- 32-bit instruction.
use riscvm.Base.{ℕ, false, ◌+◌, ◌==◌, ◌!=◌, ◌&&◌, arith, bit_and, inv, add64}
use riscvm.Base.{M, pure, ◌>>◌}
use riscvm.Base.Yields.{
  Anything, Yields, pure-Yields, gets-Yields, if-Yields, bind-Yields, then-Yields,
}
use riscvm.Decode.{Instruction}
use riscvm.Bus.Words.{IsWord}
use riscvm.Cpu.State.{Hart, get, insert, sepc, mepc, mstatus}
use riscvm.Cpu.Tlb
use riscvm.Cpu.Trap.{csr_read, csr_write, mstatus_sie, mstatus_mie, mstatus_spie, mstatus_mpie}
use riscvm.Cpu.Execute.{dispatch, execute}
use riscvm.Cpu.Execute.System.{
  csr_access, csr_register, privileged, execute_system, ecall, sret, mret, sfence,
}
use riscvm.Cpu.Execute.System.{sret_status, mret_status, replace_bits, set_bits, clear_bits}
use riscvm.Cpu.Words.{
  HartWords, reg-Yields, set_reg-Yields, on_cpu-Yields, insert-TableWords, set_tlb-CpuWords,
}
use riscvm.Cpu.Words.Trap.{
  csr_read-IsWord, csr_write-CpuWords, raise_trap-Entered, get-IsWord, assign-IsWord,
}
use riscvm.Cpu.Words.Execute.{
  illegal-Yields, load-Yields, store-Yields, branch-Yields, to_rd-Yields, jalr-Yields,
}
use riscvm.Cpu.Words.Execute.{
  alu_imm-Yields, alu_imm_32-Yields, alu-Yields, alu_32-Yields, amo-Yields,
}
use riscvm.Cpu.Words.Values.{InstructionWords, add64-IsWord, and-IsWord, or-IsWord}

-- What a CSR instruction writes is a word.
abbrev Updates : (ℕ → ℕ → ℕ) → Type 0
Updates new_value = (old operand : ℕ) → IsWord old → IsWord operand → IsWord (new_value old operand)

replace_bits-Updates : Updates replace_bits
replace_bits-Updates old operand lo l = l

set_bits-Updates : Updates set_bits
set_bits-Updates old operand lo l = or-IsWord old operand lo l

clear_bits-Updates : Updates clear_bits
clear_bits-Updates old operand lo l = and-IsWord old (inv 64 operand) lo

csr_access-Yields :
    (i : Instruction) (new_value : ℕ → ℕ → ℕ) (operand : ℕ)
    → Updates new_value
    → IsWord operand
    → Yields HartWords Anything (csr_access i new_value operand)
unfolding csr_access
csr_access-Yields i new_value operand u l =
    bind-Yields HartWords IsWord Anything _ _
      (gets-Yields HartWords IsWord (λ h. csr_read h.cpu i.csr)
        (λ h w. csr_read-IsWord h.cpu i.csr w.cpu))
      (λ old lo. then-Yields HartWords Anything _ _ (set_reg-Yields i.rd old lo) (
        on_cpu-Yields (csr_write i.csr (new_value old operand))
          (λ c w. csr_write-CpuWords i.csr (new_value old operand) c (u old operand lo l) w)))

csr_register-Yields :
    (i : Instruction) (new_value : ℕ → ℕ → ℕ)
    → Updates new_value
    → Yields HartWords Anything (csr_register i new_value)
unfolding csr_register
csr_register-Yields i new_value u =
    bind-Yields HartWords IsWord Anything _ _ (reg-Yields i.rs1)
      (λ operand l. csr_access-Yields i new_value operand u l)

ecall-Yields : Yields HartWords IsWord ecall
unfolding ecall
ecall-Yields = record {
  yields = λ h w.
      let (pc, k) =
        raise_trap-Entered (8 + h.cpu.mode) false 0 h.cpu (omega (arith, w.cpu.mode)) (omega arith)
          w.cpu in
      (record { cpu = k; bus = w.bus }, pc);
}

sret_status-IsWord : (status : ℕ) → IsWord status → IsWord (sret_status status)
unfolding sret_status
sret_status-IsWord status s = and-IsWord _ _ (
    or-IsWord _ mstatus_spie
      (assign-IsWord status mstatus_sie (bit_and status mstatus_spie != 0) s (omega arith))
      (omega arith))

mret_status-IsWord : (status : ℕ) → IsWord status → IsWord (mret_status status)
unfolding mret_status
mret_status-IsWord status s = and-IsWord _ _ (
    or-IsWord _ mstatus_mpie
      (assign-IsWord status mstatus_mie (bit_and status mstatus_mpie != 0) s (omega arith))
      (omega arith))

sret-Yields : Yields HartWords IsWord sret
unfolding sret
sret-Yields = record {
  yields = λ h w.
      let s = get-IsWord h.cpu.csrs mstatus w.cpu.csrs in
      let k =
        insert-TableWords h.cpu.csrs mstatus (sret_status (get h.cpu.csrs mstatus)) w.cpu.csrs
          (sret_status-IsWord (get h.cpu.csrs mstatus) s) in
      (
        record {
          cpu = record { regs = w.cpu.regs; csrs = k; pc = w.cpu.pc; mode = omega arith };
          bus = w.bus;
        },
        get-IsWord (insert h.cpu.csrs mstatus (sret_status (get h.cpu.csrs mstatus))) sepc k,
      );
}

mret-Yields : Yields HartWords IsWord mret
unfolding mret
mret-Yields = record {
  yields = λ h w.
      let s = get-IsWord h.cpu.csrs mstatus w.cpu.csrs in
      let k =
        insert-TableWords h.cpu.csrs mstatus (mret_status (get h.cpu.csrs mstatus)) w.cpu.csrs
          (mret_status-IsWord (get h.cpu.csrs mstatus) s) in
      (
        record {
          cpu = record { regs = w.cpu.regs; csrs = k; pc = w.cpu.pc; mode = omega arith };
          bus = w.bus;
        },
        get-IsWord (insert h.cpu.csrs mstatus (mret_status (get h.cpu.csrs mstatus))) mepc k,
      );
}

sfence-Yields : Yields HartWords Anything sfence
unfolding sfence
sfence-Yields =
    on_cpu-Yields (λ cpu. record cpu { tlb = Tlb.flush cpu.tlb })
      (λ c w. set_tlb-CpuWords c (Tlb.flush c.tlb) w)

privileged-Yields : (i : Instruction) (n : ℕ) → IsWord n → Yields HartWords IsWord (privileged i n)
unfolding privileged
privileged-Yields i n k =
    if-Yields HartWords IsWord ((i.funct7 == 0b0000000) && (i.rs2 == 0b00000)) _ _ ecall-Yields (
      if-Yields HartWords IsWord ((i.funct7 == 0b0001000) && (i.rs2 == 0b00010)) _ _ sret-Yields (
        if-Yields HartWords IsWord ((i.funct7 == 0b0001000) && (i.rs2 == 0b00101)) _ _
          (pure-Yields HartWords IsWord n k)
          (if-Yields HartWords IsWord (i.funct7 == 0b0001001) _ _
            (then-Yields HartWords IsWord _ _ sfence-Yields (pure-Yields HartWords IsWord n k))
            (if-Yields HartWords IsWord (i.funct7 == 0b0011000) _ _ mret-Yields
              (illegal-Yields IsWord)))))

-- A step with no result, and the next program counter.
followed-Yields :
    (m : M Hart (Unit {0})) (n : ℕ)
    → IsWord n
    → Yields HartWords Anything m
    → Yields HartWords IsWord (m >> pure n)
followed-Yields m n k y = then-Yields HartWords IsWord m _ y (pure-Yields HartWords IsWord n k)

execute_system-Yields :
    (i : Instruction) (n : ℕ)
    → InstructionWords i
    → IsWord n
    → Yields HartWords IsWord (execute_system i n)
unfolding execute_system
execute_system-Yields i n w k =
    if-Yields HartWords IsWord (i.funct3 == 0x1) _ _
      (followed-Yields _ n k (csr_register-Yields i replace_bits replace_bits-Updates))
      (if-Yields HartWords IsWord (i.funct3 == 0x2) _ _
        (followed-Yields _ n k (csr_register-Yields i set_bits set_bits-Updates))
        (if-Yields HartWords IsWord (i.funct3 == 0x3) _ _
          (followed-Yields _ n k (csr_register-Yields i clear_bits clear_bits-Updates))
          (if-Yields HartWords IsWord (i.funct3 == 0x5) _ _
            (followed-Yields _ n k
              (csr_access-Yields i replace_bits i.rs1 replace_bits-Updates w.rs1))
            (if-Yields HartWords IsWord (i.funct3 == 0x6) _ _
              (followed-Yields _ n k (csr_access-Yields i set_bits i.rs1 set_bits-Updates w.rs1))
              (if-Yields HartWords IsWord (i.funct3 == 0x7) _ _
                (followed-Yields _ n k
                  (csr_access-Yields i clear_bits i.rs1 clear_bits-Updates w.rs1))
                (if-Yields HartWords IsWord (i.funct3 == 0x0) _ _ (privileged-Yields i n k)
                  (illegal-Yields IsWord)))))))

dispatch-Yields :
    (i : Instruction) (pc n : ℕ)
    → InstructionWords i
    → IsWord n
    → Yields HartWords IsWord (dispatch i pc n)
unfolding dispatch
dispatch-Yields i pc n w k = if-Yields HartWords IsWord (i.opcode == 0x03) _ _ (load-Yields i n k) (
    if-Yields HartWords IsWord (i.opcode == 0x23) _ _ (store-Yields i n k) (
      if-Yields HartWords IsWord (i.opcode == 0x37) _ _ (to_rd-Yields i i.imm_u n w.imm_u k) (
        if-Yields HartWords IsWord (i.opcode == 0x17) _ _
          (to_rd-Yields i (add64 pc i.imm_u) n (add64-IsWord pc i.imm_u) k)
          (if-Yields HartWords IsWord (i.opcode == 0x6f) _ _
            (to_rd-Yields i n (add64 pc i.imm_j) k (add64-IsWord pc i.imm_j))
            (if-Yields HartWords IsWord (i.opcode == 0x67) _ _ (jalr-Yields i n k) (
              if-Yields HartWords IsWord (i.opcode == 0x63) _ _ (branch-Yields i pc n k) (
                if-Yields HartWords IsWord (i.opcode == 0x13) _ _ (alu_imm-Yields i n w k) (
                  if-Yields HartWords IsWord (i.opcode == 0x1b) _ _ (alu_imm_32-Yields i n k) (
                    if-Yields HartWords IsWord (i.opcode == 0x33) _ _ (alu-Yields i n k) (
                      if-Yields HartWords IsWord (i.opcode == 0x3b) _ _ (alu_32-Yields i n k) (
                        if-Yields HartWords IsWord (i.opcode == 0x0f) _ _
                          (pure-Yields HartWords IsWord n k)
                          (if-Yields HartWords IsWord (i.opcode == 0x73) _ _
                            (execute_system-Yields i n w k)
                            (if-Yields HartWords IsWord (i.opcode == 0x2f) _ _ (amo-Yields i n k)
                              (illegal-Yields IsWord))))))))))))))

pub execute-Yields : (i : Instruction) → InstructionWords i → Yields HartWords IsWord (execute i)
unfolding execute
execute-Yields i w = record {
  yields =
      λ h. (dispatch-Yields i h.cpu.pc (add64 h.cpu.pc 4) w (add64-IsWord h.cpu.pc 4)).yields h;
}
