-- ===== src/Cpu/Keeps/Execute.antt =====
-- Predicates that the primitive steps keep, across the instructions of rv64rs/src/execute.rs.
use riscvm.Base.{ℕ, ◌<◌, Error, fail, Option, none, some, add64}
use riscvm.Decode.{Instruction}
use riscvm.Cpu.State.{Hart}
use riscvm.Base.Keeps.{Ending, Keeps, pure-Keeps, fail-Keeps, gets-Keeps, if-Keeps, bind-Keeps}
use riscvm.Base.Keeps.{then-Keeps}
use riscvm.Cpu.Keeps.{Primitives}
use riscvm.Cpu.Execute.{read, write, load, load_value, store, store_value, branch, legal, jalr}
use riscvm.Cpu.Execute.{alu_imm, alu_imm_32, alu, alu_32, amo, dispatch, execute, to_rd}
use riscvm.Cpu.Execute.System.{csr_access, csr_register, privileged, execute_system}

ruleset blocks = (if-Keeps, bind-Keeps, then-Keeps, pure-Keeps, gets-Keeps)

module _ (P : Ending → Hart → Type 0) (p : Primitives P) where
  open p use {on_reg, on_set_reg, on_read, on_write, on_translate, on_csr}
  open p use {on_ecall, on_sret, on_mret, on_sfence}

  pub error-Keeps : {A : Type 0} (e : Error) → Keeps {A = A} P (fail e)
  error-Keeps e = fail-Keeps P p.on_error e

  pub read-Keeps : (address size : ℕ) → Keeps P (read address size)
  unfolding read
  read-Keeps address size = search (blocks, on_translate, on_read)

  pub write-Keeps : (address size value : ℕ) → Keeps P (write address size value)
  unfolding write
  write-Keeps address size value = search (blocks, on_translate, on_write)

  legal-Keeps : {A : Type 0} (o : Option A) → Keeps P (legal o)
  legal-Keeps none = error-Keeps _
  legal-Keeps (some x) = pure-Keeps P x

  load_value-Keeps : (i : Instruction) (addr : ℕ) → Keeps P (load_value i addr)
  unfolding load_value
  load_value-Keeps i addr = search (blocks, error-Keeps, read-Keeps) depth 12

  store_value-Keeps : (i : Instruction) (addr value : ℕ) → Keeps P (store_value i addr value)
  unfolding store_value
  store_value-Keeps i addr value = search (blocks, error-Keeps, write-Keeps) depth 12

  load-Keeps : (i : Instruction) (n : ℕ) → Keeps P (load i n)
  unfolding load
  load-Keeps i n = search (blocks, on_reg, on_set_reg, load_value-Keeps) depth 8

  store-Keeps : (i : Instruction) (n : ℕ) → Keeps P (store i n)
  unfolding store
  store-Keeps i n = search (blocks, on_reg, store_value-Keeps) depth 8

  branch-Keeps : (i : Instruction) (pc n : ℕ) → Keeps P (branch i pc n)
  unfolding branch
  branch-Keeps i pc n = search (blocks, on_reg, legal-Keeps) depth 8

  to_rd-Keeps : (i : Instruction) (out n : ℕ) → Keeps P (to_rd i out n)
  to_rd-Keeps i out n = search (blocks, on_set_reg)

  jalr-Keeps : (i : Instruction) (n : ℕ) → Keeps P (jalr i n)
  unfolding jalr
  jalr-Keeps i n = search (blocks, on_reg, on_set_reg) depth 8

  alu_imm-Keeps : (i : Instruction) (n : ℕ) → Keeps P (alu_imm i n)
  unfolding alu_imm
  alu_imm-Keeps i n = search (blocks, on_reg, legal-Keeps, to_rd-Keeps) depth 8

  alu_imm_32-Keeps : (i : Instruction) (n : ℕ) → Keeps P (alu_imm_32 i n)
  unfolding alu_imm_32
  alu_imm_32-Keeps i n = search (blocks, on_reg, legal-Keeps, to_rd-Keeps) depth 8

  alu-Keeps : (i : Instruction) (n : ℕ) → Keeps P (alu i n)
  unfolding alu
  alu-Keeps i n = search (blocks, on_reg, legal-Keeps, to_rd-Keeps) depth 8

  alu_32-Keeps : (i : Instruction) (n : ℕ) → Keeps P (alu_32 i n)
  unfolding alu_32
  alu_32-Keeps i n = search (blocks, on_reg, legal-Keeps, to_rd-Keeps) depth 8

  amo-Keeps : (i : Instruction) (n : ℕ) → Keeps P (amo i n)
  unfolding amo
  amo-Keeps i n = search (blocks, error-Keeps, on_reg, on_set_reg, read-Keeps, write-Keeps) depth 12

  csr_access-Keeps :
      (i : Instruction) (f : ℕ → ℕ → ℕ) (operand : ℕ)
      → i.csr < 4096
      → Keeps P (csr_access i f operand)
  unfolding csr_access
  csr_access-Keeps i f operand h =
      bind-Keeps P _ _ (gets-Keeps P _)
        (λ old. then-Keeps P _ _ (on_set_reg i.rd old) (on_csr i.csr (f old operand) h))

  csr_register-Keeps : (i : Instruction) (f : ℕ → ℕ → ℕ) → i.csr < 4096 → Keeps P (csr_register i f)
  unfolding csr_register
  csr_register-Keeps i f h =
      bind-Keeps P _ _ (on_reg i.rs1) (λ operand. csr_access-Keeps i f operand h)

  privileged-Keeps : (i : Instruction) (n : ℕ) → Keeps P (privileged i n)
  unfolding privileged
  privileged-Keeps i n = if-Keeps P _ _ _ on_ecall (
      if-Keeps P _ _ _ on_sret (
        if-Keeps P _ _ _ (pure-Keeps P n) (
          if-Keeps P _ _ _ (then-Keeps P _ _ on_sfence (pure-Keeps P n))
            (if-Keeps P _ _ _ on_mret (error-Keeps _)))))

  execute_system-Keeps : (i : Instruction) (n : ℕ) → i.csr < 4096 → Keeps P (execute_system i n)
  unfolding execute_system
  execute_system-Keeps i n h =
      search (blocks, error-Keeps, csr_register-Keeps, csr_access-Keeps, privileged-Keeps) depth 14

  dispatch-Keeps : (i : Instruction) (pc n : ℕ) → i.csr < 4096 → Keeps P (dispatch i pc n)
  unfolding dispatch
  dispatch-Keeps i pc n h =
      search
        (
          blocks, error-Keeps, load-Keeps, store-Keeps, to_rd-Keeps, jalr-Keeps, branch-Keeps,
          alu_imm-Keeps, alu_imm_32-Keeps, alu-Keeps, alu_32-Keeps, execute_system-Keeps, amo-Keeps,
        )
        depth 20

  pub execute-Keeps : (i : Instruction) → i.csr < 4096 → Keeps P (execute i)
  unfolding execute
  execute-Keeps i c = record {
    keeps = λ h x. (dispatch-Keeps i h.cpu.pc (add64 h.cpu.pc 4) c).keeps h x;
  }
