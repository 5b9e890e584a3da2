-- ===== src/Cpu/Keeps.antt =====
-- The steps that the instructions of rv64rs/src are made of: what keeps a predicate in each of them
-- is kept by every instruction.
pub mod Execute
pub mod Rvc
pub mod Step
use riscvm.Base.{ℕ, ◌<◌}
use riscvm.Base.Keeps.{Ending, Keeps, ToleratesErrors}
use riscvm.Bus.Access
use riscvm.Bus.Write
use riscvm.Cpu.State.{Hart, reg, set_reg, on_bus, on_cpu}
use riscvm.Cpu.Mmu.{Access, translate}
use riscvm.Cpu.Trap.{csr_write}
use riscvm.Cpu.Execute.System.{ecall, sret, mret, sfence}

pub record Primitives (P : Ending → Hart → Type 0) : Type 0 where
  pub on_error : ToleratesErrors P
  pub on_reg : (i : ℕ) → Keeps P (reg i)
  pub on_set_reg : (i v : ℕ) → Keeps P (set_reg i v)
  pub on_read : (pa size : ℕ) → Keeps P (on_bus (Access.read pa size))
  pub on_write : (pa size value : ℕ) → Keeps P (on_bus (Write.write pa size value))
  pub on_translate : (va : ℕ) (access : Access) → Keeps P (translate va access)
  pub on_csr : (addr value : ℕ) → addr < 4096 → Keeps P (on_cpu (csr_write addr value))
  pub on_ecall : Keeps P ecall
  pub on_sret : Keeps P sret
  pub on_mret : Keeps P mret
  pub on_sfence : Keeps P sfence
