-- ===== src/Cpu/Words.antt =====
-- The registers, the CSRs and the program counter of rv64rs/src/cpu.rs hold words, over a bus that
-- holds words.
pub mod Values
pub mod Trap
pub mod Access
pub mod Interrupt
pub mod Execute
pub mod System
pub mod Rvc
pub mod Step
use riscvm.Base.{ℕ, ◌<◌, ◌^◌, ◌≡◌, arith, ok, M}
use riscvm.Base.Yields.{Anything, Yields, modify-Yields}
use riscvm.Bus.State.{Bus}
use riscvm.Bus.Words.{IsWord, BusWords}
use riscvm.Cpu.State.{Table, Cpu, Hart, insert, write_reg, reg, set_reg, on_cpu, on_bus}
use riscvm.Cpu.Tlb.{Tlb}

abbrev pub TableWords : Table → Type 0
TableWords t = (i : ℕ) → IsWord (t i)

pub record CpuWords (c : Cpu) : Type 0 where
  pub regs : TableWords c.regs
  pub csrs : TableWords c.csrs
  pub pc : IsWord c.pc
  pub mode : c.mode < 2 ^ 8

pub record HartWords (h : Hart) : Type 0 where
  pub cpu : CpuWords h.cpu
  pub bus : BusWords h.bus

pub insert-TableWords :
    (t : Table) (addr v : ℕ) → TableWords t → IsWord v → TableWords (insert t addr v)
unfolding insert
insert-TableWords t addr v k l i = ground (arith, k i)

write_reg-TableWords :
    (t : Table) (index v : ℕ) → TableWords t → IsWord v → TableWords (write_reg t index v)
unfolding write_reg
write_reg-TableWords t index v k l i = ground (arith, k i)

pub reg-Yields : (i : ℕ) → Yields HartWords IsWord (reg i)
unfolding reg
reg-Yields i = record { yields = λ h w. (w, w.cpu.regs i) }

pub set_reg-Yields : (i v : ℕ) → IsWord v → Yields HartWords Anything (set_reg i v)
unfolding set_reg
set_reg-Yields i v l = record {
  yields = λ h w. (
    record {
      cpu = record {
        regs = write_reg-TableWords h.cpu.regs i v w.cpu.regs l;
        csrs = w.cpu.csrs;
        pc = w.cpu.pc;
        mode = w.cpu.mode;
      };
      bus = w.bus;
    },
    tt,
  );
}

pub on_cpu-Yields :
    (f : Cpu → Cpu)
    → ((c : Cpu) → CpuWords c → CpuWords (f c))
    → Yields HartWords Anything (on_cpu f)
unfolding on_cpu
on_cpu-Yields f k = record { yields = λ h w. (record { cpu = k h.cpu w.cpu; bus = w.bus }, tt) }

pub on_bus-Yields :
    {A : Type 0} (Q : A → Type 0) (m : M Bus A)
    → Yields BusWords Q m
    → Yields HartWords Q (on_bus m)
unfolding on_bus
on_bus-Yields Q m k = record {
  yields = λ h w. let (b, q) = k.yields h.bus w.bus in (record { cpu = w.cpu; bus = b }, q);
}

-- A change of the TLB alone.
pub set_tlb-CpuWords : (c : Cpu) (tlb : Tlb) → CpuWords c → CpuWords (record c { tlb = tlb })
set_tlb-CpuWords c tlb w = record { regs = w.regs; csrs = w.csrs; pc = w.pc; mode = w.mode }
