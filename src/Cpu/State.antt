-- ===== src/Cpu/State.antt =====
-- `Registers` (rv64rs/src/register.rs), `Csrs` (csr.rs) and `Cpu` (cpu.rs). A register's index is a
-- field of five bits at most, so it is in range; a CSR's index is masked to twelve. The countdown
-- is compared with 0 only, so it is a number. `Hart` is what `&mut self` and `&mut bus` reach.
use riscvm.Base.{ℕ, Bool, false, if◌then◌else◌, ◌==◌, ◌!=◌, bit_and, M, ok}
use riscvm.Bus.State.{Bus}
use riscvm.Cpu.Tlb
use riscvm.Cpu.Tlb.{Tlb}

abbrev pub priv_u : ℕ
priv_u = 0

abbrev pub priv_s : ℕ
priv_s = 1

abbrev pub priv_m : ℕ
priv_m = 3

abbrev pub sstatus : ℕ
sstatus = 0x100

abbrev pub sie : ℕ
sie = 0x104

abbrev pub stvec : ℕ
stvec = 0x105

abbrev pub sepc : ℕ
sepc = 0x141

abbrev pub scause : ℕ
scause = 0x142

abbrev pub stval : ℕ
stval = 0x143

abbrev pub sip : ℕ
sip = 0x144

abbrev pub satp : ℕ
satp = 0x180

abbrev pub mstatus : ℕ
mstatus = 0x300

abbrev pub medeleg : ℕ
medeleg = 0x302

abbrev pub mideleg : ℕ
mideleg = 0x303

abbrev pub mie : ℕ
mie = 0x304

abbrev pub mtvec : ℕ
mtvec = 0x305

abbrev pub mepc : ℕ
mepc = 0x341

abbrev pub mcause : ℕ
mcause = 0x342

abbrev pub mtval : ℕ
mtval = 0x343

abbrev pub mip : ℕ
mip = 0x344

abbrev pub mhartid : ℕ
mhartid = 0xf14

-- A table of words by index.
abbrev pub Table : Type 0
Table = ℕ → ℕ

abbrev pub update : Table → ℕ → ℕ → Table
update t i v j = if i == j then v else t j

-- `Csrs`.
unfoldable pub get : Table → ℕ → ℕ
get csrs addr = csrs (bit_and addr 0xfff)

unfoldable pub insert : Table → ℕ → ℕ → Table
insert csrs addr value = update csrs (bit_and addr 0xfff) value

-- `Registers`: a write to x0 is ignored.
unfoldable pub read_reg : Table → ℕ → ℕ
read_reg regs index = regs index

unfoldable pub write_reg : Table → ℕ → ℕ → Table
write_reg regs index value = if index != 0 then update regs index value else regs

pub record Cpu : Type 0 where
  pub regs : Table
  pub pc : ℕ
  pub csrs : Table
  pub mode : ℕ
  pub hartid : ℕ
  pub clint : Bool
  pub uart : Bool
  pub plic : Bool
  pub tlb : Tlb
  pub uart_poll_countdown : ℕ

pub record Hart : Type 0 where
  pub cpu : Cpu
  pub bus : Bus

unfoldable pub new : ℕ → Cpu
unfolding Tlb.new insert
new hartid = record {
  regs = λ _. 0;
  pc = 0;
  csrs = insert (insert (insert (λ _. 0) mstatus 0xa00000000) mie 0x222) mhartid hartid;
  mode = priv_m;
  hartid = hartid;
  clint = false;
  uart = false;
  plic = false;
  tlb = Tlb.new;
  uart_poll_countdown = 0;
}

-- The parts of a hart as steps.
unfoldable pub reg : ℕ → M Hart ℕ
unfolding read_reg
reg i h = (ok (read_reg h.cpu.regs i), h)

unfoldable pub set_reg : ℕ → ℕ → M Hart (Unit {0})
unfolding write_reg
set_reg i v h = (ok tt, record h { cpu = record (h.cpu) { regs = write_reg h.cpu.regs i v } })

unfoldable pub on_cpu : (Cpu → Cpu) → M Hart (Unit {0})
on_cpu f h = (ok tt, record h { cpu = f h.cpu })

unfoldable pub on_bus : {A : Type 0} → M Bus A → M Hart A
on_bus m h = let (r, bus) = m h.bus in (r, record h { bus = bus })
