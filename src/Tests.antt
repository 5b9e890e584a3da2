-- ===== src/Tests.antt =====
-- Runs of the harts and the machines at concrete inputs.
pub mod Parts
pub mod Commands
pub mod Devices
use riscvm.Base.{ℕ, ◌-◌, ◌+◌, ◌*◌, ◌%◌, ◌^◌, ◌≤◌, ◌<◌, ◌≡◌, refl, ◌⊎◌, arith, inl, inr}
use riscvm.Base.{if◌then◌else◌, ◌==◌, bit_and, shr, widen, List, [], ◌∷◌, ◌++◌}
use riscvm.Base.{get_or, All, none, Outcome, ok, err, panic, timeout}
use riscvm.Base.{replicate}
use riscvm.Base.Keeps.{ending, returned}
use riscvm.Bus.Fit.{Shape, shape, IsFit, stops}
use riscvm.Cpu.Step.Interrupts.{check_interrupt_lem}
use riscvm.Cpu.Trap.{check_interrupt}
use riscvm.Emulator.{round}
use riscvm.Base.{true}
use riscvm.Cpu.Rvc as Rvc
use riscvm.Cpu.Execute as Execute
use riscvm.Cpu.Rvc.Fields.{CInstruction}
use riscvm.Asm.{encode_i, encode_s, encode_b, encode_j}
use riscvm.Decode as Decode
use riscvm.Decode.RoundTrip.{decode-encode_i, decode-encode_s}
use riscvm.Decode.Jumps.{decode-encode_b, decode-encode_j}
use riscvm.Device.Ram as Ram
use riscvm.Device.Ram.{Ram}
use riscvm.Device.Ram.Laws.{read-write}
use riscvm.Device.Plic as Plic
use riscvm.Device.Plic.Claim.{best_lem, IsBest, NoneAbove, prio_of, is_candidate}
use riscvm.Device.Uart as Uart
use riscvm.Device.Uart.{Uart}
use riscvm.Device.Uart.Fifo.{receive, receive-front}
use riscvm.Bus.Range.{Range}
use riscvm.Bus.Manager
use riscvm.Bus.Manager.{RangeManager, get_range, add_range}
use riscvm.Bus.Manager.Lookup.{get_range_lem, add_range-overlap}
use riscvm.Bus.State as Bus
use riscvm.Bus.State.{Bus}
use riscvm.Bus.Access as Access
use riscvm.Bus.Access.Effects.{read_8-keeps}
use riscvm.Cpu.State as CpuState
use riscvm.Cpu.State.{Cpu, Hart, get, insert, satp, mstatus, sstatus}
use riscvm.Cpu.Tlb as Tlb
use riscvm.Cpu.Tlb.Laws.{lookup-insert, lookup-new}
use riscvm.Cpu.Mmu.{read_access, translate}
use riscvm.Cpu.Mmu.Spec.{translate_spec, IsCoherent}
use riscvm.Cpu.Mmu.Refine.{Refines, translate-Refines}
use riscvm.Cpu.Trap.{csr_read, csr_write, sstatus_mask}
use riscvm.Cpu.Trap as Trap
use riscvm.Cpu.Trap.Laws.{csr_read-csr_write, translate-csr_write, ViewWritten}
use riscvm.Cpu.Step.{step}
use riscvm.Cpu.Step.Sound.{IsSoundCpu}
use riscvm.Cpu.Step.Invariant.{step-IsSound}
use riscvm.Emulator.Keeps.{Harts}
use riscvm.Emulator.Ends.{round-run-stops}
use riscvm.Emulator as Emulator
use riscvm.Emulator.{Emulator, new_smp, run}
use riscvm.Emulator.Invariant.{run-new_smp}

-- A page table whose third entry maps the gigabyte at 0x8000_0000 to itself.
abbrev table_bytes : List ℕ
table_bytes = replicate 16 0 ++ (0x0f ∷ 0 ∷ 0 ∷ 0x20 ∷ 0 ∷ 0 ∷ 0 ∷ 0 ∷ [])

abbrev empty_bus : Bus
empty_bus = Bus.new (Emulator.cells 1 none none none) Emulator.plic

abbrev table_bus : Bus
table_bus = (Bus.set_ram (Ram.with_content 0x1000 table_bytes) 0x8000_0000 empty_bus).1

abbrev table_satp : ℕ
table_satp = 8 * 2 ^ 60 + 0x80000

-- A hart in S-mode with that table and an empty TLB.
abbrev paged_hart : Hart
paged_hart = record {
  cpu = record (CpuState.new 0) { mode = 1; csrs = insert (CpuState.new 0).csrs satp table_satp };
  bus = table_bus;
}

paged_hart-translates : (translate 0x8000_0123 read_access paged_hart).0 ≡ ok 0x8000_0123
unfolding translate CpuState.new Bus.new Bus.set_ram insert get Ram.with_content Tlb.lookup
    CpuState.on_bus Access.read riscvm.Bus.Range.contains add_range
    riscvm.Bus.Manager.partition_point Ram.read Ram.from_le_bytes
paged_hart-translates = refl

paged_hart-IsCoherent : IsCoherent (get paged_hart.cpu.csrs satp) paged_hart.bus paged_hart.cpu.tlb
unfolding CpuState.new
paged_hart-IsCoherent va ppn perm hit = absurd (cc (lookup-new (shr 64 va 12), hit))

translate-Refines_example :
    Refines 0x8000_0123 read_access paged_hart (translate 0x8000_0123 read_access paged_hart)
translate-Refines_example =
    translate-Refines 0x8000_0123 read_access paged_hart paged_hart-IsCoherent

translate-csr_write_example :
    (translate 0x8000_0123 read_access
      (record paged_hart { cpu = csr_write satp table_satp paged_hart.cpu })).0
    ≡ translate_spec 0x8000_0123 read_access
        (record paged_hart { cpu = csr_write satp table_satp paged_hart.cpu })
translate-csr_write_example = translate-csr_write 0x8000_0123 read_access table_satp paged_hart

-- `addi x10, x0, 42` and a jump to itself.
abbrev pub small_program : List ℕ
small_program = 0x13 ∷ 0x05 ∷ 0xa0 ∷ 0x02 ∷ 0x6f ∷ 0 ∷ 0 ∷ 0 ∷ []

-- The value of a call that succeeds.
abbrev value_or : {A : Type 0} → A → Outcome A → A
value_or d (ok a) = a
value_or d (err e) = d
value_or d panic = d
value_or d timeout = d

abbrev pub two_harts : Emulator
two_harts =
    value_or (record { bus = empty_bus; cpus = [] })
      (new_smp small_program 0x8000_0000 none none none 2)

pub two_harts_lem : new_smp small_program 0x8000_0000 none none none 2 ≡ ok two_harts
unfolding new_smp Bus.set_ram add_range Ram.with_content riscvm.Bus.Manager.partition_point
    Bus.set_stack Bus.set_clint Bus.set_uart Bus.set_virtio Bus.set_plic Bus.set_bootloader
two_harts_lem = refl

run-new_smp_example : Harts IsSoundCpu 0 (run 3 two_harts).1.cpus
run-new_smp_example =
    run-new_smp small_program 0x8000_0000 none none none 2 two_harts 3 two_harts_lem

new_hart-IsSound : IsSoundCpu 0 (CpuState.new 0)
unfolding CpuState.new get insert
new_hart-IsSound = record { x0 = refl; hart = refl; numbered = refl; two_bits = omega arith }

step-IsSound_example : IsSoundCpu 0 (step (record { cpu = CpuState.new 0; bus = table_bus })).1.cpu
step-IsSound_example =
    step-IsSound 0 (record { cpu = CpuState.new 0; bus = table_bus }) new_hart-IsSound

read_8-keeps_example : (Access.read 0x8000_0010 8 table_bus).1 ≡ table_bus
read_8-keeps_example = read_8-keeps 0x8000_0010 table_bus

round-run-stops_example :
    let later = (run 5 two_harts).1 in
    (stops (ending (round later.cpus later.bus).0) ≡ true) × (shape later.bus ≡ shape two_harts.bus)
round-run-stops_example =
    round-run-stops small_program 0x8000_0000 none none none 2 two_harts 5 two_harts_lem

table_bus-IsFit : IsFit (shape table_bus) table_bus
unfolding Bus.set_ram Bus.new add_range riscvm.Bus.Manager.partition_point Ram.with_content
    Emulator.plic Emulator.cells
table_bus-IsFit = record { same = refl; wired = refl; indices = tt }

check_interrupt_lem_example :
    (ending (check_interrupt paged_hart).0 ≡ returned)
    × ((check_interrupt paged_hart).1.bus ≡ paged_hart.bus)
unfolding Bus.set_ram Bus.new add_range riscvm.Bus.Manager.partition_point CpuState.new
    Ram.with_content Emulator.cells
check_interrupt_lem_example =
    check_interrupt_lem (shape table_bus) paged_hart table_bus-IsFit refl (omega arith)

-- `c.addi x10, 3`
abbrev c_addi : CInstruction
c_addi = 0x050d

-- `c.jr x10`
abbrev c_jr : CInstruction
c_jr = 0x8502
