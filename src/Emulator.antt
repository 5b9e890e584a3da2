-- ===== src/Emulator.antt =====
-- rv64rs/src/emulator.rs: the two machines and their run loops. The loops end only by an error, so
-- they take the number of rounds to make. A hex string is the list of its bytes.
pub mod Keeps
pub mod Built
pub mod Invariant
pub mod Ends
pub mod Words
pub mod Hex
pub mod First
use riscvm.Base.{ℕ, zero, suc, ◌+◌, ◌-◌, ◌*◌, ◌/◌, ◌%◌, ◌^◌, Bool, true, false, if◌then◌else◌, ltb}
use riscvm.Base.{◌==◌, List, [], ◌∷◌, ◌++◌, length, Option, none, some, bit_and, inv, add64, sub64}
use riscvm.Base.{M, Outcome, ok, err, panic, timeout, pure, lift, ◌>>=◌, ◌>>◌, Error, no_cpu}
use riscvm.Base.{too_many_cpus}
use riscvm.Device.Ram
use riscvm.Device.Ram.{Bytes}
use riscvm.Device.Clint
use riscvm.Device.Uart
use riscvm.Device.Plic
use riscvm.Device.VirtioBlk
use riscvm.Bus.State
use riscvm.Bus.State.{Bus, Cells}
use riscvm.Cpu.State as CpuState
use riscvm.Cpu.State.{Cpu, Hart}
use riscvm.Cpu.Step.{step}

abbrev pub stack_size : ℕ
stack_size = 0x0800_0000

pub record Emulator : Type 0 where
  pub bus : Bus
  pub cpus : List Cpu

abbrev pub clint_base : ℕ
clint_base = 0x0200_0000

abbrev pub clint_size : ℕ
clint_size = 0x1_0000

abbrev pub uart_base : ℕ
uart_base = 0x1000_0000

abbrev pub uart_size : ℕ
uart_size = 0x100

abbrev pub uart0_irq : ℕ
uart0_irq = 10

abbrev pub virtio_disk_base : ℕ
virtio_disk_base = 0x1000_1000

abbrev pub virtio_disk_size_default : ℕ
virtio_disk_size_default = 8 * 1024 * 1024

abbrev pub virtio0_irq : ℕ
virtio0_irq = 1

abbrev pub plic_base : ℕ
plic_base = 0x0C00_0000

abbrev pub plic_size : ℕ
plic_size = 0x0FFF_FFFF - plic_base + 1

abbrev pub bootloader_addr : ℕ
bootloader_addr = 0x1000

-- `hex_decode(BOOTLOADER_HEX)`
abbrev pub bootloader_bytes : List ℕ
bootloader_bytes =
    0x97 ∷ 0x02 ∷ 0x00 ∷ 0x00 ∷ 0x13 ∷ 0x86 ∷ 0x82 ∷ 0x02 ∷ 0x73 ∷ 0x25 ∷ 0x40 ∷ 0xf1 ∷ 0x83 ∷ 0xb5
    ∷ 0x02 ∷ 0x02 ∷ 0x83 ∷ 0xb2 ∷ 0x82 ∷ 0x01 ∷ 0x67 ∷ 0x80 ∷ 0x02 ∷ 0x00 ∷ 0x00 ∷ 0x00 ∷ 0x00
    ∷ 0x80 ∷ 0x00 ∷ 0x00 ∷ 0x00 ∷ 0x00 ∷ 0x00 ∷ 0x00 ∷ 0x00 ∷ 0x87 ∷ 0x00 ∷ 0x00 ∷ 0x00 ∷ 0x00 ∷ []

-- `((len + 0xfff) & !0xfff) + address`
unfoldable pub stack_begin : ℕ → ℕ → ℕ
stack_begin len address = add64 (bit_and (add64 len 0xfff) (inv 64 0xfff)) address

-- The cells of a machine with `nhart` harts, before any of them is on the bus.
unfoldable pub cells : ℕ → Option (List ℕ) → Option (List (List ℕ)) → Option Bytes → Cells
unfolding Clint.new Uart.new VirtioBlk.new
cells nhart output input disk_image = record {
  clint = Clint.new clint_size nhart;
  uart = Uart.new uart_size output input;
  virtio = VirtioBlk.new virtio_disk_size_default disk_image;
  virtio_borrowed = false;
}

unfoldable pub plic : Plic.Plic Cells
unfolding Plic.new Plic.register_irq State.uart_line State.virtio_line
plic =
    Plic.register_irq virtio0_irq State.virtio_line
      (Plic.register_irq uart0_irq State.uart_line (Plic.new Cells plic_size))

-- What follows a call on the bus that is being built.
unfoldable pub with_bus : {A : Type 0} → (Bus → Outcome A) → Outcome (Unit {0}) × Bus → Outcome A
with_bus f (ok _, b) = f b
with_bus f (err e, b) = err e
with_bus f (panic, b) = panic
with_bus f (timeout, b) = timeout

-- `Emulator::new`: no devices.
unfoldable pub plain : List ℕ → ℕ → Outcome Emulator
unfolding stack_begin cells plic with_bus CpuState.new State.new
plain program address =
    let ram = Ram.with_content (length program) program in
    with_bus
      (λ bus. ok (record { bus = bus; cpus = record (CpuState.new 0) { pc = address } ∷ [] }))
      ((do
        State.set_ram ram address
        State.set_stack (Ram.zeroed stack_size) (stack_begin ram.len address))
        (State.new (cells 0 none none none) plic))

-- The harts from `hartid` on.
unfoldable pub harts : ℕ → ℕ → List Cpu
unfolding CpuState.new
harts zero hartid = []
harts (suc n) hartid =
    record (CpuState.new hartid) { clint = true; uart = true; plic = true; pc = bootloader_addr }
    ∷ harts n (hartid + 1)

unfoldable pub attach : List ℕ → ℕ → M Bus (Unit {0})
unfolding stack_begin
attach program address = do
  let begin = stack_begin (length program) address
  State.set_ram (Ram.with_content (sub64 begin address) program) address
  State.set_stack (Ram.zeroed stack_size) begin
  State.set_clint clint_base
  State.set_uart uart_base
  State.set_virtio virtio_disk_base
  State.set_plic plic_base
  State.set_bootloader (Ram.with_content (length bootloader_bytes) bootloader_bytes) bootloader_addr

-- `Xv6Emulator::new_smp`.
unfoldable pub new_smp :
    List ℕ → ℕ → Option (List ℕ) → Option (List (List ℕ)) → Option Bytes → ℕ → Outcome Emulator
unfolding attach cells plic harts with_bus State.new
new_smp program address uart_output uart_input disk_image ncpu =
    if ncpu == 0
    then err no_cpu
    else if ltb (Plic.max_contexts / 2) ncpu
    then err too_many_cpus
    else with_bus (λ bus. ok (record { bus = bus; cpus = harts ncpu 0 }))
        (attach program address (State.new (cells ncpu uart_output uart_input disk_image) plic))

-- `Xv6Emulator::new`: one hart.
unfoldable pub new :
    List ℕ → ℕ → Option (List ℕ) → Option (List (List ℕ)) → Option Bytes → Outcome Emulator
unfolding new_smp
new program address uart_output uart_input disk_image =
    new_smp program address uart_output uart_input disk_image 1

-- `Emulator::cpu`: the first hart, where there is one.
unfoldable pub first_cpu : Emulator → Outcome Cpu
first_cpu e = elim e.cpus [ [] ↦ panic | c ∷ cs ↦ ok c ]

-- `Emulator::run`: the first hart alone, for at most so many steps.
unfoldable pub run_first : ℕ → M Hart (Unit {0})
run_first zero h = (timeout, h)
run_first (suc steps) h =
    let (r, h') = step h in
    let rest = run_first steps h' in
    elim r [ ok _ ↦ rest | err e ↦ (err e, h') | panic ↦ (panic, h') | timeout ↦ (timeout, h') ]

-- One round: a step of each hart in turn, over the one bus.
unfoldable pub round : List Cpu → Bus → Outcome (Unit {0}) × List Cpu × Bus
round [] bus = (ok tt, [], bus)
round (cpu ∷ cpus) bus =
    let (r, h) = step (record { cpu = cpu; bus = bus }) in
    let later = round cpus h.bus in
    elim r [
      | ok _ ↦ (later.0, h.cpu ∷ later.1, later.2)
      | err e ↦ (err e, h.cpu ∷ cpus, h.bus)
      | panic ↦ (panic, h.cpu ∷ cpus, h.bus)
      | timeout ↦ (timeout, h.cpu ∷ cpus, h.bus)
    ]

-- `run`, for at most so many rounds: `timeout` is a run that goes on.
unfoldable pub run : ℕ → Emulator → Outcome (Unit {0}) × Emulator
unfolding round
run zero e = (timeout, e)
run (suc rounds) e =
    let (r, cpus, bus) = round e.cpus e.bus in
    let e' : Emulator = record { bus = bus; cpus = cpus } in
    let rest = run rounds e' in
    elim r [
      | ok _ ↦ rest
      | err error ↦ (err error, e')
      | panic ↦ (panic, e')
      | timeout ↦ (timeout, e')
    ]
