-- ===== src/Bus/Access.antt =====
-- `Bus::read` and `Bus::write` of rv64rs/src/bus.rs. A write may reach the disk, whose queue
-- writes to the bus again: the disk's handler is a parameter here, and `riscvm.Bus.Write` closes
-- the circle.
pub mod Effects
use riscvm.Base.{ℕ, ◌+◌, ◌-◌, ◌^◌, Bool, true, false, if◌then◌else◌, M, Outcome, ok, err, panic}
use riscvm.Base.{fail, unmapped}
use riscvm.Device.Ram
use riscvm.Device.Ram.{Ram}
use riscvm.Device.Clint
use riscvm.Device.Clint.{Clint}
use riscvm.Device.Uart
use riscvm.Device.Uart.{Uart}
use riscvm.Device.Plic
use riscvm.Device.Plic.{Plic}
use riscvm.Device.VirtioBlk
use riscvm.Bus.Range.{Range, contains}
use riscvm.Bus.State.{Bus, Cells}

-- Calls on the parts of the bus.
abbrev pub on_ram : {A : Type 0} → M Ram A → M Bus A
on_ram m b = let (r, ram) = m b.ram in (r, record b { ram = ram })

abbrev pub on_stack : {A : Type 0} → M Ram A → M Bus A
on_stack m b = let (r, stack) = m b.stack in (r, record b { stack = stack })

abbrev pub on_bootloader : {A : Type 0} → M Ram A → M Bus A
on_bootloader m b = let (r, ram) = m b.bootloader in (r, record b { bootloader = ram })

abbrev pub on_clint : {A : Type 0} → M Clint A → M Bus A
on_clint m b =
    let (r, clint) = m b.cells.clint in (r, record b { cells = record (b.cells) { clint = clint } })

abbrev pub on_uart : {A : Type 0} → M Uart A → M Bus A
on_uart m b =
    let (r, uart) = m b.cells.uart in (r, record b { cells = record (b.cells) { uart = uart } })

abbrev pub on_plic : {A : Type 0} → M (Plic Cells) A → M Bus A
on_plic m b = let (r, plic) = m b.plic_cell in (r, record b { plic_cell = plic })

-- `self.clint.as_ref().unwrap()`: no handle, no access.
abbrev pub with_handle : {A : Type 0} → Bool → M Bus A → M Bus A
with_handle true m b = m b
with_handle false m b = (panic, b)

abbrev pub offset : Range → ℕ → ℕ
offset r address = address - r.start

unfoldable pub read_virtio : ℕ → ℕ → M Bus ℕ
read_virtio address size b =
    if b.cells.virtio_borrowed
    then (panic, b)
    else (VirtioBlk.read (offset b.virtio_range address) size b.cells.virtio, b)

unfoldable pub read_mmio : ℕ → ℕ → M Bus ℕ
unfolding read_virtio
read_mmio address size b =
    if contains b.bootloader_range address size
    then (Ram.read b.bootloader (offset b.bootloader_range address) size, b)
    else if contains b.clint_range address size
    then with_handle b.clint (on_clint (Clint.read (offset b.clint_range address) size)) b
    else if contains b.uart_range address size
    then with_handle b.uart (on_uart (Uart.read (offset b.uart_range address) size)) b
    else if contains b.plic_range address size
    then with_handle b.plic
        (λ b. (Plic.read b.cells (offset b.plic_range address) size b.plic_cell, b)) b
    else if contains b.virtio_range address size
    then with_handle b.virtio (read_virtio address size) b
    else (err unmapped, b)

unfoldable pub read : ℕ → ℕ → M Bus ℕ
unfolding read_mmio
read address size b =
    if contains b.ram_range address size
    then (Ram.read b.ram (offset b.ram_range address) size, b)
    else if contains b.stack_range address size
    then (Ram.read b.stack (offset b.stack_range address) size, b)
    else read_mmio address size b

-- `virtio_write offset size value` is what the disk's handle does with a write.
module _ (virtio_write : ℕ → ℕ → ℕ → M Bus (Unit {0})) where
  unfoldable pub write_mmio : ℕ → ℕ → ℕ → M Bus (Unit {0})
  write_mmio address size value b =
      if contains b.bootloader_range address size
      then on_bootloader (Ram.write (offset b.bootloader_range address) size value) b
      else if contains b.clint_range address size
      then with_handle b.clint (on_clint (Clint.write (offset b.clint_range address) size value)) b
      else if contains b.uart_range address size
      then with_handle b.uart (on_uart (Uart.write (offset b.uart_range address) size value)) b
      else if contains b.plic_range address size
      then with_handle b.plic (on_plic (Plic.write (offset b.plic_range address) size value)) b
      else if contains b.virtio_range address size
      then with_handle b.virtio (virtio_write (offset b.virtio_range address) size value) b
      else (err unmapped, b)

  unfoldable pub write_with : ℕ → ℕ → ℕ → M Bus (Unit {0})
  unfolding write_mmio
  write_with address size value b =
      if contains b.ram_range address size
      then on_ram (Ram.write (offset b.ram_range address) size value) b
      else if contains b.stack_range address size
      then on_stack (Ram.write (offset b.stack_range address) size value) b
      else write_mmio address size value b
