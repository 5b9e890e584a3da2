-- ===== src/Bus/State.antt =====
-- `Bus` of rv64rs/src/bus.rs. The CLINT, the UART, the PLIC and the disk live in reference-counted
-- cells that the bus and the harts share; `Cells` and `plic_cell` are those cells, and a handle is
-- a `Bool` that says whether its holder has one.
use riscvm.Base.{ℕ, Bool, true, false, M, Outcome, ok, ◌>>=◌, panic}
use riscvm.Base.{if◌then◌else◌, pure, modify}
use riscvm.Device.Ram.{Ram, zeroed}
use riscvm.Device.Clint.{Clint}
use riscvm.Device.Uart
use riscvm.Device.Uart.{Uart}
use riscvm.Device.Plic.{Plic}
use riscvm.Device.VirtioBlk
use riscvm.Device.VirtioBlk.{VirtioBlk}
use riscvm.Bus.Range.{Range, nothing}
use riscvm.Bus.Manager
use riscvm.Bus.Manager.{RangeManager}

-- `virtio_borrowed` holds while a `borrow_mut` of the disk's cell is alive.
pub record Cells : Type 0 where
  pub clint : Clint
  pub uart : Uart
  pub virtio : VirtioBlk
  pub virtio_borrowed : Bool

pub record Bus : Type 0 where
  pub range_manager : RangeManager
  pub ram : Ram
  pub ram_range : Range
  pub stack : Ram
  pub stack_range : Range
  pub bootloader : Ram
  pub bootloader_range : Range
  pub clint : Bool
  pub clint_range : Range
  pub uart : Bool
  pub uart_range : Range
  pub plic : Bool
  pub plic_range : Range
  pub virtio : Bool
  pub virtio_range : Range
  pub cells : Cells
  pub plic_cell : Plic Cells

-- The bus with no device on it, beside the cells that exist.
unfoldable pub new : Cells → Plic Cells → Bus
unfolding Manager.new zeroed
new cells plic_cell = record {
  range_manager = Manager.new;
  ram = zeroed 0;
  ram_range = nothing;
  stack = zeroed 0;
  stack_range = nothing;
  bootloader = zeroed 0;
  bootloader_range = nothing;
  clint = false;
  clint_range = nothing;
  uart = false;
  uart_range = nothing;
  plic = false;
  plic_range = nothing;
  virtio = false;
  virtio_range = nothing;
  cells = cells;
  plic_cell = plic_cell;
}

-- The lines that the emulator gives to the PLIC; the second borrows the disk's cell.
unfoldable pub uart_line : Cells → Outcome ℕ
unfolding Uart.interrupt_status
uart_line c = ok (Uart.interrupt_status c.uart)

unfoldable pub virtio_line : Cells → Outcome ℕ
virtio_line c = if c.virtio_borrowed then panic else ok c.virtio.interrupt_status

-- A call on the range manager.
unfoldable pub on_manager : {A : Type 0} → M RangeManager A → M Bus A
on_manager m b = let (r, manager) = m b.range_manager in (r, record b { range_manager = manager })

unfoldable pub reserve : ℕ → ℕ → M Bus Range
unfolding on_manager
reserve start size = do
  let range : Range = record { start = start; size = size }
  _ ← on_manager (Manager.add_range range)
  pure range

unfoldable pub set_ram : Ram → ℕ → M Bus (Unit {0})
unfolding reserve
set_ram ram start = do
  range ← reserve start ram.len
  modify (λ b. record b { ram_range = range; ram = ram })

unfoldable pub set_stack : Ram → ℕ → M Bus (Unit {0})
unfolding reserve
set_stack stack start = do
  range ← reserve start stack.len
  modify (λ b. record b { stack_range = range; stack = stack })

unfoldable pub set_bootloader : Ram → ℕ → M Bus (Unit {0})
unfolding reserve
set_bootloader bootloader start = do
  range ← reserve start bootloader.len
  modify (λ b. record b { bootloader_range = range; bootloader = bootloader })

unfoldable pub set_clint : ℕ → M Bus (Unit {0})
unfolding reserve
set_clint start b =
    (do
      range ← reserve start b.cells.clint.size
      modify (λ b. record b { clint_range = range; clint = true }))
      b

unfoldable pub set_uart : ℕ → M Bus (Unit {0})
unfolding reserve
set_uart start b =
    (do
      range ← reserve start b.cells.uart.size
      modify (λ b. record b { uart_range = range; uart = true }))
      b

unfoldable pub set_plic : ℕ → M Bus (Unit {0})
unfolding reserve
set_plic start b =
    (do
      range ← reserve start b.plic_cell.size
      modify (λ b. record b { plic_range = range; plic = true }))
      b

unfoldable pub set_virtio : ℕ → M Bus (Unit {0})
unfolding reserve
set_virtio start b =
    (do
      range ← reserve start (VirtioBlk.len b.cells.virtio)
      modify (λ b. record b { virtio_range = range; virtio = true }))
      b
