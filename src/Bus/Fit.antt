-- ===== src/Bus/Fit.antt =====
-- What no access to the bus of rv64rs/src/bus.rs changes: the memory map, the sizes of the memories,
-- the handles, the number of timer slots, the interrupt lines.
pub mod Access
pub mod Unseen
pub mod Queue
pub mod Write
use riscvm.Base.{ℕ, ◌≡◌, refl, sym, ap, ◌∙◌, arith, Bool, true, false, if◌then◌else◌, List, [], ◌∷◌}
use riscvm.Base.{
  ◌<◌, ◌^◌, All, length, length-set, M, Outcome, ok, err, panic, timeout, inl, inr, Bool-cases,
}
use riscvm.Base.Keeps.{Ending, returned, failed, panicked, ran_out, ending, Keeps, ToleratesErrors}
use riscvm.Base.Keeps.{if_state-Keeps, at_state-Keeps}
use riscvm.Device.Ram
use riscvm.Device.Ram.{Ram}
use riscvm.Device.Clint
use riscvm.Device.Uart
use riscvm.Device.Plic
use riscvm.Device.VirtioBlk
use riscvm.Bus.Range.{Range, contains}
use riscvm.Bus.State.{Bus, Cells, uart_line, virtio_line}
use riscvm.Bus.Access.{read, read_mmio, read_virtio, with_handle, write_with, write_mmio}

pub record Shape : Type 0 where
  pub memory_lens : ℕ × ℕ × ℕ
  pub memory_ranges : Range × Range × Range
  pub device_ranges : Range × Range × Range × Range
  pub handles : Bool × Bool × Bool × Bool
  pub timers : ℕ
  pub borrowed : Bool

abbrev pub shape : Bus → Shape
shape b = record {
  memory_lens = (b.ram.len, b.stack.len, b.bootloader.len);
  memory_ranges = (b.ram_range, b.stack_range, b.bootloader_range);
  device_ranges = (b.clint_range, b.uart_range, b.plic_range, b.virtio_range);
  handles = (b.clint, b.uart, b.plic, b.virtio);
  timers = length b.cells.clint.mtimecmp;
  borrowed = b.cells.virtio_borrowed;
}

-- The PLIC samples the lines of the serial port and of the disk.
abbrev pub lines : List (ℕ × (Cells → Outcome ℕ))
lines = (10, uart_line) ∷ (1, virtio_line) ∷ []

-- The queue indices that the disk remembers are 16 bits wide.
abbrev pub Indices : VirtioBlk.VirtioBlk → Type 0
Indices v = All (λ (entry : ℕ × ℕ). entry.1 < 2 ^ 16) v.last_avail_idx

pub record IsFit (s : Shape) (b : Bus) : Type 0 where
  pub same : shape b ≡ s
  pub wired : b.plic_cell.devices_by_irq ≡ lines
  pub indices : Indices b.cells.virtio

-- A call that does not end in the model's own way, by a loop that ran out of fuel.
abbrev pub stops : Ending → Bool
stops ran_out = false
stops _ = true

-- The call stops, and the bus is still fit.
abbrev pub Fit : Shape → Ending → Bus → Type 0
Fit s e b = (stops e ≡ true) × IsFit s b

pub Fit-errors : (s : Shape) → ToleratesErrors (Fit s)
Fit-errors s = record { tolerates = λ e b (_, f). (refl, f) }

pub ram_read-stops : (r : Ram) (a n : ℕ) → stops (ending (Ram.read r a n)) ≡ true
unfolding Ram.read
ram_read-stops r a n = ground arith

pub ram_write-stops : (r : Ram) (a n v : ℕ) → stops (ending (Ram.write a n v r).0) ≡ true
unfolding Ram.write
ram_write-stops r a n v = ground arith

pub ram_write-len : (r : Ram) (a n v : ℕ) → (Ram.write a n v r).1.len ≡ r.len
unfolding Ram.write
ram_write-len r a n v = ground arith

pub clint_read-stops : (a n : ℕ) (c : Clint.Clint) → stops (ending (Clint.read a n c).0) ≡ true
unfolding Clint.read
clint_read-stops a n c = ground arith

pub clint_write-stops :
    (a n v : ℕ) (c : Clint.Clint) → stops (ending (Clint.write a n v c).0) ≡ true
unfolding Clint.write
clint_write-stops a n v c = ground arith

pub clint_write-timers :
    (a n v : ℕ) (c : Clint.Clint) → length (Clint.write a n v c).1.mtimecmp ≡ length c.mtimecmp
unfolding Clint.write
clint_write-timers a n v c = ground (arith, length-set c.mtimecmp (Clint.slot a) v)

pub uart_read-stops : (a n : ℕ) (u : Uart.Uart) → stops (ending (Uart.read a n u).0) ≡ true
unfolding Uart.read
uart_read-stops a n u = ground arith

pub uart_write-stops : (a n v : ℕ) (u : Uart.Uart) → stops (ending (Uart.write a n v u).0) ≡ true
unfolding Uart.write
uart_write-stops a n v u = ground arith

pub plic_write-stops :
    (a n v : ℕ) (p : Plic.Plic Cells) → stops (ending (Plic.write a n v p).0) ≡ true
unfolding Plic.write
plic_write-stops a n v p = ground arith

pub plic_write-lines :
    (a n v : ℕ) (p : Plic.Plic Cells) → (Plic.write a n v p).1.devices_by_irq ≡ p.devices_by_irq
unfolding Plic.write
plic_write-lines a n v p = ground arith

pub virtio_read-stops :
    (a n : ℕ) (v : VirtioBlk.VirtioBlk) → stops (ending (VirtioBlk.read a n v)) ≡ true
unfolding VirtioBlk.read
virtio_read-stops a n v = ground arith

pub clint_read-timers :
    (a n : ℕ) (c : Clint.Clint) → length (Clint.read a n c).1.mtimecmp ≡ length c.mtimecmp
unfolding Clint.read
clint_read-timers a n c = ground arith

pub pending_mask-stops :
    (c : Cells) (p : Plic.Plic Cells)
    → p.devices_by_irq ≡ lines
    → stops (ending (Plic.pending_mask c p)) ≡ true
unfolding Plic.pending_mask Plic.gather uart_line virtio_line
pending_mask-stops c p e = rw e (ground arith)

pub plic_read-stops :
    (c : Cells) (a n : ℕ) (p : Plic.Plic Cells)
    → p.devices_by_irq ≡ lines
    → stops (ending (Plic.read c a n p)) ≡ true
unfolding Plic.read Plic.claim_irq
plic_read-stops c a n p e = ground (arith, pending_mask-stops c p e)
