-- ===== src/Bus/Access/Effects.antt =====
-- Reads of rv64rs/src/bus.rs that change nothing.
use riscvm.Base.{ℕ, ◌≡◌, refl, arith, Bool, true, false, if◌then◌else◌, M, Outcome, ◌!=◌, ap}
use riscvm.Device.Clint
use riscvm.Device.Uart
use riscvm.Bus.State.{Bus}
use riscvm.Bus.Access.{read, read_mmio, read_virtio, with_handle, on_clint, on_uart}

clint_read-keeps : (address size : ℕ) (c : Clint.Clint) → (Clint.read address size c).1 ≡ c
unfolding Clint.read
clint_read-keeps address size c = ground arith

uart_read-keeps :
    (address size : ℕ) (u : Uart.Uart) → (size != 1) ≡ true → (Uart.read address size u).1 ≡ u
unfolding Uart.read
uart_read-keeps address size u h = ground arith

-- A call that ended in the state `s`.
record EndsIn {A S : Type 0} (s : S) (x : Outcome A × S) : Type 0 where
  ends : x.1 ≡ s

ends_if :
    {A S : Type 0} {s : S} (t : Bool) (x y : Outcome A × S)
    → EndsIn s x
    → EndsIn s y
    → EndsIn s (if t then x else y)
ends_if true x y p q = p
ends_if false x y p q = q

ends : {A S : Type 0} {s : S} {r : Outcome A} → EndsIn s (r, s)
ends = record { ends = refl }

clint_arm :
    (flag : Bool) (address : ℕ) (b : Bus)
    → EndsIn b (with_handle flag (on_clint (Clint.read address 8)) b)
clint_arm true address b = record {
  ends =
      ap (λ c. record b { cells = record (b.cells) { clint = c } })
        (clint_read-keeps address 8 b.cells.clint);
}
clint_arm false address b = ends

uart_arm :
    (flag : Bool) (address : ℕ) (b : Bus)
    → EndsIn b (with_handle flag (on_uart (Uart.read address 8)) b)
uart_arm true address b = record {
  ends =
      ap (λ u. record b { cells = record (b.cells) { uart = u } })
        (uart_read-keeps address 8 b.cells.uart refl);
}
uart_arm false address b = ends

ends_handle :
    {A : Type 0} (flag : Bool) (m : M Bus A) (b : Bus)
    → EndsIn b (m b)
    → EndsIn b (with_handle flag m b)
ends_handle true m b h = h
ends_handle false m b h = ends

ends_virtio : (address size : ℕ) (b : Bus) → EndsIn b (read_virtio address size b)
unfolding read_virtio
ends_virtio address size b = search (ends_if, ends)

ends_mmio : (address : ℕ) (b : Bus) → EndsIn b (read_mmio address 8 b)
unfolding read_mmio
ends_mmio address b = search (ends_if, ends, clint_arm, uart_arm, ends_handle, ends_virtio) depth 8

-- A read of 8 bytes from the bus, such as that of a page-table entry, changes no memory and no
-- device.
pub read_8-keeps : (address : ℕ) (b : Bus) → (read address 8 b).1 ≡ b
read_8-keeps address b = all.ends
  where
    all : EndsIn b (read address 8 b)
    all = unfold read in search (ends_if, ends, ends_mmio)
