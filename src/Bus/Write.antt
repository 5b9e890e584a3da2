-- ===== src/Bus/Write.antt =====
-- `Bus::write` of rv64rs/src/bus.rs with the disk behind it: `virtio.borrow_mut()` borrows the cell
-- for the call, and gives it back on every way out.
use riscvm.Base.{ℕ, Bool, true, false, if◌then◌else◌, M, panic}
use riscvm.Bus.State.{Bus}
use riscvm.Bus.Access.{write_with}
use riscvm.Bus.Queue

abbrev pub set_borrowed : Bool → Bus → Bus
set_borrowed flag b = record b { cells = record (b.cells) { virtio_borrowed = flag } }

unfoldable pub borrowing : M Bus (Unit {0}) → M Bus (Unit {0})
borrowing m b =
    if b.cells.virtio_borrowed
    then (panic, b)
    else let (r, b') = m (set_borrowed true b) in (r, set_borrowed false b')

unfoldable pub write : ℕ → ℕ → ℕ → M Bus (Unit {0})
unfolding write_with borrowing
write = write_with (λ offset size value. borrowing (Queue.write offset size value))
