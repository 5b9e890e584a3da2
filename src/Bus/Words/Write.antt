-- ===== src/Bus/Words/Write.antt =====
-- The words and bytes of the bus of rv64rs/src/bus.rs across a write, with the requests of the disk
-- that it starts.
use riscvm.Base.{ℕ, if◌then◌else◌}
use riscvm.Base.{M, panic, Bool, true, false, Outcome}
use riscvm.Base.Yields.{Holds, Anything, Yields}
use riscvm.Bus.State.{Bus}
use riscvm.Bus.Write.{write, borrowing, set_borrowed}
use riscvm.Bus.Words.{IsWord, BusWords}
use riscvm.Bus.Words.Access.{write_with-Yields}
use riscvm.Bus.Words.Queue.{queue_write-Yields}

borrowing-Yields :
    (m : M Bus (Unit {0})) → Yields BusWords Anything m → Yields BusWords Anything (borrowing m)
unfolding borrowing
borrowing-Yields m k = record {
  yields = λ b w. either b.cells.virtio_borrowed (panic, b) _ (w, tt) (lent b w);
}
  where
    either :
        (t : Bool) (x y : Outcome (Unit {0}) × Bus)
        → BusWords x.1 × Holds Anything x.0
        → BusWords y.1 × Holds Anything y.0
        → BusWords (if t then x else y).1 × Holds Anything (if t then x else y).0
    either true x y p q = p
    either false x y p q = q

    same : (flag : Bool) (b : Bus) → BusWords b → BusWords (set_borrowed flag b)
    same flag b w = record {
      ram = w.ram;
      stack = w.stack;
      bootloader = w.bootloader;
      clint = w.clint;
      uart = w.uart;
      virtio = w.virtio;
      plic = w.plic;
    }

    lent :
        (b : Bus)
        → BusWords b
        → BusWords (set_borrowed false (m (set_borrowed true b)).1)
          × Holds Anything (m (set_borrowed true b)).0
    lent b w =
        let (w', h) = k.yields (set_borrowed true b) (same true b w) in
        (same false (m (set_borrowed true b)).1 w', h)

pub write-Yields : (a n v : ℕ) → IsWord v → Yields BusWords Anything (write a n v)
unfolding write
write-Yields = write_with-Yields _ (λ o n v l. borrowing-Yields _ (queue_write-Yields o n v))
