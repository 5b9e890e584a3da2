-- ===== src/Bus/Words/Access.antt =====
-- The words of the bus of rv64rs/src/bus.rs across its accesses.
use riscvm.Base.{ℕ, Bool, true, false, M, Outcome, err, panic, unmapped, if◌then◌else◌, sym}
use mathlib.Core.Path.{subst}
use riscvm.Base.Yields.{any-Holds}
use riscvm.Base.Yields.{Holds, Anything, Yields}
use riscvm.Device.Ram
use riscvm.Device.Clint
use riscvm.Device.Uart
use riscvm.Device.Plic
use riscvm.Bus.Range.{contains}
use riscvm.Bus.State.{Bus}
use riscvm.Bus.Access.{
  on_ram, on_stack, on_bootloader, on_clint, on_uart, on_plic, with_handle, offset,
}
use riscvm.Bus.Access.{read_virtio, read_mmio, read, write_mmio, write_with}
use riscvm.Bus.Words.{
  set_bootloader-BusWords, set_clint-BusWords, set_plic-BusWords, set_ram-BusWords,
  set_stack-BusWords, set_uart-BusWords,
}
use riscvm.Bus.Words.{IsWord, BusWords, ClintWords}
use riscvm.Bus.Words.Devices.{
  ram_read-IsWord, ram_write-AreBytes, clint_read-same, clint_read-IsWord,
}
use riscvm.Bus.Words.Devices.{
  clint_write-words, uart_read-IsWord, uart_read-words, uart_write-words,
}
use riscvm.Bus.Words.Devices.{plic_read-IsWord, plic_write-words, virtio_read-IsWord}

-- A call left words behind, and gave what `Q` says.
record Left {A : Type 0} (Q : A → Type 0) (x : Outcome A × Bus) : Type 0 where
  left : BusWords x.1 × Holds Q x.0

either-Left :
    {A : Type 0} (Q : A → Type 0) (t : Bool) (x y : Outcome A × Bus)
    → Left Q x
    → Left Q y
    → Left Q (if t then x else y)
either-Left Q true x y p q = p
either-Left Q false x y p q = q

handle-Left :
    {A : Type 0} (Q : A → Type 0) (flag : Bool) (m : M Bus A) (b : Bus)
    → BusWords b
    → Left Q (m b)
    → Left Q (with_handle flag m b)
handle-Left Q true m b w l = l
handle-Left Q false m b w l = record { left = (w, tt) }

looked-Left :
    {A : Type 0} (Q : A → Type 0) (r : Outcome A) (b : Bus) → BusWords b → Holds Q r → Left Q (r, b)
looked-Left Q r b w h = record { left = (w, h) }

error-Left : {A : Type 0} (Q : A → Type 0) (b : Bus) → BusWords b → Left {A = A} Q (err unmapped, b)
error-Left Q b w = record { left = (w, tt) }

clint_read-Left : (a n : ℕ) (b : Bus) → BusWords b → Left IsWord (on_clint (Clint.read a n) b)
clint_read-Left a n b w = record {
  left = (
    set_clint-BusWords b w _
        (subst (λ c. ClintWords c) (sym (clint_read-same a n b.cells.clint)) w.clint),
    clint_read-IsWord a n b.cells.clint w.clint,
  );
}

uart_read-Left : (a n : ℕ) (b : Bus) → BusWords b → Left IsWord (on_uart (Uart.read a n) b)
uart_read-Left a n b w = record {
  left = (
    set_uart-BusWords b w _ (uart_read-words a n b.cells.uart w.uart),
    uart_read-IsWord a n b.cells.uart w.uart,
  );
}

virtio_read-Left : (a n : ℕ) (b : Bus) → BusWords b → Left IsWord (read_virtio a n b)
unfolding read_virtio
virtio_read-Left a n b w =
    either-Left IsWord b.cells.virtio_borrowed _ _ (looked-Left IsWord panic b w tt)
      (looked-Left IsWord _ b w (virtio_read-IsWord _ n b.cells.virtio w.virtio))

read_mmio-Left : (a n : ℕ) (b : Bus) → BusWords b → Left IsWord (read_mmio a n b)
unfolding read_mmio
read_mmio-Left a n b w =
    either-Left IsWord _ _ _
      (looked-Left IsWord _ b w (ram_read-IsWord b.bootloader _ n w.bootloader))
      (either-Left IsWord _ _ _ (handle-Left IsWord b.clint _ b w (clint_read-Left _ n b w)) (
        either-Left IsWord _ _ _ (handle-Left IsWord b.uart _ b w (uart_read-Left _ n b w)) (
          either-Left IsWord _ _ _
            (handle-Left IsWord b.plic _ b w
              (looked-Left IsWord _ b w (plic_read-IsWord b.cells _ n b.plic_cell w.plic)))
            (either-Left IsWord _ _ _ (handle-Left IsWord b.virtio _ b w (virtio_read-Left a n b w))
              (error-Left IsWord b w)))))

pub read-Yields : (a n : ℕ) → Yields BusWords IsWord (read a n)
read-Yields a n = record { yields = λ b w. (all b w).left }
  where
    all : (b : Bus) → BusWords b → Left IsWord (read a n b)
    all b w =
        unfold read in
        either-Left IsWord _ _ _ (looked-Left IsWord _ b w (ram_read-IsWord b.ram _ n w.ram)) (
          either-Left IsWord _ _ _ (looked-Left IsWord _ b w (ram_read-IsWord b.stack _ n w.stack))
            (read_mmio-Left a n b w))

ram_write-Left : (a n v : ℕ) (b : Bus) → BusWords b → Left Anything (on_ram (Ram.write a n v) b)
ram_write-Left a n v b w = record {
  left = (set_ram-BusWords b w _ (ram_write-AreBytes a n v b.ram w.ram), any-Holds _);
}

stack_write-Left : (a n v : ℕ) (b : Bus) → BusWords b → Left Anything (on_stack (Ram.write a n v) b)
stack_write-Left a n v b w = record {
  left = (set_stack-BusWords b w _ (ram_write-AreBytes a n v b.stack w.stack), any-Holds _);
}

bootloader_write-Left :
    (a n v : ℕ) (b : Bus) → BusWords b → Left Anything (on_bootloader (Ram.write a n v) b)
bootloader_write-Left a n v b w = record {
  left = (
    set_bootloader-BusWords b w _ (ram_write-AreBytes a n v b.bootloader w.bootloader),
    any-Holds _,
  );
}

uart_write-Left : (a n v : ℕ) (b : Bus) → BusWords b → Left Anything (on_uart (Uart.write a n v) b)
uart_write-Left a n v b w = record {
  left = (set_uart-BusWords b w _ (uart_write-words a n v b.cells.uart w.uart), any-Holds _);
}

clint_write-Left :
    (a n v : ℕ) (b : Bus) → IsWord v → BusWords b → Left Anything (on_clint (Clint.write a n v) b)
clint_write-Left a n v b l w = record {
  left = (set_clint-BusWords b w _ (clint_write-words a n v b.cells.clint l w.clint), any-Holds _);
}

plic_write-Left : (a n v : ℕ) (b : Bus) → BusWords b → Left Anything (on_plic (Plic.write a n v) b)
plic_write-Left a n v b w = record {
  left = (set_plic-BusWords b w _ (plic_write-words a n v b.plic_cell w.plic), any-Holds _);
}

-- Writes of words, with a handler for the disk that keeps the words.
module _ (handler : ℕ → ℕ → ℕ → M Bus (Unit {0}))
    (handled : (o n v : ℕ) → IsWord v → Yields BusWords Anything (handler o n v)) where
  write_mmio-Left :
      (a n v : ℕ) (b : Bus) → IsWord v → BusWords b → Left Anything (write_mmio handler a n v b)
  unfolding write_mmio
  write_mmio-Left a n v b l w = either-Left Anything _ _ _ (bootloader_write-Left _ n v b w) (
      either-Left Anything _ _ _ (handle-Left Anything b.clint _ b w (clint_write-Left _ n v b l w))
        (either-Left Anything _ _ _ (handle-Left Anything b.uart _ b w (uart_write-Left _ n v b w))
          (either-Left Anything _ _ _
            (handle-Left Anything b.plic _ b w (plic_write-Left _ n v b w))
            (either-Left Anything _ _ _
              (handle-Left Anything b.virtio _ b w (record { left = (handled _ n v l).yields b w }))
              (error-Left Anything b w)))))

  write-Left :
      (a n v : ℕ) (b : Bus) → IsWord v → BusWords b → Left Anything (write_with handler a n v b)
  unfolding write_with
  write-Left a n v b l w =
      either-Left Anything (contains b.ram_range a n) _ _
        (ram_write-Left (offset b.ram_range a) n v b w)
        (either-Left Anything (contains b.stack_range a n) _ _
          (stack_write-Left (offset b.stack_range a) n v b w) (write_mmio-Left a n v b l w))

  pub write_with-Yields :
      (a n v : ℕ) → IsWord v → Yields BusWords Anything (write_with handler a n v)
  write_with-Yields a n v l = record { yields = λ b w. (write-Left a n v b l w).left }
