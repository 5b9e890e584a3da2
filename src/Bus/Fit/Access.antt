-- ===== src/Bus/Fit/Access.antt =====
-- How reads and writes of rv64rs/src/bus.rs end over a fit bus, and the fitness of the bus after them.
use riscvm.Base.{ℕ, ◌≡◌, refl, ap, ◌∙◌, Bool, true, false, if◌then◌else◌, M, Outcome}
use riscvm.Base.{err, panic, unmapped}
use riscvm.Base.Keeps.{ending, Keeps}
use riscvm.Device.Ram
use riscvm.Device.Ram.{Ram}
use riscvm.Device.Clint
use riscvm.Device.Uart
use riscvm.Device.Plic
use riscvm.Bus.Range.{contains}
use riscvm.Bus.State.{Bus}
use riscvm.Bus.Access.{read, read_mmio, read_virtio, with_handle, write_with, write_mmio, offset}
use riscvm.Bus.Access.{on_ram, on_stack, on_bootloader, on_clint, on_uart, on_plic}
use riscvm.Bus.Fit.{Shape, shape, IsFit, Fit, stops, ram_read-stops, ram_write-stops, ram_write-len}
use riscvm.Bus.Fit.{clint_read-stops, clint_write-stops, clint_write-timers, clint_read-timers}
use riscvm.Bus.Fit.{uart_read-stops, uart_write-stops, plic_write-stops, plic_write-lines}
use riscvm.Bus.Fit.{plic_read-stops, virtio_read-stops}

-- The end of a call.
record EndsFit {A : Type 0} (s : Shape) (x : Outcome A × Bus) : Type 0 where
  fits : Fit s (ending x.0) x.1

module _ (s : Shape) where
  either_fits :
      {A : Type 0} (t : Bool) (x y : Outcome A × Bus)
      → EndsFit s x
      → EndsFit s y
      → EndsFit s (if t then x else y)
  either_fits true x y p q = p
  either_fits false x y p q = q

  error_fits : {A : Type 0} (b : Bus) → IsFit s b → EndsFit {A = A} s (err unmapped, b)
  error_fits b f = record { fits = (refl, f) }

  panic_fits : {A : Type 0} (b : Bus) → IsFit s b → EndsFit {A = A} s (panic, b)
  panic_fits b f = record { fits = (refl, f) }

  handle_fits :
      {A : Type 0} (flag : Bool) (m : M Bus A) (b : Bus)
      → IsFit s b
      → EndsFit s (m b)
      → EndsFit s (with_handle flag m b)
  handle_fits true m b f e = e
  handle_fits false m b f e = record { fits = (refl, f) }

  looked_fits :
      {A : Type 0} (r : Outcome A) (b : Bus)
      → stops (ending r) ≡ true
      → IsFit s b
      → EndsFit s (r, b)
  looked_fits r b e f = record { fits = (e, f) }

  clint_read_fits : (a n : ℕ) (b : Bus) → IsFit s b → EndsFit s (on_clint (Clint.read a n) b)
  clint_read_fits a n b f = record {
    fits = (
      clint_read-stops a n b.cells.clint,
      record {
        same =
            ap (λ (k : ℕ). record (shape b) { timers = k }) (clint_read-timers a n b.cells.clint)
            ∙ f.same;
        wired = f.wired;
        indices = f.indices;
      },
    );
  }

  uart_read_fits : (a n : ℕ) (b : Bus) → IsFit s b → EndsFit s (on_uart (Uart.read a n) b)
  uart_read_fits a n b f = record {
    fits = (
      uart_read-stops a n b.cells.uart,
      record { same = f.same; wired = f.wired; indices = f.indices },
    );
  }

  virtio_read_fits : (a n : ℕ) (b : Bus) → IsFit s b → EndsFit s (read_virtio a n b)
  unfolding read_virtio
  virtio_read_fits a n b f =
      either_fits b.cells.virtio_borrowed _ _ (panic_fits b f)
        (looked_fits _ b (virtio_read-stops _ n b.cells.virtio) f)

  read_mmio_fits : (a n : ℕ) (b : Bus) → IsFit s b → EndsFit s (read_mmio a n b)
  unfolding read_mmio
  read_mmio_fits a n b f = either_fits _ _ _ (looked_fits _ b (ram_read-stops b.bootloader _ n) f) (
      either_fits _ _ _ (handle_fits b.clint _ b f (clint_read_fits _ n b f)) (
        either_fits _ _ _ (handle_fits b.uart _ b f (uart_read_fits _ n b f)) (
          either_fits _ _ _
            (handle_fits b.plic _ b f
              (looked_fits _ b (plic_read-stops b.cells _ n b.plic_cell f.wired) f))
            (either_fits _ _ _ (handle_fits b.virtio _ b f (virtio_read_fits a n b f))
              (error_fits b f)))))

  pub read-Fit : (a n : ℕ) → Keeps (Fit s) (read a n)
  read-Fit a n = record { keeps = λ b (_, f). (all b f).fits }
    where
      all : (b : Bus) → IsFit s b → EndsFit s (read a n b)
      all b f =
          unfold read in
          either_fits _ _ _ (looked_fits _ b (ram_read-stops b.ram _ n) f) (
            either_fits _ _ _ (looked_fits _ b (ram_read-stops b.stack _ n) f)
              (read_mmio_fits a n b f))

  ram_write_fits : (a n v : ℕ) (b : Bus) → IsFit s b → EndsFit s (on_ram (Ram.write a n v) b)
  ram_write_fits a n v b f = record {
    fits = (
      ram_write-stops b.ram a n v,
      record {
        same =
            ap (λ (k : ℕ). record (shape b) { memory_lens = (k, b.stack.len, b.bootloader.len) })
              (ram_write-len b.ram a n v)
            ∙ f.same;
        wired = f.wired;
        indices = f.indices;
      },
    );
  }

  stack_write_fits : (a n v : ℕ) (b : Bus) → IsFit s b → EndsFit s (on_stack (Ram.write a n v) b)
  stack_write_fits a n v b f = record {
    fits = (
      ram_write-stops b.stack a n v,
      record {
        same =
            ap (λ (k : ℕ). record (shape b) { memory_lens = (b.ram.len, k, b.bootloader.len) })
              (ram_write-len b.stack a n v)
            ∙ f.same;
        wired = f.wired;
        indices = f.indices;
      },
    );
  }

  bootloader_write_fits :
      (a n v : ℕ) (b : Bus) → IsFit s b → EndsFit s (on_bootloader (Ram.write a n v) b)
  bootloader_write_fits a n v b f = record {
    fits = (
      ram_write-stops b.bootloader a n v,
      record {
        same =
            ap (λ (k : ℕ). record (shape b) { memory_lens = (b.ram.len, b.stack.len, k) })
              (ram_write-len b.bootloader a n v)
            ∙ f.same;
        wired = f.wired;
        indices = f.indices;
      },
    );
  }

  clint_write_fits : (a n v : ℕ) (b : Bus) → IsFit s b → EndsFit s (on_clint (Clint.write a n v) b)
  clint_write_fits a n v b f = record {
    fits = (
      clint_write-stops a n v b.cells.clint,
      record {
        same =
            ap (λ (k : ℕ). record (shape b) { timers = k }) (clint_write-timers a n v b.cells.clint)
            ∙ f.same;
        wired = f.wired;
        indices = f.indices;
      },
    );
  }

  uart_write_fits : (a n v : ℕ) (b : Bus) → IsFit s b → EndsFit s (on_uart (Uart.write a n v) b)
  uart_write_fits a n v b f = record {
    fits = (
      uart_write-stops a n v b.cells.uart,
      record { same = f.same; wired = f.wired; indices = f.indices },
    );
  }

  plic_write_fits : (a n v : ℕ) (b : Bus) → IsFit s b → EndsFit s (on_plic (Plic.write a n v) b)
  plic_write_fits a n v b f = record {
    fits = (
      plic_write-stops a n v b.plic_cell,
      record {
        same = f.same;
        wired = plic_write-lines a n v b.plic_cell ∙ f.wired;
        indices = f.indices;
      },
    );
  }

  -- Writes, with a handler for the disk that is well behaved.
  module _ (handler : ℕ → ℕ → ℕ → M Bus (Unit {0}))
      (handled : (o n v : ℕ) → Keeps (Fit s) (handler o n v)) where
    write_mmio_fits : (a n v : ℕ) (b : Bus) → IsFit s b → EndsFit s (write_mmio handler a n v b)
    unfolding write_mmio
    write_mmio_fits a n v b f = either_fits _ _ _ (bootloader_write_fits _ n v b f) (
        either_fits _ _ _ (handle_fits b.clint _ b f (clint_write_fits _ n v b f)) (
          either_fits _ _ _ (handle_fits b.uart _ b f (uart_write_fits _ n v b f)) (
            either_fits _ _ _ (handle_fits b.plic _ b f (plic_write_fits _ n v b f)) (
              either_fits _ _ _
                (handle_fits b.virtio _ b f (record { fits = (handled _ n v).keeps b (refl, f) }))
                (error_fits b f)))))

    write_fits : (a n v : ℕ) (b : Bus) → IsFit s b → EndsFit s (write_with handler a n v b)
    unfolding write_with
    write_fits a n v b f =
        either_fits (contains b.ram_range a n) _ _ (ram_write_fits (offset b.ram_range a) n v b f) (
          either_fits (contains b.stack_range a n) _ _
            (stack_write_fits (offset b.stack_range a) n v b f) (write_mmio_fits a n v b f))

    pub write_with-Fit : (a n v : ℕ) → Keeps (Fit s) (write_with handler a n v)
    write_with-Fit a n v = record { keeps = λ b (_, f). (write_fits a n v b f).fits }
