-- ===== src/Bus/Words/Attach.antt =====
-- The words of the bus across what `Xv6Emulator::new_smp` of rv64rs/src/emulator.rs attaches to it.
use riscvm.Base.{ℕ, ◌<◌, arith, List, All, length, modify, M}
use riscvm.Base.{sub64, true, ◌>>=◌}
use riscvm.Base.Yields.{any-Holds}
use riscvm.Base.Yields.{Anything, Yields, modify-Yields, bind-Yields, then-Yields, pure-Yields}
use riscvm.Device.Ram.{Bytes, with_content, zeroed}
use riscvm.Device.VirtioBlk
use riscvm.Bus.Range.{Range}
use riscvm.Bus.Manager.{RangeManager, add_range}
use riscvm.Bus.State.{
  Bus, on_manager, reserve, set_ram, set_stack, set_bootloader, set_clint, set_uart, set_plic,
  set_virtio,
}
use riscvm.Bus.Words.{AreBytes, BusWords}
use riscvm.Emulator.{
  attach, bootloader_bytes, stack_begin, stack_size, clint_base, uart_base, virtio_disk_base,
  plic_base, bootloader_addr,
}
use riscvm.Bus.Words.Built.{with_content-AreBytes, zeroed-AreBytes}

on_manager-Yields : {A : Type 0} (m : M RangeManager A) → Yields BusWords Anything (on_manager m)
unfolding on_manager
on_manager-Yields m = record {
  yields = λ b w. (
    record {
      ram = w.ram;
      stack = w.stack;
      bootloader = w.bootloader;
      clint = w.clint;
      uart = w.uart;
      virtio = w.virtio;
      plic = w.plic;
    },
    any-Holds _,
  );
}

reserve-Yields : (start size : ℕ) → Yields BusWords Anything (reserve start size)
unfolding reserve
reserve-Yields start size =
    bind-Yields BusWords Anything Anything _ _
      (on_manager-Yields (add_range (record { start = start; size = size })))
      (λ i _. pure-Yields BusWords Anything (record { start = start; size = size }) tt)

-- A range that is reserved, and an update of the bus after that.
placed-Yields :
    (start size : ℕ) (f : Range → Bus → Bus)
    → ((range : Range) (b : Bus) → BusWords b → BusWords (f range b))
    → Yields BusWords Anything (reserve start size >>= λ range. modify (f range))
placed-Yields start size f k =
    bind-Yields BusWords Anything Anything _ _ (reserve-Yields start size)
      (λ range _. modify-Yields BusWords (f range) (k range))

-- The devices in their places.
module _ (start : ℕ) where
  set_ram-Yields : (bytes : Bytes) → AreBytes bytes → Yields BusWords Anything (set_ram bytes start)
  unfolding set_ram
  set_ram-Yields bytes k =
      placed-Yields start bytes.len (λ range b. record b { ram_range = range; ram = bytes })
        (λ range b w. record {
          ram = k;
          stack = w.stack;
          bootloader = w.bootloader;
          clint = w.clint;
          uart = w.uart;
          virtio = w.virtio;
          plic = w.plic;
        })

  set_stack-Yields :
      (bytes : Bytes) → AreBytes bytes → Yields BusWords Anything (set_stack bytes start)
  unfolding set_stack
  set_stack-Yields bytes k =
      placed-Yields start bytes.len (λ range b. record b { stack_range = range; stack = bytes })
        (λ range b w. record {
          ram = w.ram;
          stack = k;
          bootloader = w.bootloader;
          clint = w.clint;
          uart = w.uart;
          virtio = w.virtio;
          plic = w.plic;
        })

  set_bootloader-Yields :
      (bytes : Bytes) → AreBytes bytes → Yields BusWords Anything (set_bootloader bytes start)
  unfolding set_bootloader
  set_bootloader-Yields bytes k =
      placed-Yields start bytes.len
        (λ range b. record b { bootloader_range = range; bootloader = bytes })
        (λ range b w. record {
          ram = w.ram;
          stack = w.stack;
          bootloader = k;
          clint = w.clint;
          uart = w.uart;
          virtio = w.virtio;
          plic = w.plic;
        })

  set_clint-Yields : Yields BusWords Anything (set_clint start)
  unfolding set_clint
  set_clint-Yields = record {
    yields = λ b.
        (placed-Yields start (b.cells.clint.size)
            (λ range b. record b { clint_range = range; clint = true })
            (λ range b w. record {
              ram = w.ram;
              stack = w.stack;
              bootloader = w.bootloader;
              clint = w.clint;
              uart = w.uart;
              virtio = w.virtio;
              plic = w.plic;
            })).yields
          b;
  }

  set_uart-Yields : Yields BusWords Anything (set_uart start)
  unfolding set_uart
  set_uart-Yields = record {
    yields = λ b.
        (placed-Yields start (b.cells.uart.size)
            (λ range b. record b { uart_range = range; uart = true })
            (λ range b w. record {
              ram = w.ram;
              stack = w.stack;
              bootloader = w.bootloader;
              clint = w.clint;
              uart = w.uart;
              virtio = w.virtio;
              plic = w.plic;
            })).yields
          b;
  }

  set_plic-Yields : Yields BusWords Anything (set_plic start)
  unfolding set_plic
  set_plic-Yields = record {
    yields = λ b.
        (placed-Yields start (b.plic_cell.size)
            (λ range b. record b { plic_range = range; plic = true })
            (λ range b w. record {
              ram = w.ram;
              stack = w.stack;
              bootloader = w.bootloader;
              clint = w.clint;
              uart = w.uart;
              virtio = w.virtio;
              plic = w.plic;
            })).yields
          b;
  }

  set_virtio-Yields : Yields BusWords Anything (set_virtio start)
  unfolding set_virtio
  set_virtio-Yields = record {
    yields = λ b.
        (placed-Yields start (VirtioBlk.len b.cells.virtio)
            (λ range b. record b { virtio_range = range; virtio = true })
            (λ range b w. record {
              ram = w.ram;
              stack = w.stack;
              bootloader = w.bootloader;
              clint = w.clint;
              uart = w.uart;
              virtio = w.virtio;
              plic = w.plic;
            })).yields
          b;
  }

bootloader-lt : All (λ x. x < 256) bootloader_bytes
bootloader-lt = ground arith

pub attach-Yields :
    (program : List ℕ) (address : ℕ)
    → All (λ x. x < 256) program
    → Yields BusWords Anything (attach program address)
unfolding attach
attach-Yields program address k =
    then-Yields BusWords Anything _ _
      (set_ram-Yields address _
        (with_content-AreBytes (sub64 (stack_begin (length program) address) address) program k))
      (then-Yields BusWords Anything _ _
        (set_stack-Yields (stack_begin (length program) address) (zeroed stack_size)
          (zeroed-AreBytes stack_size))
        (then-Yields BusWords Anything _ _ (set_clint-Yields clint_base) (
          then-Yields BusWords Anything _ _ (set_uart-Yields uart_base) (
            then-Yields BusWords Anything _ _ (set_virtio-Yields virtio_disk_base) (
              then-Yields BusWords Anything _ _ (set_plic-Yields plic_base) (
                set_bootloader-Yields bootloader_addr
                  (with_content (length bootloader_bytes) bootloader_bytes)
                  (with_content-AreBytes (length bootloader_bytes) bootloader_bytes
                    bootloader-lt)))))))
