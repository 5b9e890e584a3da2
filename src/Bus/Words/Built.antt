-- ===== src/Bus/Words/Built.antt =====
-- The words of a new bus of rv64rs/src/bus.rs with the cells of a machine.
use riscvm.Base.{ℕ, zero, suc, ◌<◌, arith, List, All, Option, none, some, replicate}
use riscvm.Device.Ram.{Bytes, of_list, resize, with_content, zeroed}
use riscvm.Device.Clint
use riscvm.Device.Uart
use riscvm.Device.Plic
use riscvm.Device.VirtioBlk
use riscvm.Bus.State
use riscvm.Bus.State.{
  Bus, on_manager, reserve, set_ram, set_stack, set_bootloader, set_clint, set_uart, set_plic,
  set_virtio,
}
use riscvm.Bus.Words.{IsWord, AreBytes, AreWords, Feeds, BusWords}
use riscvm.Bus.Words.Transfer.{chunk-lt}
use riscvm.Emulator.{cells, plic}

replicate-AreWords : (n v : ℕ) → IsWord v → AreWords (replicate n v)
replicate-AreWords zero v l = tt
replicate-AreWords (suc n) v l = (l, replicate-AreWords n v l)

abbrev pub Image : Option Bytes → Type 0
Image none = Unit
Image (some image) = AreBytes image

initial_disk-AreBytes :
    (size : ℕ) (image : Option Bytes) → Image image → AreBytes (VirtioBlk.initial_disk size image)
unfolding VirtioBlk.initial_disk zeroed resize
initial_disk-AreBytes size none b i = omega arith
initial_disk-AreBytes size (some image) b i = ground (arith, b i)

pub with_content-AreBytes :
    (size : ℕ) (content : List ℕ)
    → All (λ x. x < 256) content
    → AreBytes (with_content size content)
unfolding with_content of_list resize
with_content-AreBytes size content b i = ground (arith, chunk-lt content i b)

pub zeroed-AreBytes : (n : ℕ) → AreBytes (zeroed n)
unfolding zeroed
zeroed-AreBytes n i = omega arith

pub new-BusWords :
    (nhart : ℕ) (output : Option (List ℕ)) (input : Option (List (List ℕ))) (image : Option Bytes)
    → Feeds input
    → Image image
    → BusWords (State.new (cells nhart output input image) plic)
unfolding State.new cells plic Clint.new Uart.new VirtioBlk.new Plic.new Plic.register_irq zeroed
new-BusWords nhart output input image f b = record {
  ram = λ i. omega arith;
  stack = λ i. omega arith;
  bootloader = λ i. omega arith;
  clint = record { mtime = omega arith; mtimecmp = replicate-AreWords nhart _ (omega arith) };
  uart = record {
    divisor_low = omega arith;
    divisor_high = omega arith;
    nbits = omega arith;
    received = tt;
    source = f;
  };
  virtio = record {
    disk = initial_disk-AreBytes _ image b;
    features = omega arith;
    ready = omega arith;
    interrupt = omega arith;
    status = omega arith;
  };
  plic = record {
    priorities = replicate-AreWords Plic.max_irq 0 (omega arith);
    enables = replicate-AreWords Plic.max_contexts 0 (omega arith);
    thresholds = replicate-AreWords Plic.max_contexts 0 (omega arith);
  };
}
