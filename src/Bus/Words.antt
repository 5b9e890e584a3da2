-- ===== src/Bus/Words.antt =====
-- The bus of rv64rs/src/bus.rs holds words and bytes only: what the numbers of the model stand for.
pub mod Devices
pub mod Access
pub mod Transfer
pub mod Queue
pub mod Write
pub mod Built
pub mod Attach
use riscvm.Base.{ℕ, ◌^◌, ◌<◌, List, [], ◌∷◌, Option, none, some, All}
use riscvm.Device.Ram.{Bytes}
use riscvm.Device.Clint.{Clint}
use riscvm.Device.Uart.{Uart}
use riscvm.Device.Plic.{Plic}
use riscvm.Device.VirtioBlk.{VirtioBlk}
use riscvm.Bus.State.{Bus, Cells}

abbrev pub IsWord : ℕ → Type 0
IsWord v = v < 2 ^ 64

abbrev pub AreBytes : Bytes → Type 0
AreBytes r = (i : ℕ) → r.at i < 256

abbrev pub AreWords : List ℕ → Type 0
AreWords xs = All IsWord xs

abbrev pub Feeds : Option (List (List ℕ)) → Type 0
Feeds none = Unit
Feeds (some later) = All AreWords later

pub record ClintWords (c : Clint) : Type 0 where
  pub mtime : IsWord c.mtime
  pub mtimecmp : AreWords c.mtimecmp

pub record UartWords (u : Uart) : Type 0 where
  pub divisor_low : IsWord u.dll_value
  pub divisor_high : IsWord u.dlm_value
  pub nbits : IsWord u.line_control_nbits
  pub received : AreWords u.rx_queue
  pub source : Feeds u.input

pub record PlicWords (p : Plic Cells) : Type 0 where
  pub priorities : AreWords p.priority
  pub enables : AreWords p.enable
  pub thresholds : AreWords p.threshold

pub record DiskWords (v : VirtioBlk) : Type 0 where
  pub disk : AreBytes v.disk
  pub features : IsWord v.device_features
  pub ready : IsWord v.queue_ready
  pub interrupt : IsWord v.interrupt_status
  pub status : IsWord v.status

pub record BusWords (b : Bus) : Type 0 where
  pub ram : AreBytes b.ram
  pub stack : AreBytes b.stack
  pub bootloader : AreBytes b.bootloader
  pub clint : ClintWords b.cells.clint
  pub uart : UartWords b.cells.uart
  pub virtio : DiskWords b.cells.virtio
  pub plic : PlicWords b.plic_cell

-- A bus of words with one part changed.
module _ (b : Bus) (w : BusWords b) where
  pub set_ram-BusWords : (x : Bytes) → AreBytes x → BusWords (record b { ram = x })
  set_ram-BusWords x l = record {
    ram = l;
    stack = w.stack;
    bootloader = w.bootloader;
    clint = w.clint;
    uart = w.uart;
    virtio = w.virtio;
    plic = w.plic;
  }

  pub set_stack-BusWords : (x : Bytes) → AreBytes x → BusWords (record b { stack = x })
  set_stack-BusWords x l = record {
    ram = w.ram;
    stack = l;
    bootloader = w.bootloader;
    clint = w.clint;
    uart = w.uart;
    virtio = w.virtio;
    plic = w.plic;
  }

  pub set_bootloader-BusWords : (x : Bytes) → AreBytes x → BusWords (record b { bootloader = x })
  set_bootloader-BusWords x l = record {
    ram = w.ram;
    stack = w.stack;
    bootloader = l;
    clint = w.clint;
    uart = w.uart;
    virtio = w.virtio;
    plic = w.plic;
  }

  pub set_clint-BusWords :
      (x : Clint) → ClintWords x → BusWords (record b { cells = record (b.cells) { clint = x } })
  set_clint-BusWords x l = record {
    ram = w.ram;
    stack = w.stack;
    bootloader = w.bootloader;
    clint = l;
    uart = w.uart;
    virtio = w.virtio;
    plic = w.plic;
  }

  pub set_uart-BusWords :
      (x : Uart) → UartWords x → BusWords (record b { cells = record (b.cells) { uart = x } })
  set_uart-BusWords x l = record {
    ram = w.ram;
    stack = w.stack;
    bootloader = w.bootloader;
    clint = w.clint;
    uart = l;
    virtio = w.virtio;
    plic = w.plic;
  }

  pub set_virtio-BusWords :
      (x : VirtioBlk)
      → DiskWords x
      → BusWords (record b { cells = record (b.cells) { virtio = x } })
  set_virtio-BusWords x l = record {
    ram = w.ram;
    stack = w.stack;
    bootloader = w.bootloader;
    clint = w.clint;
    uart = w.uart;
    virtio = l;
    plic = w.plic;
  }

  pub set_plic-BusWords : (x : Plic Cells) → PlicWords x → BusWords (record b { plic_cell = x })
  set_plic-BusWords x l = record {
    ram = w.ram;
    stack = w.stack;
    bootloader = w.bootloader;
    clint = w.clint;
    uart = w.uart;
    virtio = w.virtio;
    plic = l;
  }
