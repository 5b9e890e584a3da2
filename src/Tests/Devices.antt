-- ===== src/Tests/Devices.antt =====
-- Runs of the devices, the range table and the disk at concrete inputs.
use riscvm.Base.{ℕ, ◌+◌, ◌-◌, ◌*◌, ◌^◌, ◌%◌, ◌≡◌, refl, arith, false, [], ◌∷◌, ◌++◌}
use riscvm.Base.{none, some, ok, map, leb, u32, set}
use riscvm.Device.Clint as Clint
use riscvm.Device.Clint.{Clint}
use riscvm.Device.Clint.Laws.{ticks, pending-ticks, read-write_slot}
use riscvm.Device.Plic as Plic
use riscvm.Device.Plic.Registers.{
  IsSized, read-write_register, priority_at, enable_at, threshold_at,
}
use riscvm.Device.Uart as Uart
use riscvm.Device.Uart.Registers.{transmit, transmit_lem, program, program_lem}
use riscvm.Device.Ram as Ram
use riscvm.Bus.Manager as Manager
use riscvm.Bus.Manager.{RangeManager, add_range}
use riscvm.Bus.Manager.Order.{IsOrdered, add_range-IsOrdered}
use riscvm.Bus.State as Bus
use riscvm.Bus.State.{Bus}
use riscvm.Emulator as Emulator
use riscvm.Emulator.Hex.{hex_decode}
use riscvm.CommandLine.Arguments.{codes, from_str_radix}
use riscvm.CommandLine.Output.{dump_registers}
use riscvm.Base.{get_or, length}
use riscvm.Cpu.State as CpuState
use riscvm.Cpu.State.{Cpu}
use riscvm.Cpu.Rvc
use riscvm.Cpu.Execute

abbrev armed : Clint
armed = record { size = 0x10000; mtime = 90; mtimecmp = 500 ∷ 100 ∷ [] }

pending-ticks_example : Clint.pending (ticks 10 armed) 1 ≡ ok (leb (100 - 90) 10)
pending-ticks_example = pending-ticks 10 100 1 armed refl (omega arith)

read-write_slot_example :
    let c = (Clint.write (0x4000 + 8 * 1) 8 250 armed).1 in
    (Clint.read (0x4000 + 8 * 1) 8 c ≡ (ok 250, c))
    × (c ≡ record armed { mtimecmp = set armed.mtimecmp 1 250 })
read-write_slot_example = read-write_slot 1 250 armed (omega arith) (omega arith)

abbrev fresh_plic : Plic.Plic ℕ
fresh_plic = Plic.new ℕ 0x1000

fresh_plic-IsSized : IsSized fresh_plic
unfolding Plic.new
fresh_plic-IsSized = record { priorities = refl; enables = refl; thresholds = refl }

read-write_register_example :
    (Plic.read 0 (priority_at 10) 4 (Plic.write (priority_at 10) 4 7 fresh_plic).1 ≡ ok (u32 7))
    × (Plic.read 0 (enable_at 3) 4 (Plic.write (enable_at 3) 4 7 fresh_plic).1 ≡ ok (u32 7))
    × (Plic.read 0 (threshold_at 3) 4 (Plic.write (threshold_at 3) 4 7 fresh_plic).1 ≡ ok (u32 7))
read-write_register_example =
    read-write_register 0 fresh_plic 10 3 7 fresh_plic-IsSized (omega arith) (omega arith)

abbrev fresh_uart : Uart.Uart
fresh_uart = Uart.new 0x100 (some []) none

program_lem_example : program 1 0 fresh_uart ≡ (
  ok tt,
  record fresh_uart {
    divisor_latch_accessible = false;
    line_control_nbits = 3;
    dll_value = 1 % 2 ^ 8;
    dlm_value = 0 % 2 ^ 8;
  },
)
program_lem_example = program_lem 1 0 fresh_uart

transmit_lem_example : transmit (104 ∷ 105 ∷ []) (record fresh_uart { output = some (36 ∷ []) }) ≡ (
  ok tt,
  record fresh_uart { output = some ((36 ∷ []) ++ map (λ b. b % 2 ^ 8) (104 ∷ 105 ∷ [])) },
)
unfolding Uart.new
transmit_lem_example = transmit_lem (104 ∷ 105 ∷ []) (36 ∷ []) fresh_uart refl

abbrev two_places : RangeManager
two_places = record { starts = 0x1000 ∷ 0x8000 ∷ []; sizes = 0x800 ∷ 0x4000 ∷ [] }

two_places-IsOrdered : IsOrdered two_places
two_places-IsOrdered = record { ascending = (omega arith, (omega arith, tt)); paired = refl }

add_range-IsOrdered_example :
    IsOrdered (add_range (record { start = 0x3000; size = 0x100 }) two_places).1
add_range-IsOrdered_example =
    add_range-IsOrdered (record { start = 0x3000; size = 0x100 }) two_places two_places-IsOrdered

-- A bus with memory at 0x8000_0000 and the disk.
abbrev disk_bus : Bus
disk_bus =
    (Bus.set_ram (Ram.with_content 0x4000 (11 ∷ 22 ∷ 33 ∷ [])) 0x8000_0000
      (Bus.new (Emulator.cells 1 none none none) Emulator.plic)).1

abbrev second_hart : Cpu
second_hart = get_or (Emulator.harts 2 0) 1 (CpuState.new 7)

-- `BOOTLOADER_HEX`
bootloader_text :
    hex_decode
      (codes "9702000013868202732540f183b5020283b282016780020000000080000000000000008700000000")
    ≡ ok Emulator.bootloader_bytes
unfolding hex_decode from_str_radix
bootloader_text = refl

named_lines : length (dump_registers (CpuState.new 0)) ≡ 32
unfolding dump_registers
named_lines = refl
