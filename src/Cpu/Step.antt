-- ===== src/Cpu/Step.antt =====
-- `Cpu::fetch`, `execute`, `execute_compressed` and `step` of rv64rs/src/cpu.rs.
pub mod Sound
pub mod Invariant
pub mod Ends
pub mod Interrupts
use riscvm.Base.{ℕ, ◌-◌, ◌%◌, ◌^◌, Bool, if◌then◌else◌, ◌==◌, bit_and, u16, u32}
use riscvm.Base.{M, Outcome, ok, pure, ◌>>=◌, ◌>>◌, gets}
use riscvm.Decode
use riscvm.Decode.{Instruction}
use riscvm.Device.Clint
use riscvm.Device.Uart
use riscvm.Bus.Access
use riscvm.Bus.State.{Bus}
use riscvm.Cpu.State.{Cpu, Hart, on_cpu, on_bus}
use riscvm.Cpu.Mmu.{translate, fetch_access}
use riscvm.Cpu.Trap.{check_interrupt}
use riscvm.Cpu.Execute
use riscvm.Cpu.Rvc
use riscvm.Cpu.Rvc.Fields.{CInstruction}

pub data DecodedInstruction : Type 0 where
  full : Instruction → DecodedInstruction
  compressed : CInstruction → DecodedInstruction

abbrev pub uart_poll_interval : ℕ
uart_poll_interval = 4096

unfoldable pub tick_bus : Bus → Bus
unfolding Clint.tick
tick_bus b = record b { cells = record (b.cells) { clint = Clint.tick b.cells.clint } }

unfoldable pub poll_bus : Bus → Bus
unfolding Uart.poll_input
poll_bus b = record b { cells = record (b.cells) { uart = Uart.poll_input b.cells.uart } }

unfoldable pub tick_clint : Hart → Hart
unfolding tick_bus
tick_clint h = if h.cpu.clint then record h { bus = tick_bus h.bus } else h

-- The UART is polled when the countdown runs out.
unfoldable pub count_down : Hart → Hart
unfolding poll_bus
count_down h =
    let left = h.cpu.uart_poll_countdown - 1 in
    if left == 0
    then record {
      cpu = record (h.cpu) { uart_poll_countdown = uart_poll_interval };
      bus = poll_bus h.bus;
    }
    else record h { cpu = record (h.cpu) { uart_poll_countdown = left } }

unfoldable pub poll_uart : Hart → Hart
unfolding count_down
poll_uart h = if h.cpu.uart then count_down h else h

unfoldable pub decode : ℕ → DecodedInstruction
unfolding Decode.new
decode word = if bit_and word 0b11 == 0b11 then full (Decode.new word) else compressed (u16 word)

-- `fetch` up to the word that it reads.
unfoldable pub fetch_word : M Hart ℕ
unfolding tick_clint poll_uart on_bus
fetch_word h =
    (do
      _ ← check_interrupt
      pc ← gets (λ h. h.cpu.pc)
      pa ← translate pc fetch_access
      on_bus (Access.read pa 4))
      (poll_uart (tick_clint h))

unfoldable pub fetch : M Hart DecodedInstruction
unfolding fetch_word decode
fetch = do word ← fetch_word; pure (decode (u32 word))

unfoldable pub commit : ℕ → M Hart (Unit {0})
unfolding on_cpu
commit next_pc = on_cpu (λ cpu. record cpu { pc = next_pc })

unfoldable pub run_instruction : DecodedInstruction → M Hart (Unit {0})
unfolding commit
run_instruction (full i) = do next_pc ← Execute.execute i; commit next_pc
run_instruction (compressed i) = do next_pc ← Rvc.execute i; commit next_pc

unfoldable pub step : M Hart (Unit {0})
unfolding fetch run_instruction
step = do i ← fetch; run_instruction i
