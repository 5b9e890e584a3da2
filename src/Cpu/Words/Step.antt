-- ===== src/Cpu/Words/Step.antt =====
-- The words of a hart across a step of rv64rs/src/cpu.rs.
use riscvm.Base.{
  ℕ, ◌-◌, ◌^◌, ◌<◌, ◌==◌, arith, inl, inr, Bool, true, false, if◌then◌else◌, u16, u32,
}
use riscvm.Base.Yields.{any-Holds}
use riscvm.Base.Yields.{Anything, Yields, gets-Yields, bind-Yields}
use riscvm.Device.Clint
use riscvm.Decode
use riscvm.Bus.State.{Bus}
use riscvm.Bus.Access
use riscvm.Bus.Words.{set_clint-BusWords, set_uart-BusWords}
use riscvm.Bus.Words.{IsWord, BusWords}
use riscvm.Bus.Words.Access.{read-Yields}
use riscvm.Bus.Words.Devices.{poll_input-words}
use riscvm.Cpu.State.{Hart, on_bus}
use riscvm.Cpu.Mmu.{fetch_access}
use riscvm.Cpu.Rvc.Fields.{CInstruction}
use riscvm.Cpu.Step.{
  full, compressed, tick_clint, tick_bus, poll_uart, poll_bus, count_down, fetch_word, commit,
  decode, run_instruction, step,
}
use riscvm.Cpu.Keeps.Step.{step-fetch_word, decode-either}
use riscvm.Cpu.Words.{HartWords, on_cpu-Yields, on_bus-Yields}
use riscvm.Cpu.Words.Access.{translate-Yields}
use riscvm.Cpu.Words.Interrupt.{check_interrupt-Yields}
use riscvm.Cpu.Words.System.{execute-Yields}
use riscvm.Cpu.Words.Rvc.{execute-CYields}
use riscvm.Cpu.Words.Values.{new-InstructionWords}

tick_bus-words : (b : Bus) → BusWords b → BusWords (tick_bus b)
unfolding tick_bus Clint.tick
tick_bus-words b w =
    set_clint-BusWords b w _ (record { mtime = omega arith; mtimecmp = w.clint.mtimecmp })

poll_bus-words : (b : Bus) → BusWords b → BusWords (poll_bus b)
unfolding poll_bus
poll_bus-words b w = set_uart-BusWords b w _ (poll_input-words b.cells.uart w.uart)

if-HartWords : (t : Bool) (x y : Hart) → HartWords x → HartWords y → HartWords (if t then x else y)
if-HartWords true x y p q = p
if-HartWords false x y p q = q

tick_clint-HartWords : (h : Hart) → HartWords h → HartWords (tick_clint h)
unfolding tick_clint
tick_clint-HartWords h w =
    if-HartWords h.cpu.clint _ h (record { cpu = w.cpu; bus = tick_bus-words h.bus w.bus }) w

count_down-HartWords : (h : Hart) → HartWords h → HartWords (count_down h)
unfolding count_down
count_down-HartWords h w =
    if-HartWords (h.cpu.uart_poll_countdown - 1 == 0) _ _
      (record {
        cpu = record { regs = w.cpu.regs; csrs = w.cpu.csrs; pc = w.cpu.pc; mode = w.cpu.mode };
        bus = poll_bus-words h.bus w.bus;
      })
      (record {
        cpu = record { regs = w.cpu.regs; csrs = w.cpu.csrs; pc = w.cpu.pc; mode = w.cpu.mode };
        bus = w.bus;
      })

poll_uart-HartWords : (h : Hart) → HartWords h → HartWords (poll_uart h)
unfolding poll_uart
poll_uart-HartWords h w = if-HartWords h.cpu.uart _ h (count_down-HartWords h w) w

fetch_word-Yields : Yields HartWords Anything fetch_word
unfolding fetch_word
fetch_word-Yields = record {
  yields = λ h w.
      (bind-Yields HartWords Anything Anything _ _ check_interrupt-Yields (λ _ _.
          bind-Yields HartWords Anything Anything _ _
            (gets-Yields HartWords Anything (λ h. h.cpu.pc) (λ h w. tt))
            (λ pc _.
              bind-Yields HartWords Anything Anything _ _ (translate-Yields pc fetch_access)
                (λ pa _. any_read pa)))).yields
        (poll_uart (tick_clint h)) (poll_uart-HartWords (tick_clint h) (tick_clint-HartWords h w));
}
  where
    any_read : (pa : ℕ) → Yields HartWords Anything (on_bus (Access.read pa 4))
    any_read pa = on_bus-Yields Anything (Access.read pa 4) (record {
      yields = λ b w. (((read-Yields pa 4).yields b w).0, any-Holds (Access.read pa 4 b).0);
    })

commit-Yields : (pc : ℕ) → IsWord pc → Yields HartWords Anything (commit pc)
unfolding commit
commit-Yields pc l =
    on_cpu-Yields (λ cpu. record cpu { pc = pc })
      (λ c w. record { regs = w.regs; csrs = w.csrs; pc = l; mode = w.mode })

full-Yields :
    (w : ℕ) → w < 2 ^ 32 → Yields HartWords Anything (run_instruction (full (Decode.new w)))
unfolding run_instruction
full-Yields w l =
    bind-Yields HartWords IsWord Anything _ _
      (execute-Yields (Decode.new w) (new-InstructionWords w l)) commit-Yields

compressed-Yields : (i : CInstruction) → Yields HartWords Anything (run_instruction (compressed i))
unfolding run_instruction
compressed-Yields i = bind-Yields HartWords IsWord Anything _ _ (execute-CYields i) commit-Yields

run_instruction-Yields :
    (w : ℕ) → w < 2 ^ 32 → Yields HartWords Anything (run_instruction (decode w))
run_instruction-Yields w l = elim (decode-either w) [
  | inl e ↦ rw e (full-Yields w l)
  | inr e ↦ rw e (compressed-Yields (u16 w))
]

-- However a step ends, the hart and the bus hold words where they did before.
pub step-HartWords : (h : Hart) → HartWords h → HartWords (step h).1
step-HartWords h w =
    rw (step-fetch_word h)
      ((bind-Yields HartWords Anything Anything _ _ fetch_word-Yields
          (λ word _. run_instruction-Yields (u32 word) (omega arith))).yields
        h w).0
