-- ===== src/Emulator/Words.antt =====
-- The words and bytes of the machines of rv64rs/src/emulator.rs along a run, and their compressed
-- instructions.
use riscvm.Base.{ℕ, zero, suc, ◌+◌, ◌≤◌, ◌<◌, ◌^◌, ◌≡◌, arith, List, All, Option, ok}
use riscvm.Cpu.Execute
use riscvm.Cpu.Rvc
use riscvm.Device.Ram.{Bytes}
use riscvm.Bus.State.{Bus}
use riscvm.Bus.State as BusState
use riscvm.Bus.Words.{BusWords, Feeds}
use riscvm.Bus.Words.Built.{Image, new-BusWords}
use riscvm.Bus.Words.Attach.{attach-Yields}
use riscvm.Cpu.State as CpuState
use riscvm.Cpu.State.{Cpu, Hart, mstatus, mie, mhartid}
use riscvm.Cpu.Step.{step}
use riscvm.Cpu.Words.{CpuWords, insert-TableWords}
use riscvm.Cpu.Words.Step.{step-HartWords}
use riscvm.Emulator.{Emulator, cells, plic, harts, new_smp, run}
use riscvm.Emulator.Keeps.{Harts, run_keeps}
use riscvm.Emulator.Built.{new_smp_lem}

abbrev pub HartHasWords : ℕ → Cpu → Type 0
HartHasWords k c = CpuWords c

harts_words : (n hartid : ℕ) → n + hartid ≤ 2 ^ 32 → Harts HartHasWords hartid (harts n hartid)
unfolding harts CpuState.new
harts_words zero hartid l = tt
harts_words (suc n) hartid l = (
  record {
    regs = λ i. omega arith;
    csrs =
        insert-TableWords _ mhartid hartid
          (insert-TableWords _ mie 0x222
            (insert-TableWords (λ _. 0) mstatus 0xa00000000 (λ i. omega arith) (omega arith))
            (omega arith))
          (omega arith);
    pc = omega arith;
    mode = omega arith;
  },
  harts_words n (hartid + 1) (omega arith),
)

each_words :
    (k : ℕ) (h : Hart)
    → CpuWords h.cpu
    → BusWords h.bus
    → CpuWords (step h).1.cpu × BusWords (step h).1.bus
each_words k h c b = let w = step-HartWords h (record { cpu = c; bus = b }) in (w.cpu, w.bus)

-- After any number of rounds of a machine that new_smp built from bytes of a program, of a disk
-- image and words of input, every register, CSR and program counter of every hart is below 2 ^
-- 64, every mode is below 2 ^ 8, every byte of the memories and of the disk is below 256, and
-- the registers of the devices that a read returns are below 2 ^ 64, however the run ends.
pub run-words :
    (program : List ℕ) (address : ℕ) (output : Option (List ℕ)) (input : Option (List (List ℕ)))
    (disk : Option Bytes) (ncpu : ℕ) (e : Emulator) (rounds : ℕ)
    → new_smp program address output input disk ncpu ≡ ok e
    → All (λ x. x < 256) program
    → Feeds input
    → Image disk
    → Harts HartHasWords 0 (run rounds e).1.cpus × BusWords (run rounds e).1.bus
run-words program address output input disk ncpu e rounds h bytes feeds image =
    let (cpus, bus, _, _, few) = new_smp_lem program address output input disk ncpu e h in
    run_keeps HartHasWords BusWords each_words rounds e (rw cpus (harts_words ncpu 0 (omega arith)))
      (rw bus
        ((attach-Yields program address bytes).yields
          (BusState.new (cells ncpu output input disk) plic)
          (new-BusWords ncpu output input disk feeds image)).0)
