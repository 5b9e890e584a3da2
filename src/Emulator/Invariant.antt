-- ===== src/Emulator/Invariant.antt =====
-- Runs of the machines of rv64rs/src/emulator.rs: what holds of every hart at every point of a run.
use riscvm.Base.{ℕ, zero, suc, ◌+◌, ◌≡◌, refl, arith, List, Option, ok}
use riscvm.Device.Ram.{Bytes}
use riscvm.Cpu.State as CpuState
use riscvm.Cpu.State.{get, insert}
use riscvm.Cpu.Step.Sound.{IsSoundCpu}
use riscvm.Cpu.Step.Invariant.{step-IsSound}
use riscvm.Emulator.{Emulator, harts, new_smp, run}
use riscvm.Emulator.Keeps.{Harts, run_keeps}
use riscvm.Emulator.Built.{new_smp_lem}

pub harts_sound : (n hartid : ℕ) → Harts IsSoundCpu hartid (harts n hartid)
unfolding harts CpuState.new get insert
harts_sound zero hartid = tt
harts_sound (suc n) hartid = (
  record { x0 = refl; hart = refl; numbered = refl; two_bits = omega arith },
  harts_sound n (hartid + 1),
)

-- After any number of rounds of a machine that new_smp built, however the run ends, the i-th
-- hart has 0 in x0, its number i in mhartid and in hartid, and a mode of at most two bits.
pub run-new_smp :
    (program : List ℕ) (address : ℕ) (output : Option (List ℕ)) (input : Option (List (List ℕ)))
    (disk : Option Bytes) (ncpu : ℕ) (e : Emulator) (rounds : ℕ)
    → new_smp program address output input disk ncpu ≡ ok e
    → Harts IsSoundCpu 0 (run rounds e).1.cpus
run-new_smp program address output input disk ncpu e rounds h =
    let same : e.cpus ≡ harts ncpu 0 = (new_smp_lem program address output input disk ncpu e h).0 in
    (run_keeps IsSoundCpu (λ b. Unit) (λ k h s u. (step-IsSound k h s, tt)) rounds e
      (rw same (harts_sound ncpu 0)) tt).0
