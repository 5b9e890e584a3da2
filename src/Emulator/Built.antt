-- ===== src/Emulator/Built.antt =====
-- What `Xv6Emulator::new_smp` of rv64rs/src/emulator.rs built, where it succeeded.
use riscvm.Base.{
  ℕ, ◌≤◌, ◌<◌, ◌≡◌, refl, arith, Bool, true, false, List, Option, Outcome, ok, err, panic,
}
use riscvm.Base.{timeout, Error, no_cpu, too_many_cpus, ltb, ◌==◌, ◌/◌, if◌then◌else◌}
use riscvm.Bus.State.{Bus}
use riscvm.Bus.State as BusState
use riscvm.Device.Plic
use riscvm.Device.Ram.{Bytes}
use riscvm.Cpu.State.{Cpu}
use riscvm.Emulator.{Emulator, harts, new_smp, with_bus, attach, cells, plic}

past_guard :
    {A : Type 0} (t : Bool) (error : Error) (r : Outcome A) (a : A)
    → (if t then err error else r) ≡ ok a
    → (t ≡ false) × (r ≡ ok a)
past_guard true error r a h = absurd (cc h)
past_guard false error r a h = (refl, h)

with_bus_lem :
    (x : Outcome (Unit {0}) × Bus) (cpus : List Cpu) (e : Emulator)
    → with_bus (λ b. ok (record { bus = b; cpus = cpus })) x ≡ ok e
    → (e.cpus ≡ cpus) × (e.bus ≡ x.1) × (x.0 ≡ ok tt)
unfolding with_bus
with_bus_lem (ok u, b) cpus e h = (cc, cc, refl)
with_bus_lem (err error, b) cpus e h = absurd (cc h)
with_bus_lem (panic, b) cpus e h = absurd (cc h)
with_bus_lem (timeout, b) cpus e h = absurd (cc h)

-- The harts are numbered from 0, the bus is the one that all parts were put on, and there is a
-- hart, and no more than the PLIC has contexts for.
pub new_smp_lem :
    (program : List ℕ) (address : ℕ) (output : Option (List ℕ)) (input : Option (List (List ℕ)))
    (disk : Option Bytes) (ncpu : ℕ) (e : Emulator)
    → new_smp program address output input disk ncpu ≡ ok e
    → let built = attach program address (BusState.new (cells ncpu output input disk) plic) in
      (e.cpus ≡ harts ncpu 0) × (e.bus ≡ built.1) × (built.0 ≡ ok tt) × (0 < ncpu) × (ncpu ≤ 32)
unfolding new_smp
new_smp_lem program address output input disk ncpu e h =
    let built = attach program address (BusState.new (cells ncpu output input disk) plic) in
    let machine : Outcome Emulator =
      with_bus (λ b. ok (record { bus = b; cpus = harts ncpu 0 })) built in
    let limit = ltb (Plic.max_contexts / 2) ncpu in
    let (some_hart, after) =
      past_guard (ncpu == 0) no_cpu (if limit then err too_many_cpus else machine) e h in
    let (few, made) = past_guard limit too_many_cpus machine e after in
    let (cpus, bus, went) = with_bus_lem built (harts ncpu 0) e made in
    (cpus, bus, went, ground (arith, some_hart), ground (arith, few))
