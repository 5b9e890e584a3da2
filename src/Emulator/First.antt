-- ===== src/Emulator/First.antt =====
-- `Emulator::run` of rv64rs/src/emulator.rs steps the first hart only; a machine of one hart runs so.
use riscvm.Base.{ℕ, zero, suc, ◌≡◌, refl, List, [], ◌∷◌, Outcome, ok, err, panic, timeout}
use riscvm.Bus.State.{Bus}
use riscvm.Cpu.State.{Cpu, Hart}
use riscvm.Cpu.Step.{step}
use riscvm.Emulator.{Emulator, run_first, round, run}

abbrev alone : Outcome (Unit {0}) × Hart → Outcome (Unit {0}) × Emulator
alone (r, h) = (r, record { bus = h.bus; cpus = h.cpu ∷ [] })

-- A machine of one hart: `run` does what the steps of that hart do.
pub run-run_first :
    (n : ℕ) (cpu : Cpu) (bus : Bus)
    → run n (record { bus = bus; cpus = cpu ∷ [] })
      ≡ alone (run_first n (record { cpu = cpu; bus = bus }))
unfolding run run_first round
run-run_first zero cpu bus = refl
run-run_first (suc n) cpu bus = stepped (step (record { cpu = cpu; bus = bus })) (run-run_first n)
  where
    stepped :
        (x : Outcome (Unit {0}) × Hart)
        → ((c : Cpu) (b : Bus)
            → run n (record { bus = b; cpus = c ∷ [] })
              ≡ alone (run_first n (record { cpu = c; bus = b })))
        → let r : Outcome (Unit {0}) × List Cpu × Bus =
            (elim x.0 as (λ _. Outcome (Unit {0}) × List Cpu × Bus) [
              | ok _ ↦ (ok tt, x.1.cpu ∷ [], x.1.bus)
              | err e ↦ (err e, x.1.cpu ∷ [], x.1.bus)
              | panic ↦ (panic, x.1.cpu ∷ [], x.1.bus)
              | timeout ↦ (timeout, x.1.cpu ∷ [], x.1.bus)
            ]) in
          let e' : Emulator = record { bus = r.2; cpus = r.1 } in
          (elim r.0 as (λ _. Outcome (Unit {0}) × Emulator) [
            | ok _ ↦ run n e'
            | err error ↦ (err error, e')
            | panic ↦ (panic, e')
            | timeout ↦ (timeout, e')
          ])
          ≡ alone (elim x.0 as (λ _. Outcome (Unit {0}) × Hart) [
            | ok _ ↦ run_first n x.1
            | err error ↦ (err error, x.1)
            | panic ↦ (panic, x.1)
            | timeout ↦ (timeout, x.1)
          ])
    stepped (ok u, h) k = k h.cpu h.bus
    stepped (err error, h) k = refl
    stepped (panic, h) k = refl
    stepped (timeout, h) k = refl
