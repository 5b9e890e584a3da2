-- ===== src/Emulator/Keeps.antt =====
-- What the steps keep of a hart and of the bus, across the runs of rv64rs/src/emulator.rs.
use riscvm.Base.{ℕ, zero, suc, ◌+◌, List, [], ◌∷◌, Outcome, ok, err, panic, timeout}
use riscvm.Bus.State.{Bus}
use riscvm.Cpu.State.{Cpu, Hart}
use riscvm.Cpu.Step.{step}
use riscvm.Emulator.{Emulator, round, run}

-- `P`, with the hart's number, holds of the harts from number `k` on.
abbrev pub Harts : (ℕ → Cpu → Type 0) → ℕ → List Cpu → Type 0
Harts P k [] = Unit
Harts P k (c ∷ cs) = P k c × Harts P (k + 1) cs

module _ (P : ℕ → Cpu → Type 0) (Q : Bus → Type 0)
    (each : (k : ℕ) (h : Hart) → P k h.cpu → Q h.bus → P k (step h).1.cpu × Q (step h).1.bus) where
  pub round_keeps :
      (k : ℕ) (cpus : List Cpu) (b : Bus)
      → Harts P k cpus
      → Q b
      → Harts P k (round cpus b).1 × Q (round cpus b).2
  unfolding round
  round_keeps k [] b p q = (tt, q)
  round_keeps k (c ∷ cs) b (p, ps) q =
      let (p', q') = each k (record { cpu = c; bus = b }) p q in
      stepped (step (record { cpu = c; bus = b })) p' q' (λ b'. round_keeps (k + 1) cs b' ps)
    where
      stepped :
          (x : Outcome (Unit {0}) × Hart)
          → P k x.1.cpu
          → Q x.1.bus
          → ((b' : Bus) → Q b' → Harts P (k + 1) (round cs b').1 × Q (round cs b').2)
          → let r : Outcome (Unit {0}) × List Cpu × Bus =
              (let later = round cs x.1.bus in
                elim x.0 as (λ _. Outcome (Unit {0}) × List Cpu × Bus) [
                  | ok _ ↦ (later.0, x.1.cpu ∷ later.1, later.2)
                  | err e ↦ (err e, x.1.cpu ∷ cs, x.1.bus)
                  | panic ↦ (panic, x.1.cpu ∷ cs, x.1.bus)
                  | timeout ↦ (timeout, x.1.cpu ∷ cs, x.1.bus)
                ]) in
            Harts P k r.1 × Q r.2
      stepped (ok u, h) t q rest = ((t, (rest h.bus q).0), (rest h.bus q).1)
      stepped (err e, h) t q rest = ((t, ps), q)
      stepped (panic, h) t q rest = ((t, ps), q)
      stepped (timeout, h) t q rest = ((t, ps), q)

  pub run_keeps :
      (n : ℕ) (e : Emulator)
      → Harts P 0 e.cpus
      → Q e.bus
      → Harts P 0 (run n e).1.cpus × Q (run n e).1.bus
  unfolding run
  run_keeps zero e p q = (p, q)
  run_keeps (suc n) e p q =
      let (p', q') = round_keeps 0 e.cpus e.bus p q in
      rounded (round e.cpus e.bus) p' q' (run_keeps n)
    where
      rounded :
          (x : Outcome (Unit {0}) × List Cpu × Bus)
          → Harts P 0 x.1
          → Q x.2
          → ((e' : Emulator)
              → Harts P 0 e'.cpus
              → Q e'.bus
              → Harts P 0 (run n e').1.cpus × Q (run n e').1.bus)
          → let r : Outcome (Unit {0}) × Emulator =
              (let e' : Emulator = record { bus = x.2; cpus = x.1 } in
                elim x.0 as (λ _. Outcome (Unit {0}) × Emulator) [
                  | ok _ ↦ run n e'
                  | err error ↦ (err error, e')
                  | panic ↦ (panic, e')
                  | timeout ↦ (timeout, e')
                ]) in
            Harts P 0 r.1.cpus × Q r.1.bus
      rounded (ok u, cpus, b) p q rest = rest (record { bus = b; cpus = cpus }) p q
      rounded (err e, cpus, b) p q rest = (p, q)
      rounded (panic, cpus, b) p q rest = (p, q)
      rounded (timeout, cpus, b) p q rest = (p, q)
