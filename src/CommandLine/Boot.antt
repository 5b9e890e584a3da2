-- ===== src/CommandLine/Boot.antt =====
-- The loop of `xv6-boot` in rv64rs/src/main.rs against `Emulator.run`, and its limit.
use riscvm.Base.{ℕ, zero, suc, ◌+◌, ◌^◌, ◌≤◌, ◌<◌, ◌≡◌, refl, ap, ◌∙◌, arith, ◌⊎◌, inl, inr}
use riscvm.Base.{true, ◌&&◌, if◌then◌else◌, leb, ◌!=◌, Bool-cases, add64, List, Option}
use riscvm.Base.{Outcome, ok, err, panic, timeout}
use riscvm.Base.Keeps.{ending}
use riscvm.Device.Ram.{Bytes}
use riscvm.Bus.State.{Bus}
use riscvm.Bus.Fit.{Shape, shape, IsFit, stops}
use riscvm.Cpu.State.{Cpu}
use riscvm.Emulator.{Emulator, round, run, new_smp}
use riscvm.Emulator.Ends.{round-Fit, new_smp-IsFit}
use riscvm.CommandLine.Run.{BootEnd, reached_limit, stopped, after_round, boot_loop}

-- The machine after `n` rounds is as the loop left it, and the loop reports `n` rightly.
abbrev pub Matches : ℕ → ℕ → ℕ → Emulator → Outcome BootEnd × Emulator → Type 0
Matches n limit count emu (ok reached_limit, emu') =
    (count + n ≡ limit) × (run n emu ≡ (timeout, emu'))
Matches n limit count emu (ok (stopped c error), emu') =
    (count + n ≡ c + 1) × (run n emu ≡ (err error, emu'))
Matches n limit count emu (err error, emu') = ⊥
Matches n limit count emu (panic, emu') = run n emu ≡ (panic, emu')
Matches n limit count emu (timeout, emu') = run n emu ≡ (timeout, emu')

later :
    (n limit count : ℕ) (emu emu' : Emulator) (r : Outcome BootEnd × Emulator)
    → ((k : ℕ) → run (suc k) emu ≡ run k emu')
    → Matches n limit (count + 1) emu' r
    → Matches (suc n) limit count emu r
later n limit count emu emu' (ok reached_limit, e) g (a, b) = (omega (arith, a), rw (g n) b)
later n limit count emu emu' (ok (stopped c error), e) g (a, b) = (omega (arith, a), rw (g n) b)
later n limit count emu emu' (err error, e) g m = m
later n limit count emu emu' (panic, e) g m = rw (g n) m
later n limit count emu emu' (timeout, e) g m = rw (g n) m

boot_loop-ok :
    (fuel limit count : ℕ) (emu : Emulator) (u : Unit {0}) (cpus : List Cpu) (bus : Bus)
    → round emu.cpus emu.bus ≡ (ok u, cpus, bus)
    → count + 1 < 2 ^ 64
    → let emu' : Emulator = record { bus = bus; cpus = cpus } in
      boot_loop (suc fuel) limit count emu ≡ (
        if limit != 0 && leb limit (count + 1)
        then (ok reached_limit, emu')
        else boot_loop fuel limit (count + 1) emu')
unfolding boot_loop
boot_loop-ok fuel limit count emu u cpus bus e l =
    let wraps : add64 count 1 ≡ count + 1 = omega (arith, l) in
    ap (after_round limit count (boot_loop fuel limit)) e ∙ rw wraps refl

-- A turn of `run`, by how its round ended.
abbrev ran : ℕ → Outcome (Unit {0}) × List Cpu × Bus → Outcome (Unit {0}) × Emulator
ran k (r, cpus, bus) =
    let emu : Emulator = record { bus = bus; cpus = cpus } in
    elim r [
      | ok _ ↦ run k emu
      | err error ↦ (err error, emu)
      | panic ↦ (panic, emu)
      | timeout ↦ (timeout, emu)
    ]

run-ok :
    (k : ℕ) (emu : Emulator) (u : Unit {0}) (cpus : List Cpu) (bus : Bus)
    → round emu.cpus emu.bus ≡ (ok u, cpus, bus)
    → run (suc k) emu ≡ run k (record { bus = bus; cpus = cpus })
unfolding run
run-ok k emu u cpus bus e = ap (ran k) e

-- One turn, by how its round ended.
turn :
    (fuel limit count : ℕ) (emu : Emulator) (x : Outcome (Unit {0}) × List Cpu × Bus)
    → round emu.cpus emu.bus ≡ x
    → count + suc fuel < 2 ^ 64
    → (limit ≡ 0) ⊎ (count < limit)
    → ((emu' : Emulator)
        → (limit ≡ 0) ⊎ (count + 1 < limit)
        → (n : ℕ) × Matches n limit (count + 1) emu' (boot_loop fuel limit (count + 1) emu'))
    → (n : ℕ) × Matches n limit count emu (boot_loop (suc fuel) limit count emu)
unfolding boot_loop run
turn fuel limit count emu (ok u, cpus, bus) e l below rest =
    let next = boot_loop-ok fuel limit count emu u cpus bus e (omega (arith, l)) in
    elim (Bool-cases (limit != 0 && leb limit (count + 1))) [
      | inl t ↦ (1, rw (next, t) (ground (arith, t), run-ok 0 emu u cpus bus e))
      | inr f ↦
          let (n, m) = rest (record { bus = bus; cpus = cpus }) (ground (arith, f)) in
          (
            suc n,
            rw (next, f)
                (later n limit count emu (record { bus = bus; cpus = cpus })
                  (boot_loop fuel limit (count + 1) (record { bus = bus; cpus = cpus }))
                  (λ k. run-ok k emu u cpus bus e) m),
          )
    ]
turn fuel limit count emu (err error, cpus, bus) e l below rest = (1, rw e (refl, ap (ran 0) e))
turn fuel limit count emu (panic, cpus, bus) e l below rest = (1, rw e (ap (ran 0) e))
turn fuel limit count emu (timeout, cpus, bus) e l below rest = (1, rw e (ap (ran 0) e))

-- From a count below the limit, or with no limit, and as long as the count does not wrap, the
-- loop of xv6-boot leaves the machine and ends as run does after some number of rounds; that
-- number is the limit where the limit is reported, and one more than the count where an error
-- is.
pub boot_loop-run :
    (fuel limit count : ℕ) (emu : Emulator)
    → count + fuel < 2 ^ 64
    → (limit ≡ 0) ⊎ (count < limit)
    → (n : ℕ) × Matches n limit count emu (boot_loop fuel limit count emu)
unfolding boot_loop run
boot_loop-run zero limit count emu l below = (0, refl)
boot_loop-run (suc fuel) limit count emu l below =
    turn fuel limit count emu (round emu.cpus emu.bus) refl l below
      (λ emu' b. boot_loop-run fuel limit (count + 1) emu' (omega (arith, l)) b)

-- One turn over a fit bus, before the limit.
turn-stops :
    (s : Shape) (fuel limit count : ℕ) (emu : Emulator) (x : Outcome (Unit {0}) × List Cpu × Bus)
    → round emu.cpus emu.bus ≡ x
    → (stops (ending x.0) ≡ true) × IsFit s x.2
    → count < limit
    → limit ≤ count + suc fuel
    → limit < 2 ^ 64
    → ((emu' : Emulator)
        → IsFit s emu'.bus
        → count + 1 < limit
        → stops (ending (boot_loop fuel limit (count + 1) emu').0) ≡ true)
    → stops (ending (boot_loop (suc fuel) limit count emu).0) ≡ true
unfolding boot_loop
turn-stops s fuel limit count emu (ok u, cpus, bus) e (t, f) below enough l rest =
    let next = boot_loop-ok fuel limit count emu u cpus bus e (omega (arith, below, l)) in
    elim (Bool-cases (limit != 0 && leb limit (count + 1))) [
      | inl t ↦ rw (next, t) refl
      | inr g ↦ rw (next, g) (rest (record { bus = bus; cpus = cpus }) f (ground (arith, g)))
    ]
turn-stops s fuel limit count emu (err error, cpus, bus) e (t, f) below enough l rest = rw e refl
turn-stops s fuel limit count emu (panic, cpus, bus) e (t, f) below enough l rest = rw e refl
turn-stops s fuel limit count emu (timeout, cpus, bus) e (t, f) below enough l rest = absurd (cc t)

boot_loop-stops :
    (s : Shape) (fuel limit count : ℕ) (emu : Emulator)
    → IsFit s emu.bus
    → count < limit
    → limit ≤ count + fuel
    → limit < 2 ^ 64
    → stops (ending (boot_loop fuel limit count emu).0) ≡ true
boot_loop-stops s zero limit count emu f below enough l = absurd (omega (arith, below, enough))
boot_loop-stops s (suc fuel) limit count emu f below enough l =
    turn-stops s fuel limit count emu (round emu.cpus emu.bus) refl (round-Fit s emu.cpus emu.bus f)
      below enough l
      (λ emu' f' b. boot_loop-stops s fuel limit (count + 1) emu' f' b (omega (arith, enough)) l)

-- With a limit above 0, the loop of xv6-boot over a machine that new_smp built ends within as
-- many rounds as the limit says.
pub boot_loop-new_smp :
    (program : List ℕ) (address : ℕ) (output : Option (List ℕ)) (input : Option (List (List ℕ)))
    (disk : Option Bytes) (ncpu : ℕ) (emu : Emulator) (limit : ℕ)
    → new_smp program address output input disk ncpu ≡ ok emu
    → 0 < limit
    → limit < 2 ^ 64
    → stops (ending (boot_loop limit limit 0 emu).0) ≡ true
boot_loop-new_smp program address output input disk ncpu emu limit e above l =
    boot_loop-stops (shape emu.bus) limit limit 0 emu
      (new_smp-IsFit program address output input disk ncpu emu e) above (omega arith) l
