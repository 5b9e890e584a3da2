-- ===== src/Emulator/Ends.antt =====
-- How the runs of the machines of rv64rs/src/emulator.rs end, round by round.
use riscvm.Base.{ℕ, ◌≡◌, refl, ◌+◌, true, false, List, [], ◌∷◌, Option}
use riscvm.Base.{Outcome, ok, err, panic, timeout, M, length, length-replicate}
use riscvm.Base.Keeps.{Ending, returned, ending, Keeps, bind-Keeps, then-Keeps, pure-Keeps}
use riscvm.Device.Ram.{Bytes, Ram}
use riscvm.Bus.Range.{Range}
use riscvm.Bus.State.{
  Bus, reserve, set_ram, set_stack, set_bootloader, set_clint, set_uart, set_plic,
}
use riscvm.Bus.State.{set_virtio, on_manager}
use riscvm.Bus.Manager.{RangeManager}
use riscvm.Base.{◌>>=◌, modify}
use riscvm.Bus.State as BusState
use riscvm.Bus.Fit.{Shape, shape, IsFit, stops, lines, Indices}
use riscvm.Cpu.State.{Cpu, Hart}
use riscvm.Cpu.Step.{step}
use riscvm.Cpu.Step.Ends.{step-Fit}
use riscvm.Emulator.Keeps.{Harts, round_keeps, run_keeps}
use riscvm.Emulator.Built.{new_smp_lem}
use riscvm.Emulator.{Emulator, round, run, attach, cells, plic, new_smp}

-- A bus of the emulator's, at rest.
abbrev AtRest : ℕ → Ending → Bus → Type 0
AtRest n e b =
    (b.plic_cell.devices_by_irq ≡ lines)
    × Indices b.cells.virtio
    × (b.cells.virtio_borrowed ≡ false)
    × (length b.cells.clint.mtimecmp ≡ n)

module _ (n : ℕ) where
  on_manager-AtRest : {A : Type 0} (m : M RangeManager A) → Keeps (AtRest n) (on_manager m)
  unfolding on_manager
  on_manager-AtRest m = record { keeps = λ b p. p }

  reserve-AtRest : (start size : ℕ) → Keeps (AtRest n) (reserve start size)
  unfolding reserve
  reserve-AtRest start size =
      bind-Keeps (AtRest n) _ _ (on_manager-AtRest _) (λ _. pure-Keeps (AtRest n) _)

  placed-AtRest :
      (start size : ℕ) (place : Range → Bus → Bus)
      → ((range : Range) (b : Bus) → AtRest n returned b → AtRest n returned (place range b))
      → Keeps (AtRest n) (reserve start size >>= (λ range. modify (place range)))
  placed-AtRest start size place k =
      bind-Keeps (AtRest n) _ _ (reserve-AtRest start size)
        (λ range. record { keeps = λ b p. k range b p })

  set_ram-AtRest : (ram : Ram) (start : ℕ) → Keeps (AtRest n) (set_ram ram start)
  unfolding set_ram
  set_ram-AtRest ram start = placed-AtRest _ _ _ (λ range b p. p)

  set_stack-AtRest : (stack : Ram) (start : ℕ) → Keeps (AtRest n) (set_stack stack start)
  unfolding set_stack
  set_stack-AtRest stack start = placed-AtRest _ _ _ (λ range b p. p)

  set_bootloader-AtRest : (ram : Ram) (start : ℕ) → Keeps (AtRest n) (set_bootloader ram start)
  unfolding set_bootloader
  set_bootloader-AtRest ram start = placed-AtRest _ _ _ (λ range b p. p)

  set_clint-AtRest : (start : ℕ) → Keeps (AtRest n) (set_clint start)
  unfolding set_clint
  set_clint-AtRest start = record {
    keeps = λ b p. (placed-AtRest _ _ _ (λ range b p. p)).keeps b p;
  }

  set_uart-AtRest : (start : ℕ) → Keeps (AtRest n) (set_uart start)
  unfolding set_uart
  set_uart-AtRest start = record { keeps = λ b p. (placed-AtRest _ _ _ (λ range b p. p)).keeps b p }

  set_plic-AtRest : (start : ℕ) → Keeps (AtRest n) (set_plic start)
  unfolding set_plic
  set_plic-AtRest start = record { keeps = λ b p. (placed-AtRest _ _ _ (λ range b p. p)).keeps b p }

  set_virtio-AtRest : (start : ℕ) → Keeps (AtRest n) (set_virtio start)
  unfolding set_virtio
  set_virtio-AtRest start = record {
    keeps = λ b p. (placed-AtRest _ _ _ (λ range b p. p)).keeps b p;
  }

  attach-AtRest : (program : List ℕ) (address : ℕ) → Keeps (AtRest n) (attach program address)
  unfolding attach
  attach-AtRest program address = then-Keeps (AtRest n) _ _ (set_ram-AtRest _ _) (
      then-Keeps (AtRest n) _ _ (set_stack-AtRest _ _) (
        then-Keeps (AtRest n) _ _ (set_clint-AtRest _) (
          then-Keeps (AtRest n) _ _ (set_uart-AtRest _) (
            then-Keeps (AtRest n) _ _ (set_virtio-AtRest _)
              (then-Keeps (AtRest n) _ _ (set_plic-AtRest _) (set_bootloader-AtRest _ _))))))

new-AtRest :
    (n : ℕ) (output : Option (List ℕ)) (input : Option (List (List ℕ))) (disk : Option Bytes)
    → AtRest n returned (BusState.new (cells n output input disk) plic)
unfolding BusState.new cells plic
new-AtRest n output input disk = (refl, tt, refl, length-replicate n _)

new_smp-AtRest :
    (program : List ℕ) (address : ℕ) (output : Option (List ℕ)) (input : Option (List (List ℕ)))
    (disk : Option Bytes) (ncpu : ℕ) (e : Emulator)
    → new_smp program address output input disk ncpu ≡ ok e
    → AtRest ncpu returned e.bus
new_smp-AtRest program address output input disk ncpu e h =
    let (_, bus, _, _, _) = new_smp_lem program address output input disk ncpu e h in
    rw bus ((attach-AtRest ncpu program address).keeps _ (new-AtRest ncpu output input disk))

pub new_smp-IsFit :
    (program : List ℕ) (address : ℕ) (output : Option (List ℕ)) (input : Option (List (List ℕ)))
    (disk : Option Bytes) (ncpu : ℕ) (e : Emulator)
    → new_smp program address output input disk ncpu ≡ ok e
    → IsFit (shape e.bus) e.bus
new_smp-IsFit program address output input disk ncpu e h =
    let (wired, indices, _, _) = new_smp-AtRest program address output input disk ncpu e h in
    record { same = refl; wired = wired; indices = indices }

-- A round of a machine with a fit bus ends.
round-stops :
    (s : Shape) (cpus : List Cpu) (b : Bus) → IsFit s b → stops (ending (round cpus b).0) ≡ true
unfolding round
round-stops s [] b f = refl
round-stops s (c ∷ cs) b f =
    let (ended, f') = step-Fit s (record { cpu = c; bus = b }) f in
    stepped (step (record { cpu = c; bus = b })) ended f' (round-stops s cs)
  where
    stepped :
        (x : Outcome (Unit {0}) × Hart)
        → stops (ending x.0) ≡ true
        → IsFit s x.1.bus
        → ((b' : Bus) → IsFit s b' → stops (ending (round cs b').0) ≡ true)
        → let r : Outcome (Unit {0}) × List Cpu × Bus =
            (let later = round cs x.1.bus in
              elim x.0 as (λ _. Outcome (Unit {0}) × List Cpu × Bus) [
                | ok _ ↦ (later.0, x.1.cpu ∷ later.1, later.2)
                | err e ↦ (err e, x.1.cpu ∷ cs, x.1.bus)
                | panic ↦ (panic, x.1.cpu ∷ cs, x.1.bus)
                | timeout ↦ (timeout, x.1.cpu ∷ cs, x.1.bus)
              ]) in
          stops (ending r.0) ≡ true
    stepped (ok u, h) t f rest = rest h.bus f
    stepped (err e, h) t f rest = t
    stepped (panic, h) t f rest = t
    stepped (timeout, h) t f rest = t

units : (k : ℕ) (cpus : List Cpu) → Harts (λ k c. Unit) k cpus
units k [] = tt
units k (c ∷ cs) = (tt, units (k + 1) cs)

-- It leaves the bus fit.
pub round-Fit :
    (s : Shape) (cpus : List Cpu) (b : Bus)
    → IsFit s b
    → (stops (ending (round cpus b).0) ≡ true) × IsFit s (round cpus b).2
round-Fit s cpus b f = (
  round-stops s cpus b f,
  (round_keeps (λ k c. Unit) (IsFit s) (λ k h u f. (tt, (step-Fit s h f).1)) 0 cpus b (units 0 cpus)
      f).1,
)

-- However many rounds a machine that new_smp built has made, its next round ends, never by a
-- loop that ran out of fuel, and the memory map, the sizes of the memories and the handles are
-- those that it started with.
pub round-run-stops :
    (program : List ℕ) (address : ℕ) (output : Option (List ℕ)) (input : Option (List (List ℕ)))
    (disk : Option Bytes) (ncpu : ℕ) (e : Emulator) (rounds : ℕ)
    → new_smp program address output input disk ncpu ≡ ok e
    → let later = (run rounds e).1 in
      (stops (ending (round later.cpus later.bus).0) ≡ true) × (shape later.bus ≡ shape e.bus)
round-run-stops program address output input disk ncpu e rounds h =
    let f : IsFit (shape e.bus) (run rounds e).1.bus =
      (run_keeps (λ k c. Unit) (IsFit (shape e.bus))
        (λ k h u f. (tt, (step-Fit (shape e.bus) h f).1)) rounds e (units 0 e.cpus)
        (new_smp-IsFit program address output input disk ncpu e h)).1 in
    (round-stops (shape e.bus) (run rounds e).1.cpus (run rounds e).1.bus f, f.same)
