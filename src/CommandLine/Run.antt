-- ===== src/CommandLine/Run.antt =====
-- The subcommands of rv64rs/src/main.rs once their files are read. A loop takes the number of turns to
-- make at most; `timeout` is a loop that goes on.
use riscvm.Base.{ℕ, zero, suc, ◌%◌, Bool, false, ◌&&◌, if◌then◌else◌, leb, ◌==◌, ◌!=◌}
use riscvm.Base.{
  List, [], ◌∷◌, Option, none, some, Outcome, ok, err, panic, timeout, M, Error, shr, add64,
}
use riscvm.Device.Ram.{Bytes}
use riscvm.Bus.State.{Bus}
use riscvm.Bus.Access as Access
use riscvm.Cpu.State.{Cpu, Hart, get, satp, read_reg, write_reg}
use riscvm.Cpu.Step.{step}
use riscvm.Asm.{stack_demo_program}
use riscvm.Emulator as Emulator
use riscvm.Emulator.{Emulator, plain, new_smp, round, run}

-- `expect` of what sets the machine up, and what follows.
abbrev pub expect : {A B : Type 0} → Outcome A → (A → B) → Outcome B
expect (ok a) f = ok (f a)
expect (err e) f = panic
expect panic f = panic
expect timeout f = timeout

-- `emu.cpu().regs`: of the first hart.
abbrev pub first_read : ℕ → List Cpu → ℕ
first_read i [] = 0
first_read i (cpu ∷ cpus) = read_reg cpu.regs i

abbrev pub first_write : ℕ → ℕ → List Cpu → List Cpu
first_write i value [] = []
first_write i value (cpu ∷ cpus) = record cpu { regs = write_reg cpu.regs i value } ∷ cpus

-- How the run ended, and a0.
unfoldable pub run_fib : ℕ → List ℕ → Outcome (Outcome (Unit {0}) × ℕ)
unfolding plain run write_reg read_reg
run_fib rounds code = expect (plain code 0x1000) (λ emu.
    let (r, emu') = run rounds (record emu { cpus = first_write 10 80 emu.cpus }) in
    (r, first_read 10 emu'.cpus))

-- How the run ended, a0, and the two words on the stack, whose reads are unwrapped.
unfoldable pub run_stack_demo : ℕ → Outcome (Outcome (Unit {0}) × ℕ × Outcome ℕ × Outcome ℕ)
unfolding plain run read_reg stack_demo_program Access.read
run_stack_demo rounds = expect (plain stack_demo_program 0x1000) (λ emu.
    let (r, emu') = run rounds emu in
    let (x, bus) = Access.read 0x3000 4 emu'.bus in
    let (y, bus') = Access.read 0x3004 4 bus in
    (r, first_read 10 emu'.cpus, expect x (λ v. v), expect y (λ v. v)))

unfoldable pub run_generic : ℕ → List ℕ → ℕ → Outcome (Outcome (Unit {0}) × Emulator)
unfolding plain run
run_generic rounds code address = expect (plain code address) (run rounds)

-- How `xv6-boot` ends.
pub data BootEnd : Type 0 where
  reached_limit : BootEnd
  stopped : (count : ℕ) (error : Error) → BootEnd

-- The end of a turn of the loop; `again` is the rest of the loop.
abbrev pub after_round :
    ℕ
    → ℕ
    → (ℕ → M Emulator BootEnd)
    → Outcome (Unit {0}) × List Cpu × Bus
    → Outcome BootEnd × Emulator
after_round limit count again (ok _, cpus, bus) =
    let emu : Emulator = record { bus = bus; cpus = cpus } in
    let rest = again (add64 count 1) emu in
    if limit != 0 && leb limit (add64 count 1) then (ok reached_limit, emu) else rest
after_round limit count again (err error, cpus, bus) =
    (ok (stopped count error), record { bus = bus; cpus = cpus })
after_round limit count again (panic, cpus, bus) = (panic, record { bus = bus; cpus = cpus })
after_round limit count again (timeout, cpus, bus) = (timeout, record { bus = bus; cpus = cpus })

unfoldable pub boot_loop : ℕ → ℕ → ℕ → M Emulator BootEnd
unfolding round
boot_loop zero limit count emu = (timeout, emu)
boot_loop (suc fuel) limit count emu =
    after_round limit count (boot_loop fuel limit) (round emu.cpus emu.bus)

unfoldable pub run_xv6_boot :
    ℕ → List ℕ → ℕ → ℕ → Option Bytes → ℕ → List (List ℕ) → Outcome (Outcome BootEnd × Emulator)
unfolding new_smp boot_loop
run_xv6_boot fuel code address limit disk_image ncpu uart_input =
    expect (new_smp code address (some []) (some uart_input) disk_image ncpu)
      (boot_loop fuel limit 0)

-- `output.ends_with(b"$ ")`
unfoldable pub ends_with_prompt : List ℕ → Bool
ends_with_prompt [] = false
ends_with_prompt (a ∷ []) = false
ends_with_prompt (a ∷ b ∷ []) = a == b'$' && b == b' '
ends_with_prompt (a ∷ b ∷ c ∷ rest) = ends_with_prompt (b ∷ c ∷ rest)

-- How `xv6-time-to-shell` ends, with the instructions made and those made with paging off.
pub data ShellEnd : Type 0 where
  reached_prompt : (count bare_count : ℕ) → ShellEnd
  stopped_early : (count : ℕ) (error : Error) → ShellEnd
  gave_up : ShellEnd

abbrev pub sent : Bus → List ℕ
sent b = elim b.cells.uart.output [ none ↦ [] | some bytes ↦ bytes ]

-- The end of a turn; `again` is the rest of the loop.
abbrev pub after_step :
    ℕ → ℕ → ℕ → (ℕ → ℕ → M Hart ShellEnd) → Outcome (Unit {0}) × Hart → Outcome ShellEnd × Hart
after_step limit count bare_count again (ok _, h) =
    let count' = add64 count 1 in
    let rest = again count' bare_count h in
    if count' % 4096 == 0 && ends_with_prompt (sent h.bus)
    then (ok (reached_prompt count' bare_count), h)
    else if limit != 0 && leb limit count'
    then (ok gave_up, h)
    else rest
after_step limit count bare_count again (err error, h) = (ok (stopped_early count error), h)
after_step limit count bare_count again (panic, h) = (panic, h)
after_step limit count bare_count again (timeout, h) = (timeout, h)

-- `bare_count` after a look at satp.
unfoldable pub count_bare : ℕ → Hart → ℕ
unfolding get
count_bare bare_count h =
    let paging_on = shr 64 (get h.cpu.csrs satp) 60 == 8 in
    if paging_on then bare_count else add64 bare_count 1

unfoldable pub shell_loop : ℕ → ℕ → ℕ → ℕ → M Hart ShellEnd
unfolding step count_bare ends_with_prompt
shell_loop zero limit count bare_count h = (timeout, h)
shell_loop (suc fuel) limit count bare_count h =
    after_step limit count (count_bare bare_count h) (shell_loop fuel limit) (step h)

-- `Xv6Emulator::new` makes one hart.
abbrev pub first_hart : Emulator → Outcome Hart
first_hart emu = elim emu.cpus [
  | [] ↦ panic
  | cpu ∷ cpus ↦ ok (record { cpu = cpu; bus = emu.bus })
]

unfoldable pub run_xv6_time_to_shell :
    ℕ → List ℕ → ℕ → Option Bytes → ℕ → Outcome (Outcome (Outcome ShellEnd × Hart))
unfolding Emulator.new shell_loop
run_xv6_time_to_shell fuel code address disk_image limit =
    expect (Emulator.new code address (some []) none disk_image)
      (λ emu. expect (first_hart emu) (shell_loop fuel limit 0 0))
