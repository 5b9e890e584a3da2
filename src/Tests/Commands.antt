-- ===== src/Tests/Commands.antt =====
-- Runs of the command line, of traps and of the arithmetic at concrete inputs.
use riscvm.Base.{◌⊎◌, inr}
use riscvm.Base.{◌^◌, ◌-◌, ◌<◌}
use riscvm.Base.{ℕ, ◌≡◌, refl, arith, inr, true, false, [], ◌∷◌, ◌++◌}
use riscvm.Base.{length, min, none, some, ok, bit_and}
use riscvm.Base.Keeps.{ending}
use riscvm.Bus.Fit.{stops}
use riscvm.Bus.State as Bus
use riscvm.Cpu.State as CpuState
use riscvm.Cpu.State.{Hart, get, insert, mstatus, medeleg}
use riscvm.Cpu.Trap as Trap
use riscvm.Cpu.Trap.{raise_trap, delegated, mstatus_mie, mstatus_sie}
use riscvm.Cpu.Trap.Return.{mret-raise_trap, sret-raise_trap}
use riscvm.Cpu.Trap.Order.{select-find, find, ready, manual_order}
use riscvm.Cpu.Execute.System.{mret, sret}
use riscvm.Base.{is_neg, magnitude}
use riscvm.Cpu.Execute.Alu.Product.{signed_arms}
use mathlib.Core.Bool.{xor}
use riscvm.Cpu.Execute.Alu.{mul_div_op, base_op, div_signed, rem_signed, div_unsigned, rem_unsigned}
use riscvm.Cpu.Execute.Alu.Division.{IsDivision, division_lem}
use riscvm.Emulator as Emulator
use riscvm.CommandLine.Arguments.{main, xv6_boot}
use riscvm.CommandLine.Numerals.{main-boot}
use riscvm.CommandLine.Input.{read_loop, read_loop_lem}
use riscvm.CommandLine.Run.{boot_loop}
use riscvm.CommandLine.Boot.{boot_loop-run, boot_loop-new_smp, Matches}
use riscvm.Tests.{small_program, two_harts, two_harts_lem}

boot_command :
    main ("rv64rs" ∷ "xv6-boot" ∷ "kernel" ∷ "0x80200000" ∷ "fs.img" ∷ "1000" ∷ "3" ∷ [])
    ≡ ok (xv6_boot "kernel" 0x8020_0000 1000 (some "fs.img") 3)
unfolding main
boot_command = refl

main-boot_example :
    main ("rv64rs" ∷ "xv6-boot" ∷ "kernel" ∷ "0x80200000" ∷ "fs.img" ∷ "1000" ∷ "3" ∷ [])
    ≡ ok (xv6_boot "kernel" 0x8020_0000 1000 (some "fs.img") 3)
main-boot_example =
    main-boot "rv64rs" "kernel" "0x80200000" "fs.img" "1000" "3" 8 0x8020_0000 4 1000 1 3
      (refl, omega arith, omega arith, omega arith) (refl, omega arith, omega arith, omega arith)
      (refl, omega arith, omega arith, omega arith)

read_loop_lem_example :
    ((read_loop 2 (7 ∷ 8 ∷ 9 ∷ [])).0 ++ (read_loop 2 (7 ∷ 8 ∷ 9 ∷ [])).1 ≡ 7 ∷ 8 ∷ 9 ∷ [])
    × (length (read_loop 2 (7 ∷ 8 ∷ 9 ∷ [])).0 ≡ min 2 3)
read_loop_lem_example = read_loop_lem 2 (7 ∷ 8 ∷ 9 ∷ [])

boot_loop-new_smp_example : stops (ending (boot_loop 4 4 0 two_harts).0) ≡ true
boot_loop-new_smp_example =
    boot_loop-new_smp small_program 0x8000_0000 none none none 2 two_harts 4 two_harts_lem
      (omega arith) (omega arith)

boot_loop-run_example : (n : ℕ) × Matches n 4 0 two_harts (boot_loop 9 4 0 two_harts)
boot_loop-run_example = boot_loop-run 9 4 0 two_harts (omega arith) (inr (omega arith))

-- A hart of its own number 0, on a bus with nothing on it.
abbrev lone_hart : Hart
lone_hart = record {
  cpu = CpuState.new 0;
  bus = Bus.new (Emulator.cells 1 none none none) Emulator.plic;
}

mret-raise_trap_example :
    let back = mret (record lone_hart { cpu = (raise_trap 2 false 0 lone_hart.cpu).1 }) in
    (back.0 ≡ ok lone_hart.cpu.pc)
    × (back.1.cpu.mode ≡ lone_hart.cpu.mode)
    × (bit_and (get back.1.cpu.csrs mstatus) mstatus_mie
        ≡ bit_and (get lone_hart.cpu.csrs mstatus) mstatus_mie)
unfolding CpuState.new delegated
mret-raise_trap_example = mret-raise_trap 2 0 false lone_hart (omega arith) refl

-- A hart in U-mode that has handed system calls to S-mode.
abbrev user_hart : Hart
user_hart = record lone_hart {
  cpu = record (lone_hart.cpu) { mode = 0; csrs = insert (lone_hart.cpu.csrs) medeleg 0x100 };
}

sret-raise_trap_example :
    let back = sret (record user_hart { cpu = (raise_trap 8 false 0 user_hart.cpu).1 }) in
    (back.0 ≡ ok user_hart.cpu.pc)
    × (back.1.cpu.mode ≡ user_hart.cpu.mode)
    × (bit_and (get back.1.cpu.csrs mstatus) mstatus_sie
        ≡ bit_and (get user_hart.cpu.csrs mstatus) mstatus_sie)
unfolding CpuState.new delegated get insert
sret-raise_trap_example = sret-raise_trap 8 0 false user_hart (omega arith) refl

select-find_example :
    Trap.select 0x280 Trap.priority lone_hart.cpu ≡ find (ready 0x280 lone_hart.cpu) manual_order
unfolding CpuState.new
select-find_example = select-find 0x280 lone_hart.cpu (inr refl)

-- -7 by 2
abbrev minus_seven : ℕ
minus_seven = 2 ^ 64 - 7

abbrev two : ℕ
two = 2

-- -7 by 2: -14, below 0.
signed_arms_example :
    (mul_div_op 1 minus_seven two ≡ some (2 ^ 64 - 1))
    × (mul_div_op 2 minus_seven two ≡ some (2 ^ 64 - 1))
    × (mul_div_op 3 minus_seven two ≡ some 1)
    × (base_op 2 minus_seven two ≡ some 1)
unfolding xor
signed_arms_example = signed_arms minus_seven two (omega arith) (omega arith)

division_lem_example :
    IsDivision minus_seven two (div_signed 64 minus_seven two) (rem_signed 64 minus_seven two)
    × IsDivision minus_seven two (div_unsigned 64 minus_seven two) (rem_unsigned minus_seven two)
    × ((two ≡ 0)
        ⊎ ((magnitude 64 (rem_signed 64 minus_seven two) < magnitude 64 two)
            × ((rem_signed 64 minus_seven two ≡ 0)
                ⊎ (is_neg 64 (rem_signed 64 minus_seven two) ≡ is_neg 64 minus_seven))
            × (rem_unsigned minus_seven two < two)))
division_lem_example = division_lem minus_seven two (omega arith) (omega arith)
