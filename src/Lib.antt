-- ===== src/Lib.antt =====
-- rv64rs, a RISC-V virtual machine in Rust (rv64rs/src): RV64IMA with compressed instructions,
-- machine and supervisor mode, Sv39 paging, and the devices that xv6 wants.
--
-- A machine is a bus and a list of harts. Each round of `run` steps every hart once over the one
-- bus. A step ticks the timer, polls the serial port now and then, checks for an interrupt,
-- translates the program counter, reads a word, decodes it and executes it; loads and stores are
-- translated as well and go through the bus, which routes an access by address to memory or to a
-- device. The disk works on the bus itself while it serves a request.
--
-- Which file models which part:
--   Base         error.rs (Base/Results); the machine words, lists and bit laws of the model
--   Base/Keeps   what a call leaves true of its state and of how it ends; Base/Yields says it of the
--                value as well
--   Device/Ram   ram.rs            Device/Clint      clint.rs
--   Device/Uart  uart.rs           Device/Plic       plic.rs
--   Device/VirtioBlk, Bus/Queue    virtio.rs: the registers that are read, and the queue with the
--                writes, which need the bus
--   Bus/Range, Bus/Manager, Bus/State, Bus/Access, Bus/Write   bus.rs
--   Cpu/State    register.rs, csr.rs and the struct of cpu.rs
--   Cpu/Tlb, Cpu/Mmu               mmu.rs; Cpu/Mmu/Spec is translation with no TLB
--   Cpu/Trap     trap.rs; Cpu/Trap/Order has the order and the levels of the manual
--   Decode            decode.rs
--   Cpu/Execute and its children   execute.rs
--   Cpu/Rvc, Cpu/Rvc/Fields        rvc.rs; Cpu/Rvc/Manual has the RVC tables of the manual, from its bits
--                alone, Cpu/Rvc/Bits and Cpu/Rvc/Table compare the fields and expansions of the code with
--                them, and Cpu/Rvc/Equivalence what the two do
--   Cpu/Step     fetch, execute and step of cpu.rs
--   Cpu/Keeps    how an invariant of a hart passes through the code of an instruction and of a step
--   Bus/Fit      what no access changes: the memory map, the handles, the interrupt lines
--   Bus/Words, Cpu/Words, Emulator/Words   the numbers of the model as words and bytes
--   Bus/Disk     the transfers between the disk and guest memory
--   The laws of a device stand below it: Device/Clint/Laws, Device/Plic/Registers and so on.
--   Asm          asm.rs            Emulator          emulator.rs
--   CommandLine and its children   main.rs: Arguments, the subcommands (Run), the channel and the
--                thread that feeds it (Input), the lines of the registers (Output)
--   Tests        runs at concrete inputs
--
-- How the code is read:
--   * An unsigned word of w bits is a number below 2 ^ w and a signed one is its pattern.
--     Arithmetic is that of a release build: it wraps, and a shift amount is taken modulo the width.
--   * A call is a function of its state to an `Outcome` and the state it leaves, so a failed call
--     keeps what it changed before it failed. An outcome is a value, an error, a panic (an index
--     out of range, an `unwrap` of nothing, a second borrow of a cell) or a loop of the model that
--     ran out of fuel. The error for each message is a constructor; numbers in the text are left out.
--   * `Rc<RefCell<_>>` devices are shared between the harts, the bus and the interrupt lines. They
--     stand in one record of cells, and a holder has a flag that says whether it has the handle.
--     A borrow of the disk while it is serving is recorded and a second one panics.
--   * Maps from a register or page number are functions; vectors are lists or functions with a length.
--   * The page-table walk counts down its three levels. A descriptor chain visits an index once, so
--     it takes at most 2 ^ 16 + 1 turns, and the queue index is a 16-bit counter, so a request loop
--     takes fewer than 2 ^ 16; those are the amounts of fuel. `run` and the loops of
--     main.rs, which may go on for ever, take the number of turns.
--   * The sink of the serial port is the list of bytes written. Its source, which is not part of the
--     program, is the list of what its successive reads return.
--
-- Not modelled: the files, the scheduling of the thread, the clock and the other printed lines of
-- main.rs, the tests of the crate, and the earlier Python implementation in riscvm/, which the Rust
-- code follows.
pub mod Base
pub mod Device
pub mod Bus
pub mod Decode
pub mod Cpu
pub mod Asm
pub mod Emulator
pub mod CommandLine
pub mod Tests
