-- ===== src/Cpu.antt =====
-- A hart: rv64rs/src/cpu.rs, csr.rs, register.rs, mmu.rs, trap.rs, execute.rs and rvc.rs.
pub mod State
pub mod Tlb
pub mod Mmu
pub mod Keeps
pub mod Trap
pub mod Execute
pub mod Rvc
pub mod Step
pub mod Words
