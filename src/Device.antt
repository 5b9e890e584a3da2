-- ===== src/Device.antt =====
-- The devices behind the bus.
pub mod Ram
pub mod Clint
pub mod Uart
pub mod Plic
pub mod VirtioBlk
