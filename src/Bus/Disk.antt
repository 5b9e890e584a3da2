-- ===== src/Bus/Disk.antt =====
-- What the disk of rv64rs/src/virtio.rs moves between its sectors and the guest's memory.
pub mod Memory
pub mod Sector
