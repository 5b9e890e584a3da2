-- ===== src/Bus.antt =====
-- rv64rs/src/bus.rs, and the request queue of rv64rs/src/virtio.rs, which works through the bus.
pub mod Range
pub mod Manager
pub mod State
pub mod Access
pub mod Queue
pub mod Write
pub mod Fit
pub mod Disk
pub mod Words
