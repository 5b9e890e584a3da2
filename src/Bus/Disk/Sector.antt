-- ===== src/Bus/Disk/Sector.antt =====
-- Requests of rv64rs/src/virtio.rs: sectors read and written, and read back.
use riscvm.Device.Ram.{Bytes}
use riscvm.Bus.State.{Bus}
use riscvm.Bus.Queue.{set_device}

-- The disk on the bus, and the bus with another.
abbrev pub disk_of : Bus → Bytes
disk_of b = b.cells.virtio.disk

abbrev pub with_disk : Bytes → Bus → Bus
with_disk d b = set_device (λ v. record v { disk = d }) b
