-- ===== src/Device/VirtioBlk.antt =====
-- rv64rs/src/virtio.rs: the registers of the block device. The queue, which reads and writes
-- guest memory, is in `riscvm.Bus.Queue`. `last_avail_idx` is an association list.
use riscvm.Base.{ℕ, ◌^◌, if◌then◌else◌, ltb, ◌==◌, ◌!=◌, Option, none, some}
use riscvm.Base.{List, [], Outcome, ok, err, virtio_size}
use riscvm.Device.Ram.{Bytes, zeroed, resize}

abbrev pub page_size : ℕ
page_size = 0x1000

abbrev pub magic : ℕ
magic = 0x74726976

abbrev pub vendor : ℕ
vendor = 0x554d4551

abbrev pub queue_num_max_value : ℕ
queue_num_max_value = 2 ^ 15

pub record VirtioBlk : Type 0 where
  pub disk : Bytes
  pub device_features : ℕ
  pub driver_features : ℕ
  pub queue_sel : ℕ
  pub queue_num : ℕ
  pub queue_ready : ℕ
  pub desc_addr : ℕ
  pub avail_addr : ℕ
  pub used_addr : ℕ
  pub status : ℕ
  pub interrupt_status : ℕ
  pub last_avail_idx : List (ℕ × ℕ)

unfoldable pub initial_disk : ℕ → Option Bytes → Bytes
unfolding zeroed resize
initial_disk size none = zeroed size
initial_disk size (some image) = if ltb image.len size then resize image size else image

unfoldable pub new : ℕ → Option Bytes → VirtioBlk
unfolding initial_disk
new disk_size disk_image = record {
  disk = initial_disk disk_size disk_image;
  device_features = 0;
  driver_features = 0;
  queue_sel = 0;
  queue_num = 0;
  queue_ready = 0;
  desc_addr = 0;
  avail_addr = 0;
  used_addr = 0;
  status = 0;
  interrupt_status = 0;
  last_avail_idx = [];
}

abbrev pub len : VirtioBlk → ℕ
len v = page_size

read_register : ℕ → VirtioBlk → ℕ
read_register address v =
    if address == 0x000
    then magic
    else if address == 0x004
    then 2
    else if address == 0x008
    then 2
    else if address == 0x00c
    then vendor
    else if address == 0x010
    then v.device_features
    else if address == 0x034
    then queue_num_max_value
    else if address == 0x044
    then v.queue_ready
    else if address == 0x060
    then v.interrupt_status
    else if address == 0x070
    then v.status
    else 0

unfoldable pub read : ℕ → ℕ → VirtioBlk → Outcome ℕ
unfolding read_register
read address size v = if size != 4 then err virtio_size else ok (read_register address v)
