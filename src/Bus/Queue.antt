-- ===== src/Bus/Queue.antt =====
-- `VirtIOBlk::write`, `process_queue` and `process_descriptor_chain` of rv64rs/src/virtio.rs, over
-- the bus whose cell `virtio` is borrowed while they run: a DMA access that comes back to the disk
-- borrows the cell again, which panics.
use riscvm.Base.{ℕ, zero, suc, ◌+◌, ◌-◌, ◌*◌, ◌%◌, ◌^◌, Bool, true, false, ◌||◌, ◌&&◌}
use riscvm.Base.{if◌then◌else◌, ltb, leb, ◌==◌, ◌!=◌, Option, none, some, List, [], ◌∷◌, ◌++◌}
use riscvm.Base.{length, get_or, bit_and, bit_or, inv, shl, u8, u16, u32, add64, M, ok, err}
use riscvm.Base.{timeout, pure, modify, gets, crash, ◌>>=◌, ◌>>◌, virtio_size}
use riscvm.Device.Ram.{Bytes, resize}
use riscvm.Device.VirtioBlk.{VirtioBlk}
use riscvm.Bus.State.{Bus}
use riscvm.Bus.Access.{read, write_with}

abbrev pub desc_f_next : ℕ
desc_f_next = 1

abbrev pub blk_t_in : ℕ
blk_t_in = 0

abbrev pub blk_t_out : ℕ
blk_t_out = 1

abbrev pub sector_size : ℕ
sector_size = 512

-- The accesses of the queue.
unfoldable pub dma_write : ℕ → ℕ → ℕ → M Bus (Unit {0})
unfolding write_with
dma_write = write_with (λ _ _ _. crash)

abbrev pub set_device : (VirtioBlk → VirtioBlk) → Bus → Bus
set_device f b = record b { cells = record (b.cells) { virtio = f b.cells.virtio } }

pub record Descriptor : Type 0 where
  pub addr : ℕ
  pub len : ℕ
  pub flags : ℕ

unfoldable pub contains_idx : List ℕ → ℕ → Bool
contains_idx [] x = false
contains_idx (y ∷ ys) x = (y == x) || contains_idx ys x

-- The loop that follows the chain; `seen` are the indices that were visited.
unfoldable pub follow_chain : ℕ → ℕ → List ℕ → ℕ → List Descriptor → M Bus (List Descriptor)
follow_chain zero desc_base seen idx descs b = (timeout, b)
follow_chain (suc fuel) desc_base seen idx descs b = elim (contains_idx seen idx) [
  | true ↦ (ok descs, b)
  | false ↦
      (do
        let off = add64 desc_base (idx * 16)
        addr ← read off 8
        length ← read (add64 off 8) 4
        flags ← read (add64 off 12) 2
        nxt ← read (add64 off 14) 2
        let descs' = descs ++ (record { addr = addr; len = u32 length; flags = u16 flags } ∷ [])
        let rest = follow_chain fuel desc_base (idx ∷ seen) (u16 nxt) descs'
        if bit_and (u16 flags) desc_f_next != 0 then rest else pure descs')
        b
]

-- `self.disk[offset..end]` panics where `end < offset`.
unfoldable pub grow : ℕ → Bytes → Bytes
unfolding resize
grow n disk = if ltb disk.len n then resize disk n else disk

-- The loop that copies `left` bytes of the disk to the guest, and the one that reads them.
unfoldable pub copy_out : ℕ → Bytes → ℕ → ℕ → M Bus (Unit {0})
unfolding dma_write
copy_out zero disk offset data_addr = pure tt
copy_out (suc left) disk offset data_addr = do
  dma_write data_addr 1 (disk.at offset)
  copy_out left disk (offset + 1) (add64 data_addr 1)

unfoldable pub copy_in : ℕ → ℕ → M Bus (List ℕ)
copy_in zero data_addr = pure []
copy_in (suc left) data_addr = do
  x ← read data_addr 1
  xs ← copy_in left (add64 data_addr 1)
  pure (u8 x ∷ xs)

unfoldable pub splice : Bytes → ℕ → ℕ → List ℕ → Bytes
splice disk offset end chunk = record {
  len = disk.len;
  at = λ i. if leb offset i && ltb i end then get_or chunk (i - offset) 0 else disk.at i;
}

unfoldable pub device_read : ℕ → ℕ → ℕ → M Bus (Unit {0})
unfolding copy_out grow
device_read offset data_addr data_len = do
  let end = add64 offset data_len
  modify (set_device (λ v. record v { disk = grow end v.disk }))
  disk ← gets (λ b. b.cells.virtio.disk)
  if ltb end offset then crash else copy_out data_len disk offset data_addr

unfoldable pub device_write : ℕ → ℕ → ℕ → M Bus (Unit {0})
unfolding copy_in grow splice
device_write offset data_addr data_len = do
  chunk ← copy_in data_len data_addr
  let end = add64 offset data_len
  modify (set_device (λ v. record v { disk = grow end v.disk }))
  if ltb end offset
      then crash
      else modify (set_device (λ v. record v { disk = splice v.disk offset end chunk }))

unfoldable pub no_descriptor : Descriptor
no_descriptor = record { addr = 0; len = 0; flags = 0 }

-- What a complete chain asks for: header, data and status.
unfoldable pub serve : List Descriptor → M Bus ℕ
unfolding device_read device_write dma_write no_descriptor
serve descs = do
  let header = get_or descs 0 no_descriptor
  let payload = get_or descs 1 no_descriptor
  let last = get_or descs (length descs - 1) no_descriptor
  req_type ← read header.addr 4
  sector ← read (add64 header.addr 8) 8
  let offset = sector * sector_size % 2 ^ 64
  if u32 req_type == blk_t_in
      then device_read offset payload.addr payload.len
      else if u32 req_type == blk_t_out
      then device_write offset payload.addr payload.len
      else pure tt
  dma_write last.addr 1 0
  pure 0

-- A chain visits each of the 2 ^ 16 indices once at most.
abbrev pub chain_fuel : ℕ
chain_fuel = 2 ^ 16 + 1

unfoldable pub process_descriptor_chain : ℕ → ℕ → M Bus ℕ
unfolding follow_chain serve
process_descriptor_chain desc_base head = do
  descs ← follow_chain chain_fuel desc_base [] head []
  if ltb (length descs) 3 then pure 0 else serve descs

-- One turn of the loop over the requests.
unfoldable pub serve_one : ℕ → ℕ → ℕ → ℕ → ℕ → ℕ → M Bus (Unit {0})
unfolding process_descriptor_chain dma_write
serve_one queue_num desc_base avail_base used_base last used_idx = do
  ring ← read (add64 (add64 avail_base 4) (last % queue_num * 2)) 2
  let head = u16 ring
  length ← process_descriptor_chain desc_base head
  let used_elem_off = add64 (add64 used_base 4) (used_idx % queue_num * 8)
  dma_write used_elem_off 4 head
  dma_write (add64 used_elem_off 4) 4 length
  dma_write (add64 used_base 2) 2 (u16 (used_idx + 1))

-- The loop over the requests between `last` and `avail_idx`.
unfoldable pub serve_requests : ℕ → ℕ → ℕ → ℕ → ℕ → ℕ → ℕ → ℕ → M Bus ℕ
unfolding serve_one
serve_requests zero queue_num desc_base avail_base used_base avail_idx last used_idx b =
    (timeout, b)
serve_requests (suc fuel) queue_num desc_base avail_base used_base avail_idx last used_idx b =
    elim (last == avail_idx) [
      | true ↦ (ok last, b)
      | false ↦
          (do
            serve_one queue_num desc_base avail_base used_base last used_idx
            serve_requests fuel queue_num desc_base avail_base used_base avail_idx (u16 (last + 1))
                (u16 (used_idx + 1)))
            b
    ]

-- `last` reaches `avail_idx` within 2 ^ 16 steps, as both are 16 bits wide.
abbrev pub queue_fuel : ℕ
queue_fuel = 2 ^ 16

unfoldable pub lookup_idx : List (ℕ × ℕ) → ℕ → Option ℕ
lookup_idx [] k = none
lookup_idx ((j, v) ∷ m) k = if j == k then some v else lookup_idx m k

unfoldable pub insert_idx : ℕ → ℕ → List (ℕ × ℕ) → List (ℕ × ℕ)
insert_idx k v m = (k, v) ∷ m

unfoldable pub initial_last : Option ℕ → ℕ → ℕ
initial_last (some last) used_idx = last
initial_last none used_idx = used_idx

unfoldable pub run_queue : ℕ → M Bus (Unit {0})
unfolding serve_requests lookup_idx insert_idx initial_last
run_queue queue_idx = do
  v ← gets (λ b. b.cells.virtio)
  avail ← read (add64 v.avail_addr 2) 2
  used ← read (add64 v.used_addr 2) 2
  let start = initial_last (lookup_idx v.last_avail_idx queue_idx) (u16 used)
  last ←
      serve_requests queue_fuel v.queue_num v.desc_addr v.avail_addr v.used_addr (u16 avail) start
        (u16 used)
  modify (
      set_device (λ v. record v {
        last_avail_idx = insert_idx queue_idx last v.last_avail_idx;
        interrupt_status = bit_or v.interrupt_status 1;
      }))

unfoldable pub process_queue : ℕ → M Bus (Unit {0})
unfolding run_queue
process_queue queue_idx b =
    if b.cells.virtio.queue_ready == 0 || b.cells.virtio.queue_num == 0
    then (ok tt, b)
    else run_queue queue_idx b

-- The two halves of a ring address. The low half takes all 64 bits of the value.
abbrev pub set_low : ℕ → ℕ → ℕ
set_low old value = bit_or (bit_and old (inv 64 0xffff_ffff)) value

abbrev pub set_high : ℕ → ℕ → ℕ
set_high old value = bit_or (bit_and old 0xffff_ffff) (shl 64 value 32)

-- `STATUS`: zero resets the device.
unfoldable pub set_status : ℕ → VirtioBlk → VirtioBlk
set_status v32 v =
    if v32 == 0
    then record v {
      status = v32;
      queue_ready = 0;
      queue_num = 0;
      desc_addr = 0;
      avail_addr = 0;
      used_addr = 0;
      last_avail_idx = [];
    }
    else record v { status = v32 }

-- The registers but `QUEUE_NOTIFY`.
unfoldable pub write_register : ℕ → ℕ → VirtioBlk → VirtioBlk
unfolding set_status
write_register address value v =
    if address == 0x020
    then record v { driver_features = u32 value }
    else if address == 0x030
    then record v { queue_sel = u32 value }
    else if address == 0x038
    then record v { queue_num = u32 value }
    else if address == 0x044
    then record v { queue_ready = u32 value }
    else if address == 0x080
    then record v { desc_addr = set_low v.desc_addr value }
    else if address == 0x084
    then record v { desc_addr = set_high v.desc_addr value }
    else if address == 0x090
    then record v { avail_addr = set_low v.avail_addr value }
    else if address == 0x094
    then record v { avail_addr = set_high v.avail_addr value }
    else if address == 0x0a0
    then record v { used_addr = set_low v.used_addr value }
    else if address == 0x0a4
    then record v { used_addr = set_high v.used_addr value }
    else if address == 0x064
    then record v { interrupt_status = bit_and v.interrupt_status (inv 32 (u32 value)) }
    else if address == 0x070
    then set_status (u32 value) v
    else v

unfoldable pub write : ℕ → ℕ → ℕ → M Bus (Unit {0})
unfolding process_queue write_register
write address size value b =
    if size != 4
    then (err virtio_size, b)
    else if address == 0x050
    then process_queue (u32 value) b
    else (ok tt, set_device (write_register address value) b)
