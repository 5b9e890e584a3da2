-- ===== src/Bus/Words/Transfer.antt =====
-- The words of the bus across the transfers between the disk and the guest, and the walk along a
-- chain, of rv64rs/src/virtio.rs.

use riscvm.Base.{ℕ, zero, suc, ◌+◌, ◌-◌, ◌<◌, arith, inl, inr, Bool-cases, ltb, ◌!=◌}
use riscvm.Base.{List, [], ◌∷◌, All, get_or, add64, u8, u16, bit_and, crash, modify}
use riscvm.Base.Yields.{Anything, Yields, pure-Yields, crash-Yields, gets-Yields, modify-Yields}
use riscvm.Base.Yields.{if-Yields, bind-Yields, then-Yields}
use riscvm.Device.Ram.{Bytes, resize}
use riscvm.Device.VirtioBlk.{VirtioBlk}
use riscvm.Bus.Queue.{
  Descriptor, contains_idx, follow_chain, dma_write, copy_out, copy_in, set_device,
}
use riscvm.Bus.Queue.{device_read, device_write}
use riscvm.Bus.Queue.{grow, splice}
use riscvm.Bus.Words.{set_virtio-BusWords}
use riscvm.Bus.Words.{IsWord, AreBytes, BusWords, DiskWords}
use riscvm.Bus.Words.Access.{read-Yields, write_with-Yields}

ruleset blocks = (if-Yields, bind-Yields, then-Yields, pure-Yields, crash-Yields)

pub dma_write-Yields : (a n v : ℕ) → IsWord v → Yields BusWords Anything (dma_write a n v)
unfolding dma_write
dma_write-Yields = write_with-Yields (λ _ _ _. crash) (λ o n v l. crash-Yields BusWords Anything)

pub set_device-Yields :
    (f : VirtioBlk → VirtioBlk)
    → ((v : VirtioBlk) → DiskWords v → DiskWords (f v))
    → Yields BusWords Anything (modify (set_device f))
set_device-Yields f k =
    modify-Yields BusWords (set_device f)
      (λ b w. set_virtio-BusWords b w (f b.cells.virtio) (k b.cells.virtio w.virtio))

-- An update of the disk's contents.
set_disk-Yields :
    (f : Bytes → Bytes)
    → ((d : Bytes) → AreBytes d → AreBytes (f d))
    → Yields BusWords Anything (modify (set_device (λ v. record v { disk = f v.disk })))
set_disk-Yields f k =
    set_device-Yields (λ v. record v { disk = f v.disk })
      (λ v w. record {
        disk = k v.disk w.disk;
        features = w.features;
        ready = w.ready;
        interrupt = w.interrupt;
        status = w.status;
      })

grow-AreBytes : (n : ℕ) (d : Bytes) → AreBytes d → AreBytes (grow n d)
unfolding grow resize
grow-AreBytes n d b i = ground (arith, b i)

pub chunk-lt : (xs : List ℕ) (i : ℕ) → All (λ x. x < 256) xs → get_or xs i 0 < 256
chunk-lt [] i b = omega arith
chunk-lt (x ∷ xs) zero (b, bs) = b
chunk-lt (x ∷ xs) (suc i) (b, bs) = chunk-lt xs i bs

splice-AreBytes :
    (d : Bytes) (offset end : ℕ) (chunk : List ℕ)
    → All (λ x. x < 256) chunk
    → AreBytes d
    → AreBytes (splice d offset end chunk)
unfolding splice
splice-AreBytes d offset end chunk c b i = ground (arith, b i, chunk-lt chunk (i - offset) c)

copy_out-Yields :
    (left : ℕ) (disk : Bytes) (offset data_addr : ℕ)
    → AreBytes disk
    → Yields BusWords Anything (copy_out left disk offset data_addr)
unfolding copy_out
copy_out-Yields zero disk offset data_addr b = pure-Yields BusWords Anything tt tt
copy_out-Yields (suc left) disk offset data_addr b =
    then-Yields BusWords Anything _ _ (dma_write-Yields data_addr 1 _ (omega (arith, b offset)))
      (copy_out-Yields left disk (offset + 1) (add64 data_addr 1) b)

copy_in-Yields :
    (left data_addr : ℕ) → Yields BusWords (All (λ x. x < 256)) (copy_in left data_addr)
unfolding copy_in
copy_in-Yields zero data_addr = pure-Yields BusWords (All (λ x. x < 256)) [] tt
copy_in-Yields (suc left) data_addr =
    bind-Yields BusWords IsWord _ _ _ (read-Yields data_addr 1) (λ x l.
      bind-Yields BusWords (All (λ x. x < 256)) _ _ _ (copy_in-Yields left (add64 data_addr 1))
        (λ xs bs. pure-Yields BusWords (All (λ x. x < 256)) (u8 x ∷ xs) (omega arith, bs)))

pub follow_chain-Yields :
    (fuel desc_base : ℕ) (seen : List ℕ) (idx : ℕ) (descs : List Descriptor)
    → Yields BusWords Anything (follow_chain fuel desc_base seen idx descs)
unfolding follow_chain
follow_chain-Yields zero desc_base seen idx descs = record { yields = λ b w. (w, tt) }
follow_chain-Yields (suc fuel) desc_base seen idx descs =
    elim (Bool-cases (contains_idx seen idx)) [
      | inl e ↦ record { yields = λ b w. rw (follow_chain, e) (w, tt) }
      | inr e ↦ record {
        yields = λ b w.
            rw (follow_chain, e)
              ((bind-Yields BusWords IsWord Anything _ _ (read-Yields _ 8) (λ addr _.
                  bind-Yields BusWords IsWord Anything _ _ (read-Yields _ 4) (λ len _.
                    bind-Yields BusWords IsWord Anything _ _ (read-Yields _ 2) (λ flags _.
                      bind-Yields BusWords IsWord Anything _ _ (read-Yields _ 2) (λ nxt _.
                        if-Yields BusWords Anything (bit_and (u16 flags) 1 != 0) _ _
                          (follow_chain-Yields fuel desc_base (idx ∷ seen) (u16 nxt) _)
                          (pure-Yields BusWords Anything _ tt)))))).yields
                b w);
      }
    ]

pub device_read-Yields :
    (offset data_addr len : ℕ) → Yields BusWords Anything (device_read offset data_addr len)
unfolding device_read
device_read-Yields offset data_addr len =
    then-Yields BusWords Anything _ _
      (set_disk-Yields (grow (add64 offset len)) (grow-AreBytes (add64 offset len)))
      (bind-Yields BusWords AreBytes Anything _ _
        (gets-Yields BusWords AreBytes (λ b. b.cells.virtio.disk) (λ b w. w.virtio.disk))
        (λ disk b.
          if-Yields BusWords Anything (ltb (add64 offset len) offset) _ _
            (crash-Yields BusWords Anything) (copy_out-Yields len disk offset data_addr b)))

pub device_write-Yields :
    (offset data_addr len : ℕ) → Yields BusWords Anything (device_write offset data_addr len)
unfolding device_write
device_write-Yields offset data_addr len =
    bind-Yields BusWords (All (λ x. x < 256)) Anything _ _ (copy_in-Yields len data_addr)
      (λ chunk c.
        then-Yields BusWords Anything _ _
          (set_disk-Yields (grow (add64 offset len)) (grow-AreBytes (add64 offset len)))
          (if-Yields BusWords Anything (ltb (add64 offset len) offset) _ _
            (crash-Yields BusWords Anything)
            (set_disk-Yields (λ d. splice d offset (add64 offset len) chunk)
              (λ d b. splice-AreBytes d offset (add64 offset len) chunk c b))))
