-- ===== src/Bus/Words/Queue.antt =====
-- The words of the bus across the requests that rv64rs/src/virtio.rs serves and the writes of its
-- registers.
use riscvm.Base.{
  ℕ, zero, suc, ◌+◌, ◌-◌, ◌*◌, ◌%◌, ◌^◌, arith, inl, inr, Bool-cases, ltb, ◌==◌, ◌!=◌,
  if◌then◌else◌,
}
use riscvm.Base.{List, [], get_or, length, add64, u16, u32, bit_or, inv, modify, virtio_size, fail}
use riscvm.Base.Bits.{bit_or-lt, bit_and-lt}
use riscvm.Base.Yields.{Anything, Yields, pure-Yields, gets-Yields}
use riscvm.Base.Yields.{if-Yields, bind-Yields, then-Yields, if_state-Yields, fail-Yields}
use riscvm.Device.VirtioBlk.{VirtioBlk}
use riscvm.Bus.Queue.{
  Descriptor, no_descriptor, contains_idx, follow_chain, dma_write, copy_out, copy_in, set_device,
}
use riscvm.Bus.Queue.{
  device_read, device_write, serve, process_descriptor_chain, serve_requests, serve_one,
}
use riscvm.Bus.Queue.{
  write_register, set_status, grow, splice, run_queue, process_queue, insert_idx,
}
use riscvm.Bus.Queue as Queue
use riscvm.Bus.Words.{IsWord, BusWords, DiskWords}
use riscvm.Bus.Words.Access.{read-Yields}
use riscvm.Bus.Words.Transfer.{
  dma_write-Yields, set_device-Yields, follow_chain-Yields, device_read-Yields, device_write-Yields,
}

serve-Yields : (descs : List Descriptor) → Yields BusWords IsWord (serve descs)
unfolding serve
serve-Yields descs = bind-Yields BusWords IsWord IsWord _ _ (read-Yields _ 4) (λ req_type _.
    bind-Yields BusWords IsWord IsWord _ _ (read-Yields _ 8) (λ sector _.
      then-Yields BusWords IsWord _ _
        (if-Yields BusWords Anything (u32 req_type == 0) _ _
          (device_read-Yields (sector * Queue.sector_size % 2 ^ 64)
            (get_or descs 1 no_descriptor).addr (get_or descs 1 no_descriptor).len)
          (if-Yields BusWords Anything (u32 req_type == 1) _ _
            (device_write-Yields (sector * Queue.sector_size % 2 ^ 64)
              (get_or descs 1 no_descriptor).addr (get_or descs 1 no_descriptor).len)
            (pure-Yields BusWords Anything tt tt)))
        (then-Yields BusWords IsWord _ _
          (dma_write-Yields (get_or descs (length descs - 1) no_descriptor).addr 1 0 (omega arith))
          (pure-Yields BusWords IsWord 0 (omega arith)))))

process_descriptor_chain-Yields :
    (desc_base head : ℕ) → Yields BusWords IsWord (process_descriptor_chain desc_base head)
unfolding process_descriptor_chain
process_descriptor_chain-Yields desc_base head =
    bind-Yields BusWords Anything IsWord (follow_chain Queue.chain_fuel desc_base [] head []) _
      (follow_chain-Yields Queue.chain_fuel desc_base [] head [])
      (λ descs _.
        if-Yields BusWords IsWord (ltb (length descs) 3) _ _
          (pure-Yields BusWords IsWord 0 (omega arith)) (serve-Yields descs))

serve_one-Yields : (n d a u last used : ℕ) → Yields BusWords Anything (serve_one n d a u last used)
unfolding serve_one
serve_one-Yields n d a u last used =
    bind-Yields BusWords IsWord Anything _ _ (read-Yields _ 2) (λ ring _.
      bind-Yields BusWords IsWord Anything _ _ (process_descriptor_chain-Yields d (u16 ring))
        (λ len l.
          then-Yields BusWords Anything _ _ (dma_write-Yields _ 4 (u16 ring) (omega arith)) (
            then-Yields BusWords Anything _ _ (dma_write-Yields _ 4 len l)
              (dma_write-Yields _ 2 (u16 (used + 1)) (omega arith)))))

serve_requests-Yields :
    (fuel n d a u avail last used : ℕ)
    → Yields BusWords Anything (serve_requests fuel n d a u avail last used)
unfolding serve_requests
serve_requests-Yields zero n d a u avail last used = record { yields = λ b w. (w, tt) }
serve_requests-Yields (suc fuel) n d a u avail last used = elim (Bool-cases (last == avail)) [
  | inl e ↦ record { yields = λ b w. rw (serve_requests, e) (w, tt) }
  | inr e ↦ record {
    yields = λ b w.
        rw (serve_requests, e)
          ((then-Yields BusWords Anything (serve_one n d a u last used) _
              (serve_one-Yields n d a u last used)
              (serve_requests-Yields fuel n d a u avail (u16 (last + 1)) (u16 (used + 1)))).yields
            b w);
  }
]

run_queue-Yields : (queue_idx : ℕ) → Yields BusWords Anything (run_queue queue_idx)
unfolding run_queue insert_idx
run_queue-Yields queue_idx =
    bind-Yields BusWords Anything Anything _ _
      (gets-Yields BusWords Anything (λ b. b.cells.virtio) (λ b w. tt))
      (λ v _.
        bind-Yields BusWords IsWord Anything _ _ (read-Yields (add64 v.avail_addr 2) 2) (λ avail _.
          bind-Yields BusWords IsWord Anything _ _ (read-Yields (add64 v.used_addr 2) 2) (λ used _.
            bind-Yields BusWords Anything Anything
              (serve_requests Queue.queue_fuel v.queue_num v.desc_addr v.avail_addr v.used_addr
                (u16 avail)
                (Queue.initial_last (Queue.lookup_idx v.last_avail_idx queue_idx) (u16 used))
                (u16 used))
              _
              (serve_requests-Yields Queue.queue_fuel v.queue_num v.desc_addr v.avail_addr
                v.used_addr (u16 avail)
                (Queue.initial_last (Queue.lookup_idx v.last_avail_idx queue_idx) (u16 used))
                (u16 used))
              (λ last _.
                set_device-Yields
                  (λ v. record v {
                    last_avail_idx = insert_idx queue_idx last v.last_avail_idx;
                    interrupt_status = bit_or v.interrupt_status 1;
                  })
                  (λ v w. record {
                    disk = w.disk;
                    features = w.features;
                    ready = w.ready;
                    interrupt = bit_or-lt 64 v.interrupt_status 1 w.interrupt (omega arith);
                    status = w.status;
                  })))))

process_queue-Yields : (queue_idx : ℕ) → Yields BusWords Anything (process_queue queue_idx)
unfolding process_queue
process_queue-Yields queue_idx =
    if_state-Yields BusWords Anything _ _ _ (pure-Yields BusWords Anything tt tt)
      (run_queue-Yields queue_idx)

write_register-words :
    (address value : ℕ) (v : VirtioBlk) → DiskWords v → DiskWords (write_register address value v)
unfolding write_register set_status
write_register-words address value v w = record {
  disk = λ i. ground (arith, w.disk i);
  features = ground (arith, w.features);
  ready = ground (arith, w.ready);
  interrupt =
      ground
        (arith, w.interrupt, bit_and-lt 64 v.interrupt_status (inv 32 (u32 value)) w.interrupt);
  status = ground (arith, w.status);
}

pub queue_write-Yields :
    (address size value : ℕ) → Yields BusWords Anything (Queue.write address size value)
unfolding Queue.write
queue_write-Yields address size value =
    if_state-Yields BusWords Anything (λ b. size != 4) (fail virtio_size)
      (λ b.
        if address == 0x050
        then process_queue (u32 value) b
        else modify (set_device (write_register address value)) b)
      (fail-Yields BusWords Anything virtio_size)
      (if_state-Yields BusWords Anything (λ b. address == 0x050) (process_queue (u32 value))
        (modify (set_device (write_register address value))) (process_queue-Yields (u32 value))
        (set_device-Yields _ (write_register-words address value)))
