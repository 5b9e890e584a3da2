-- ===== src/Bus/Fit/Queue.antt =====
-- How the request queue of rv64rs/src/virtio.rs ends: a chain visits an index once at most, and the
-- index of the next request comes round to the driver's.
use riscvm.Base.{ℕ, zero, suc, ◌+◌, ◌-◌, ◌%◌, ◌^◌, ◌<◌, ◌≡◌, refl, arith}
use riscvm.Base.{Bool-cases, inl, inr, List, [], ◌∷◌}
use riscvm.Base.{◌==◌, ◌!=◌, modify, crash, u16}
use riscvm.Base.{bit_and, ltb, u32, add64}
use riscvm.Base.{bit_or}
use riscvm.Base.Keeps.{
  if_state-Keeps, bind_given-Keeps, Gives, then-Gives, Keeps, if-Keeps, bind-Keeps, then-Keeps,
  pure-Keeps, gets-Keeps,
}
use riscvm.Device.Ram.{Bytes}
use riscvm.Device.VirtioBlk.{VirtioBlk}
use riscvm.Base.{All, err}
use riscvm.Base.{virtio_size}
use riscvm.Base.Keeps.{fail-Keeps}
use riscvm.Bus.Fit.{Fit-errors, Indices, Shape, Fit}
use riscvm.Bus.Fit.Access.{read-Fit, write_with-Fit}
use riscvm.Bus.Fit.Unseen.{unseen, unseen-nil, unseen-cons}
use riscvm.Bus.Queue.{
  Descriptor, contains_idx, follow_chain, dma_write, copy_out, copy_in, set_device,
}
use riscvm.Bus.Queue.{device_read, device_write, serve, process_descriptor_chain, serve_requests}
use riscvm.Bus.Queue.{
  serve_one, write_register, set_status, insert_idx, grow, chain_fuel, queue_fuel, run_queue,
  process_queue, lookup_idx, initial_last, write,
}

-- When the requests are served the index is the driver's.
serve_requests-last :
    (fuel n d a u avail last used : ℕ)
    → Gives (λ l. l ≡ avail) (serve_requests fuel n d a u avail last used)
unfolding serve_requests
serve_requests-last zero n d a u avail last used = record { gives = λ b l h. absurd (cc h) }
serve_requests-last (suc fuel) n d a u avail last used = elim (Bool-cases (last == avail)) [
  | inl e ↦ record { gives = λ b l h. ground (arith, rw (serve_requests, e) at h) }
  | inr e ↦ record {
    gives = λ b l h.
        (then-Gives (λ x. x ≡ avail) (serve_one n d a u last used) _
            (serve_requests-last fuel n d a u avail (u16 (last + 1)) (u16 (used + 1)))).gives
          b l (rw (serve_requests, e) at h);
  }
]

initial_last-lt :
    (m : List (ℕ × ℕ)) (k used : ℕ)
    → All (λ (entry : ℕ × ℕ). entry.1 < 2 ^ 16) m
    → used < 2 ^ 16
    → initial_last (lookup_idx m k) used < 2 ^ 16
unfolding initial_last lookup_idx
initial_last-lt [] k used h l = l
initial_last-lt ((j, v) ∷ m) k used (h, hs) l = ground (arith, initial_last-lt m k used hs l)

ruleset blocks = (if-Keeps, bind-Keeps, then-Keeps, pure-Keeps, gets-Keeps)

module _ (s : Shape) where
  crash-Fit : {A : Type 0} → Keeps {A = A} (Fit s) crash
  crash-Fit = record { keeps = λ b (_, f). (refl, f) }

  dma_write-Fit : (a n v : ℕ) → Keeps (Fit s) (dma_write a n v)
  unfolding dma_write
  dma_write-Fit = write_with-Fit s (λ _ _ _. crash) (λ o n v. crash-Fit)

  set_device-Fit :
      (f : VirtioBlk → VirtioBlk)
      → ((v : VirtioBlk) → Indices v → Indices (f v))
      → Keeps (Fit s) (modify (set_device f))
  set_device-Fit f k = record {
    keeps = λ b (_, g).
        (refl, record { same = g.same; wired = g.wired; indices = k b.cells.virtio g.indices });
  }

  -- An update of the disk's contents.
  set_disk-Fit :
      (f : VirtioBlk → Bytes) → Keeps (Fit s) (modify (set_device (λ v. record v { disk = f v })))
  set_disk-Fit f = set_device-Fit (λ v. record v { disk = f v }) (λ v i. i)

  copy_out-Fit :
      (left : ℕ) (disk : Bytes) (offset data_addr : ℕ)
      → Keeps (Fit s) (copy_out left disk offset data_addr)
  unfolding copy_out
  copy_out-Fit zero disk offset data_addr = pure-Keeps (Fit s) tt
  copy_out-Fit (suc left) disk offset data_addr =
      then-Keeps (Fit s) _ _ (dma_write-Fit data_addr 1 _)
        (copy_out-Fit left disk (offset + 1) (add64 data_addr 1))

  copy_in-Fit : (left data_addr : ℕ) → Keeps (Fit s) (copy_in left data_addr)
  unfolding copy_in
  copy_in-Fit zero data_addr = pure-Keeps (Fit s) []
  copy_in-Fit (suc left) data_addr = bind-Keeps (Fit s) _ _ (read-Fit s data_addr 1) (λ x.
      bind-Keeps (Fit s) _ _ (copy_in-Fit left (add64 data_addr 1)) (λ xs. pure-Keeps (Fit s) _))

  follow_chain-Fit :
      (fuel desc_base : ℕ) (seen : List ℕ) (idx : ℕ) (descs : List Descriptor)
      → idx < 2 ^ 16
      → unseen (2 ^ 16) seen < fuel
      → Keeps (Fit s) (follow_chain fuel desc_base seen idx descs)
  unfolding follow_chain
  follow_chain-Fit zero desc_base seen idx descs h l = absurd (omega arith)
  follow_chain-Fit (suc fuel) desc_base seen idx descs h l =
      elim (Bool-cases (contains_idx seen idx)) [
        | inl e ↦ record { keeps = λ b p. rw (follow_chain, e) p }
        | inr e ↦ record {
          keeps = λ b p.
              rw (follow_chain, e)
                ((bind-Keeps (Fit s) _ _ (read-Fit s _ 8) (λ addr.
                    bind-Keeps (Fit s) _ _ (read-Fit s _ 4) (λ len.
                      bind-Keeps (Fit s) _ _ (read-Fit s _ 2) (λ flags.
                        bind-Keeps (Fit s) _ _ (read-Fit s _ 2) (λ nxt.
                          if-Keeps (Fit s) (bit_and (u16 flags) 1 != 0) _ _
                            (follow_chain-Fit fuel desc_base (idx ∷ seen) (u16 nxt) _ (omega arith)
                              (omega (arith, unseen-cons (2 ^ 16) idx seen h e)))
                            (pure-Keeps (Fit s) _)))))).keeps
                  b p);
        }
      ]

  device_read-Fit : (offset data_addr len : ℕ) → Keeps (Fit s) (device_read offset data_addr len)
  unfolding device_read
  device_read-Fit offset data_addr len =
      then-Keeps (Fit s) _ _ (set_disk-Fit (λ v. grow (add64 offset len) v.disk)) (
        bind-Keeps (Fit s) _ _ (gets-Keeps (Fit s) (λ b. b.cells.virtio.disk)) (λ disk.
          if-Keeps (Fit s) (ltb (add64 offset len) offset) _ _ crash-Fit
            (copy_out-Fit len disk offset data_addr)))

  device_write-Fit : (offset data_addr len : ℕ) → Keeps (Fit s) (device_write offset data_addr len)
  unfolding device_write
  device_write-Fit offset data_addr len =
      search (blocks, copy_in-Fit, set_disk-Fit, crash-Fit) depth 12

  serve-Fit : (descs : List Descriptor) → Keeps (Fit s) (serve descs)
  unfolding serve
  serve-Fit descs =
      search (blocks, read-Fit s, dma_write-Fit, device_read-Fit, device_write-Fit) depth 16

  process_descriptor_chain-Fit :
      (desc_base head : ℕ) → head < 2 ^ 16 → Keeps (Fit s) (process_descriptor_chain desc_base head)
  unfolding process_descriptor_chain
  process_descriptor_chain-Fit desc_base head h =
      bind-Keeps (Fit s) _ _
        (follow_chain-Fit chain_fuel desc_base [] head [] h (omega (arith, unseen-nil (2 ^ 16))))
        (λ descs. search (blocks, serve-Fit))

  serve_one-Fit : (n d a u last used : ℕ) → Keeps (Fit s) (serve_one n d a u last used)
  unfolding serve_one
  serve_one-Fit n d a u last used = bind-Keeps (Fit s) _ _ (read-Fit s _ 2) (λ ring.
      bind-Keeps (Fit s) _ _ (process_descriptor_chain-Fit d (u16 ring) (omega arith))
        (λ len. search (blocks, dma_write-Fit)))

  -- The requests that are left, counted round the 16-bit index.
  serve_requests-Fit :
      (fuel queue_num desc_base avail_base used_base avail_idx last used_idx : ℕ)
      → last < 2 ^ 16
      → avail_idx < 2 ^ 16
      → (avail_idx + 2 ^ 16 - last) % 2 ^ 16 < fuel
      → Keeps
          (Fit s)
          (serve_requests fuel queue_num desc_base avail_base used_base avail_idx last used_idx)
  unfolding serve_requests
  serve_requests-Fit zero n d a u avail last used hl ha l = absurd (omega arith)
  serve_requests-Fit (suc fuel) n d a u avail last used hl ha l =
      elim (Bool-cases (last == avail)) [
        | inl e ↦ record { keeps = λ b p. rw (serve_requests, e) p }
        | inr e ↦ record {
          keeps = λ b p.
              rw (serve_requests, e)
                ((then-Keeps (Fit s) (serve_one n d a u last used) _
                    (serve_one-Fit n d a u last used)
                    (serve_requests-Fit fuel n d a u avail (u16 (last + 1)) (u16 (used + 1))
                      (omega arith) ha (ground arith))).keeps
                  b p);
        }
      ]

  remember-Fit :
      (queue_idx last : ℕ)
      → last < 2 ^ 16
      → Keeps (Fit s) (
          modify (
            set_device (λ v. record v {
              last_avail_idx = insert_idx queue_idx last v.last_avail_idx;
              interrupt_status = bit_or v.interrupt_status 1;
            })))
  unfolding insert_idx
  remember-Fit queue_idx last l = set_device-Fit _ (λ v i. (l, i))

  run_queue-Fit : (queue_idx : ℕ) → Keeps (Fit s) (run_queue queue_idx)
  unfolding run_queue
  run_queue-Fit queue_idx = record {
    keeps = λ b (t, f).
        let v = b.cells.virtio in
        (bind-Keeps (Fit s) _ _ (read-Fit s (add64 v.avail_addr 2) 2) (λ avail.
            bind-Keeps (Fit s) _ _ (read-Fit s (add64 v.used_addr 2) 2) (λ used.
              bind_given-Keeps (Fit s) (λ l. l ≡ u16 avail) _ _
                (serve_requests-Fit queue_fuel v.queue_num v.desc_addr v.avail_addr v.used_addr
                  (u16 avail) (initial_last (lookup_idx v.last_avail_idx queue_idx) (u16 used))
                  (u16 used)
                  (initial_last-lt v.last_avail_idx queue_idx (u16 used) f.indices (omega arith))
                  (omega arith) (omega arith))
                (serve_requests-last queue_fuel _ _ _ _ _ _ _)
                (λ last e. remember-Fit queue_idx last (omega (arith, e)))))).keeps
          b (t, f);
  }

  process_queue-Fit : (queue_idx : ℕ) → Keeps (Fit s) (process_queue queue_idx)
  unfolding process_queue
  process_queue-Fit queue_idx =
      if_state-Keeps (Fit s) _ _ _ (pure-Keeps (Fit s) tt) (run_queue-Fit queue_idx)

  write_register-Indices :
      (address value : ℕ) (v : VirtioBlk) → Indices v → Indices (write_register address value v)
  unfolding write_register set_status
  write_register-Indices address value v i = ground (arith, i)

  pub write-Fit : (address size value : ℕ) → Keeps (Fit s) (write address size value)
  unfolding write
  write-Fit address size value =
      if_state-Keeps (Fit s) (λ b. size != 4) (λ b. (err virtio_size, b)) _
        (fail-Keeps (Fit s) (Fit-errors s) virtio_size)
        (if_state-Keeps (Fit s) (λ b. address == 0x050) _
          (modify (set_device (write_register address value))) (process_queue-Fit (u32 value))
          (set_device-Fit _ (write_register-Indices address value)))
