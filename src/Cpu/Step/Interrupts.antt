-- ===== src/Cpu/Step/Interrupts.antt =====
-- `check_interrupt` of rv64rs/src/trap.rs over a bus at rest: no panic, and no error.
use riscvm.Base.{
  ap, ◌∙◌, ℕ, ◌<◌, ◌≡◌, refl, arith, inl, inr, Bool, true, false, Bool-cases, if◌then◌else◌,
}
use riscvm.Base.{
  Option-cases, Outcome, ok, err, panic, timeout, ◌>>=◌, pure, lift, get_elem?, length,
}
use riscvm.Base.{List, [], ◌∷◌, some, bit_and, zero, suc, add64, ◌*◌, ◌%◌, ◌^◌}
use riscvm.Base.Keeps.{Ending, returned, ending, Keeps, bind-Keeps, then-Keeps, gets-Keeps}
use riscvm.Device.Clint
use riscvm.Device.Plic
use riscvm.Bus.State.{Bus, Cells, uart_line, virtio_line}
use riscvm.Bus.Fit.{Shape, IsFit, lines}
use riscvm.Cpu.State.{Cpu, Hart, get, insert, on_cpu, mie, mip}
use riscvm.Cpu.Trap.{
  check_interrupt, sample_clint, sample_plic, deliver, select, priority, take_trap,
}
use riscvm.Cpu.Trap.{raise_trap, delegated}

-- The call returned, on a hart of number `n` whose bus is `b`.
abbrev Checked : ℕ → Bus → Ending → Hart → Type 0
Checked n b e h = (e ≡ returned) × (h.cpu.hartid ≡ n) × (h.bus ≡ b)

in_range : (xs : List ℕ) (i : ℕ) → i < length xs → (x : ℕ) × (get_elem? xs i ≡ some x)
in_range [] i l = absurd (omega arith)
in_range (x ∷ xs) zero l = (x, refl)
in_range (x ∷ xs) (suc i) l = in_range xs i (omega arith)

pending_lem :
    (c : Clint.Clint) (hart : ℕ)
    → hart < length c.mtimecmp
    → ending (Clint.pending c hart) ≡ returned
unfolding Clint.pending
pending_lem c hart l = let (t, e) = in_range c.mtimecmp hart l in rw (e, Clint.pending, ending) refl

claimable_lem :
    (c : Cells) (p : Plic.Plic Cells) (context : ℕ)
    → p.devices_by_irq ≡ lines
    → c.virtio_borrowed ≡ false
    → ending (Plic.claimable c p context) ≡ returned
unfolding Plic.claimable Plic.claim_irq Plic.pending_mask Plic.gather uart_line virtio_line
claimable_lem c p context e free = rw (e, free) (ground arith)

module _ (n : ℕ) (b : Bus) (number : n < length b.cells.clint.mtimecmp)
    (wired : b.plic_cell.devices_by_irq ≡ lines) (free : b.cells.virtio_borrowed ≡ false) where
  -- A sample of a line that can be read.
  line-Checked :
      {A B : Type 0} (r : Outcome A) (f : A → B) (flag : Bool) (other : B) (h : Hart)
      → ending r ≡ returned
      → Checked n b returned h
      → let x : Outcome B × Hart =
          (if flag then (lift r >>= (λ line. pure (f line))) h else (ok other, h)) in
        Checked n b (ending x.0) x.1
  line-Checked (ok a) f true other h e p = p
  line-Checked (err a) f true other h e p = absurd (cc e)
  line-Checked panic f true other h e p = absurd (cc e)
  line-Checked timeout f true other h e p = absurd (cc e)
  line-Checked r f false other h e p = p

  sample_clint-Checked : (word : ℕ) → Keeps (Checked n b) (sample_clint word)
  unfolding sample_clint
  sample_clint-Checked word = record {
    keeps = λ h p.
        line-Checked (Clint.pending h.bus.cells.clint h.cpu.hartid) _ h.cpu.clint word h
          (pending_lem h.bus.cells.clint h.cpu.hartid (rw (p.1, p.2) number)) p;
  }

  sample_plic-Checked : (word : ℕ) → Keeps (Checked n b) (sample_plic word)
  unfolding sample_plic
  sample_plic-Checked word = record {
    keeps = λ h p.
        line-Checked (Plic.claimable h.bus.cells h.bus.plic_cell _) _ h.cpu.plic word h
          (claimable_lem h.bus.cells h.bus.plic_cell (add64 (2 * h.cpu.hartid % 2 ^ 64) 1)
            (rw p.2 wired) (rw p.2 free))
          p;
  }

  raise_trap-hartid :
      (cause tval : ℕ) (t : Bool) (c : Cpu) → (raise_trap cause t tval c).1.hartid ≡ c.hartid
  unfolding raise_trap
  raise_trap-hartid cause tval t c = elim (Bool-cases (delegated t cause c)) [
    | inl d ↦ rw (raise_trap, d) refl
    | inr d ↦ rw (raise_trap, d) refl
  ]

  deliver-Checked : (word : ℕ) → Keeps (Checked n b) (deliver word)
  unfolding deliver take_trap
  deliver-Checked word = record {
    keeps = λ h (_, i, e).
        elim (Option-cases (select (bit_and word (get h.cpu.csrs mie)) priority h.cpu)) [
          | inl no_trap ↦ rw (deliver, no_trap) (refl, i, e)
          | inr (cause, trap) ↦
              rw (deliver, trap) (refl, raise_trap-hartid cause 0 true h.cpu ∙ i, e)
        ];
  }

  mip-Checked :
      (v : ℕ) → Keeps (Checked n b) (on_cpu (λ cpu. record cpu { csrs = insert cpu.csrs mip v }))
  unfolding on_cpu
  mip-Checked v = record { keeps = λ h p. p }

  check-Checked : Keeps (Checked n b) check_interrupt
  unfolding check_interrupt
  check-Checked = bind-Keeps (Checked n b) _ _ (gets-Keeps (Checked n b) _) (λ word.
      bind-Keeps (Checked n b) _ _ (sample_clint-Checked word) (λ with_timer.
        bind-Keeps (Checked n b) _ _ (sample_plic-Checked with_timer) (λ with_external.
          then-Keeps (Checked n b) _ _ (mip-Checked with_external)
            (deliver-Checked with_external))))

-- Over a bus whose memory map and interrupt lines are those of the machine, with the disk not
-- borrowed and a timer slot for the hart, check_interrupt returns, with no panic and no error,
-- and leaves the bus as it was.
pub check_interrupt_lem :
    (s : Shape) (h : Hart)
    → IsFit s h.bus
    → s.borrowed ≡ false
    → h.cpu.hartid < s.timers
    → (ending (check_interrupt h).0 ≡ returned) × ((check_interrupt h).1.bus ≡ h.bus)
check_interrupt_lem s h f free number =
    let (ended, _, same) =
      (check-Checked h.cpu.hartid h.bus (rw (ap (λ (x : Shape). x.timers) f.same) number) f.wired
          (ap (λ (x : Shape). x.borrowed) f.same ∙ free)).keeps
        h (refl, refl, refl) in
    (ended, same)
