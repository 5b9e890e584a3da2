-- ===== src/Device/Clint/Laws.antt =====
-- The timer of rv64rs/src/clint.rs over time, and its registers.
use riscvm.Base.{ℕ, zero, suc, ◌+◌, ◌-◌, ◌*◌, ◌^◌, ◌<◌, ◌≡◌, refl, ap, ◌∙◌, arith, leb}
use riscvm.Base.{length, get_elem?, get_elem?-set_self, length-set, set, some, ok}
use riscvm.Device.Clint.{Clint, tick, pending, read, write, mtimecmp_offset, slot}

-- So many ticks.
abbrev pub ticks : ℕ → Clint → Clint
ticks zero c = c
ticks (suc n) c = ticks n (tick c)

ticks_lem : (n : ℕ) (c : Clint) → c.mtime + n < 2 ^ 64 → (ticks n c).mtime ≡ c.mtime + n
unfolding tick
ticks_lem zero c l = omega arith
ticks_lem (suc n) c l = ticks_lem n (tick c) (omega (arith, l)) ∙ omega (arith, l)

ticks_slots : (n : ℕ) (c : Clint) → (ticks n c).mtimecmp ≡ c.mtimecmp
unfolding tick
ticks_slots zero c = refl
ticks_slots (suc n) c = ticks_slots n (tick c)

-- After n ticks that do not wrap mtime, the timer line of a hart that has a slot is raised
-- exactly where n is at least what its compare register was ahead of mtime; so it is raised in
-- the end, and stays raised until mtime wraps.
pub pending-ticks :
    (n t hart : ℕ) (c : Clint)
    → get_elem? c.mtimecmp hart ≡ some t
    → c.mtime + n < 2 ^ 64
    → pending (ticks n c) hart ≡ ok (leb (t - c.mtime) n)
unfolding pending
pending-ticks n t hart c e l =
    rw (pending, ticks_slots n c, e, ticks_lem n c l) (ap ok (ground arith))

write-slot :
    (hart v : ℕ) (c : Clint)
    → hart < length c.mtimecmp
    → length c.mtimecmp < 4096
    → write (mtimecmp_offset + 8 * hart) 8 v c
      ≡ (ok tt, record c { mtimecmp = set c.mtimecmp hart v })
unfolding write
write-slot hart v c l m =
    let at : slot (mtimecmp_offset + 8 * hart) ≡ hart = omega arith in rw at (ground (arith, l, m))

read-slot :
    (hart v : ℕ) (c : Clint)
    → length c.mtimecmp < 4096
    → get_elem? c.mtimecmp hart ≡ some v
    → hart < length c.mtimecmp
    → read (mtimecmp_offset + 8 * hart) 8 c ≡ (ok v, c)
unfolding read
read-slot hart v c m e l =
    let at : slot (mtimecmp_offset + 8 * hart) ≡ hart = omega arith in
    rw (at, e) (ground (arith, l, m))

-- The compare register of a hart that has a slot, of fewer than 4096 slots, reads back what was
-- written to it as 8 bytes; the write changes nothing else, and the read nothing.
pub read-write_slot :
    (hart v : ℕ) (c : Clint)
    → hart < length c.mtimecmp
    → length c.mtimecmp < 4096
    → let c' = (write (mtimecmp_offset + 8 * hart) 8 v c).1 in
      (read (mtimecmp_offset + 8 * hart) 8 c' ≡ (ok v, c'))
      × (c' ≡ record c { mtimecmp = set c.mtimecmp hart v })
read-write_slot hart v c l m =
    let same = length-set c.mtimecmp hart v in
    rw (write-slot hart v c l m) (
      read-slot hart v (record c { mtimecmp = set c.mtimecmp hart v }) (omega (arith, same, m))
          (get_elem?-set_self c.mtimecmp hart v l) (omega (arith, same, l)),
      refl,
    )
