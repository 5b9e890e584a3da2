-- ===== src/Cpu/Trap/Laws.antt =====
-- The CSR views and the return from a trap of rv64rs/src/trap.rs.
use riscvm.Base.{ℕ, zero, suc, ◌-◌, ◌/◌, ◌^◌, ◌<◌, ◌≡◌, ap, ◌∙◌, arith, inl, inr}
use riscvm.Base.{bit_and, inv, shr}
use riscvm.Base.Bits.{bit, bit-and, bit-or, bit-lt, bit_ext, bit_and-lt, bit_and-le_right}
use riscvm.Cpu.Tlb.Laws.{lookup-flush}
use riscvm.Cpu.State.{Cpu, Hart, get, insert, satp, sstatus, mstatus}
use riscvm.Cpu.Trap.{csr_read, csr_write, merge, aliased_target, sstatus_mask, sie_mask, sip_mask}
use riscvm.Base.{some, none, ◌⊎◌}
use riscvm.Cpu.State.{sie, mie, sip, mip}
use riscvm.Cpu.Mmu.Spec.{translate_spec}
use riscvm.Cpu.Mmu.{Access, translate}
use riscvm.Cpu.Mmu.Refine.{translate-Refines}
use riscvm.Cpu.Tlb
use native.Mathlib.Nat.{pow-suc, le_refl}

pub bit-inv : (w i x : ℕ) → x < 2 ^ w → i < w → bit (2 ^ w - 1 - x) i ≡ 1 - bit x i
bit-inv zero i x h k = absurd (omega arith)
bit-inv (suc w) zero x h k = omega (arith, pow-suc 2 w)
bit-inv (suc w) (suc i) x h k =
    ap (λ t. bit t i) half ∙ bit-inv w i (x / 2) (omega (arith, pow-suc 2 w)) (omega arith)
  where
    half : (2 ^ suc w - 1 - x) / 2 ≡ 2 ^ w - 1 - x / 2
    half = omega (arith, pow-suc 2 w)

-- A merge takes the bits under the mask from the value and the others from the base.
pub merge-inside :
    (base mask value : ℕ)
    → base < 2 ^ 64
    → mask < 2 ^ 64
    → value < 2 ^ 64
    → bit_and (merge base mask value) mask ≡ bit_and value mask
unfolding merge
merge-inside base mask value hb hm hv =
    bit_ext 64 _ _ (omega (arith, bit_and-le_right _ (merge base mask value) mask (le_refl _)))
      (bit_and-lt 64 value mask hv)
      (λ i l. omega (
        arith,
        bit-and i (merge base mask value) mask,
        bit-or i (bit_and base (inv 64 mask)) (bit_and value mask),
        bit-and i base (inv 64 mask),
        bit-and i value mask,
        bit-inv 64 i mask hm l,
        bit-lt i mask,
      ))

merge-outside :
    (base mask value : ℕ)
    → base < 2 ^ 64
    → mask < 2 ^ 64
    → bit_and (merge base mask value) (inv 64 mask) ≡ bit_and base (inv 64 mask)
unfolding merge
merge-outside base mask value hb hm =
    bit_ext 64 _ _
      (omega (arith, bit_and-le_right _ (merge base mask value) (inv 64 mask) (le_refl _)))
      (bit_and-lt 64 base (inv 64 mask) hb)
      (λ i l. omega (
        arith,
        bit-and i (merge base mask value) (inv 64 mask),
        bit-or i (bit_and base (inv 64 mask)) (bit_and value mask),
        bit-and i base (inv 64 mask),
        bit-and i value mask,
        bit-inv 64 i mask hm l,
        bit-lt i mask,
      ))

aliased_target-cases :
    (addr base mask : ℕ)
    → aliased_target addr ≡ some (base, mask)
    → ((addr ≡ sstatus) × (base ≡ mstatus) × (mask ≡ sstatus_mask))
      ⊎ ((addr ≡ sie) × (base ≡ mie) × (mask ≡ sie_mask))
      ⊎ ((addr ≡ sip) × (base ≡ mip) × (mask ≡ sip_mask))
unfolding aliased_target
aliased_target-cases addr base mask h = grind arith

-- What a write of a view leaves: the view and the rest of the register under it.
abbrev pub ViewWritten : ℕ → ℕ → ℕ → ℕ → Cpu → Type 0
ViewWritten addr base mask value c =
    (csr_read (csr_write addr value c) addr ≡ bit_and value mask)
    × (bit_and (get (csr_write addr value c).csrs base) (inv 64 mask)
        ≡ bit_and (get c.csrs base) (inv 64 mask))

-- A supervisor view of a machine CSR reads back what was written under its mask, and the bits of
-- the machine register outside of the mask are left alone.
pub csr_read-csr_write :
    (addr base mask value : ℕ) (c : Cpu)
    → aliased_target addr ≡ some (base, mask)
    → get c.csrs base < 2 ^ 64
    → value < 2 ^ 64
    → ViewWritten addr base mask value c
unfolding csr_read csr_write insert get
csr_read-csr_write addr base mask value c h hb hv = elim (aliased_target-cases addr base mask h) [
  | inl (p, q, r) ↦
      rw (p, q, r)
        (
          merge-inside (get c.csrs mstatus) sstatus_mask value (rw q at hb) (omega arith) hv,
          merge-outside (get c.csrs mstatus) sstatus_mask value (rw q at hb) (omega arith),
        )
  | inr (inl (p, q, r)) ↦
      rw (p, q, r)
        (
          merge-inside (get c.csrs mie) sie_mask value (rw q at hb) (omega arith) hv,
          merge-outside (get c.csrs mie) sie_mask value (rw q at hb) (omega arith),
        )
  | inr (inr (p, q, r)) ↦
      rw (p, q, r)
        (
          merge-inside (get c.csrs mip) sip_mask value (rw q at hb) (omega arith) hv,
          merge-outside (get c.csrs mip) sip_mask value (rw q at hb) (omega arith),
        )
]

flushed : (value : ℕ) (c : Cpu) (v : ℕ) → Tlb.lookup (csr_write satp value c).tlb v ≡ none
unfolding csr_write
flushed value c v = lookup-flush c.tlb v

-- Right after satp is written, whatever the TLB held before, a translation returns exactly what
-- a walk of the new page table returns.
pub translate-csr_write :
    (va : ℕ) (access : Access) (value : ℕ) (h : Hart)
    → let switched = record h { cpu = csr_write satp value h.cpu } in
      (translate va access switched).0 ≡ translate_spec va access switched
translate-csr_write va access value h =
    (translate-Refines va access (record h { cpu = csr_write satp value h.cpu })
      (λ w ppn perm hit. absurd (cc (flushed value h.cpu (shr 64 w 12), hit)))).0
