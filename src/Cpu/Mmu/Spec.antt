-- ===== src/Cpu/Mmu/Spec.antt =====
-- Translation with no TLB: every access walks the page table. This is what rv64rs/src/mmu.rs says
-- its TLB must not be told apart from.
use riscvm.Base.{ℕ, ◌≡◌, if◌then◌else◌, ◌==◌, ◌!=◌, bit_and, shr}
use riscvm.Base.{some, Outcome, ok, err, panic, timeout, unsupported_satp, permission_denied}
use riscvm.Bus.State.{Bus}
use riscvm.Cpu.Tlb
use riscvm.Cpu.Tlb.{Tlb}
use riscvm.Cpu.State.{Hart, get, satp}
use riscvm.Cpu.Mmu.{
  Access, mode_bare, mode_sv39, required, walk, root, leaf_ppn, physical, perm_bits,
}

-- The address that a leaf gives.
unfoldable pub resolve : ℕ → Access → ℕ × ℕ → Outcome ℕ
resolve va access (pte, level) =
    if bit_and pte (required access) == 0
    then err permission_denied
    else elim (leaf_ppn va pte level) [
      | ok ppn ↦ ok (physical ppn va)
      | err e ↦ err e
      | panic ↦ panic
      | timeout ↦ timeout
    ]

unfoldable pub resolve_walk : ℕ → Access → Outcome (ℕ × ℕ) → Outcome ℕ
resolve_walk va access (ok leaf) = resolve va access leaf
resolve_walk va access (err e) = err e
resolve_walk va access panic = panic
resolve_walk va access timeout = timeout

unfoldable pub translate_spec : ℕ → Access → Hart → Outcome ℕ
translate_spec va access h =
    let table = get h.cpu.csrs satp in
    if shr 64 table 60 == mode_bare
    then ok va
    else if shr 64 table 60 != mode_sv39
    then err unsupported_satp
    else resolve_walk va access (walk va 3 (root table) h.bus).0

-- Each entry that the TLB would return for an address is the one that a walk finds.
pub record IsLeafOf (table : ℕ) (bus : Bus) (va ppn perm : ℕ) : Type 0 where
  pub pte : ℕ
  pub level : ℕ
  pub walked : (walk va 3 (root table) bus).0 ≡ ok (pte, level)
  pub page : leaf_ppn va pte level ≡ ok ppn
  pub bits : perm_bits pte ≡ perm

abbrev pub IsCoherent : ℕ → Bus → Tlb → Type 0
IsCoherent table bus tlb =
    (va ppn perm : ℕ)
    → Tlb.lookup tlb (shr 64 va 12) ≡ some (ppn, perm)
    → IsLeafOf table bus va ppn perm
