-- ===== src/Cpu/Tlb.antt =====
-- `Tlb` of rv64rs/src/mmu.rs: direct-mapped, 256 entries.
pub mod Laws
use riscvm.Base.{ℕ, ◌%◌, ◌^◌, Bool, true, false, ◌&&◌, if◌then◌else◌, ◌==◌, Option, none, some}

pub record TlbEntry : Type 0 where
  pub valid : Bool
  pub vpn : ℕ
  pub ppn : ℕ
  pub perm : ℕ

abbrev pub tlb_entries : ℕ
tlb_entries = 256

abbrev pub Tlb : Type 0
Tlb = ℕ → TlbEntry

unfoldable pub new : Tlb
new = λ _. record { valid = false; vpn = 0; ppn = 0; perm = 0 }

unfoldable pub slot : ℕ → ℕ
slot vpn = vpn % tlb_entries

unfoldable pub lookup : Tlb → ℕ → Option (ℕ × ℕ)
unfolding slot
lookup t vpn =
    let e = t (slot vpn) in if e.valid && (e.vpn == vpn) then some (e.ppn, e.perm) else none

unfoldable pub insert : Tlb → ℕ → ℕ → ℕ → Tlb
unfolding slot
insert t vpn ppn perm i =
    if i == slot vpn then record { valid = true; vpn = vpn; ppn = ppn; perm = perm } else t i

unfoldable pub flush : Tlb → Tlb
flush t i = record (t i) { valid = false }
