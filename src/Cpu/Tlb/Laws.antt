-- ===== src/Cpu/Tlb/Laws.antt =====
-- Lookups in the TLB of rv64rs/src/mmu.rs after an insertion and after a flush.
use riscvm.Base.{ℕ, ◌≡◌, refl, arith, if◌then◌else◌, ◌==◌, none, some}
use riscvm.Cpu.Tlb.{Tlb, slot, lookup, insert, flush, new}

-- A lookup after an insertion finds the new entry for its own page, nothing for the other pages
-- of its slot, and what it found before for every other page.
pub lookup-insert :
    (t : Tlb) (v p m v' : ℕ)
    → lookup (insert t v p m) v'
      ≡ (if v == v' then some (p, m) else if slot v' == slot v then none else lookup t v')
unfolding lookup insert slot
lookup-insert t v p m v' = ground arith

pub lookup-flush : (t : Tlb) (v : ℕ) → lookup (flush t) v ≡ none
unfolding lookup flush
lookup-flush t v = refl

pub lookup-new : (v : ℕ) → lookup new v ≡ none
unfolding lookup new
lookup-new v = refl
