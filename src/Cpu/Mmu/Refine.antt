-- ===== src/Cpu/Mmu/Refine.antt =====
-- Translation through a coherent TLB of rv64rs/src/mmu.rs, and the walk on every access. Coherence
-- is assumed here; a store to a table whose entries are cached breaks it until SFENCE.VMA.
use mathlib.Core.Path.{subst, subst₂}
use riscvm.Base.{ℕ, ◌<◌, ◌≡◌, refl, sym, ap, ◌∙◌, arith, ==→eq}
use riscvm.Base.{false, Bool-cases, if◌then◌else◌, ◌==◌, ◌!=◌, bit_and, shr, next}
use riscvm.Base.{none, some, Option-cases, Outcome, ok, err, panic, timeout, inl, inr}
use riscvm.Base.Bits.{bit_and_assoc}
use riscvm.Bus.State.{Bus}
use riscvm.Cpu.Tlb
use riscvm.Cpu.Tlb.{Tlb}
use riscvm.Cpu.State.{Hart, get, satp, on_bus}
use riscvm.Cpu.Mmu.{Access, read_access, write_access, fetch_access, mode_bare, mode_sv39}
use riscvm.Cpu.Mmu.{required, walk, root, leaf_ppn, perm_bits, finish, translate}
use riscvm.Cpu.Mmu.{translate_paged, translate_hit, translate_miss}
use riscvm.Cpu.Mmu.Spec.{resolve, resolve_walk, translate_spec, IsLeafOf, IsCoherent}
use riscvm.Cpu.Tlb.Laws.{lookup-insert}
use riscvm.Cpu.Mmu.Walk.{SamePage, walk-SamePage, walk-keeps, leaf_ppn-SamePage, walk-LeafBelow}

-- The cached permission bits answer for the entry.
perm_bits-required :
    (access : Access) (pte : ℕ)
    → bit_and (perm_bits pte) (required access) ≡ bit_and pte (required access)
unfolding perm_bits required
perm_bits-required read_access pte = bit_and_assoc pte 14 2
perm_bits-required write_access pte = bit_and_assoc pte 14 4
perm_bits-required fetch_access pte = bit_and_assoc pte 14 8

-- What a translation may do: the result is that of a walk, and only the TLB changes, which stays
-- coherent.
abbrev pub Refines : ℕ → Access → Hart → Outcome ℕ × Hart → Type 0
Refines va access h x =
    (x.0 ≡ translate_spec va access h)
    × (x.1.bus ≡ h.bus)
    × (x.1.cpu ≡ record (h.cpu) { tlb = x.1.cpu.tlb })
    × IsCoherent (get h.cpu.csrs satp) h.bus x.1.cpu.tlb

hit_lem :
    (va : ℕ) (access : Access) (h : Hart) (ppn perm : ℕ)
    → IsLeafOf (get h.cpu.csrs satp) h.bus va ppn perm
    → translate_hit va access (ppn, perm)
      ≡ resolve_walk va access (walk va 3 (root (get h.cpu.csrs satp)) h.bus).0
unfolding translate_hit resolve_walk resolve
hit_lem va access h ppn perm leaf =
    rw (leaf.walked, ← leaf.bits, perm_bits-required access leaf.pte, leaf.page)

leaf-SamePage :
    (table : ℕ) (bus : Bus) (va va' ppn perm : ℕ)
    → SamePage va va'
    → IsLeafOf table bus va ppn perm
    → IsLeafOf table bus va' ppn perm
leaf-SamePage table bus va va' ppn perm e leaf = record {
  pte = leaf.pte;
  level = leaf.level;
  walked =
      ap (λ w. (w (root table) bus).0) (sym (walk-SamePage va va' 3 (omega arith) e)) ∙ leaf.walked;
  page = sym (leaf_ppn-SamePage va va' leaf.pte leaf.level (omega (arith, bound)) e) ∙ leaf.page;
  bits = leaf.bits;
}
  where
    bound : leaf.level < 3
    bound = walk-LeafBelow va 3 (root table) bus leaf.pte leaf.level leaf.walked

insert-IsCoherent :
    (table : ℕ) (bus : Bus) (tlb : Tlb) (va ppn perm : ℕ)
    → IsCoherent table bus tlb
    → IsLeafOf table bus va ppn perm
    → IsCoherent table bus (Tlb.insert tlb (shr 64 va 12) ppn perm)
insert-IsCoherent table bus tlb va ppn perm coherent leaf va' ppn' perm' e =
    elim (Bool-cases (shr 64 va 12 == shr 64 va' 12)) [
      | inl same ↦
          subst₂ (IsLeafOf table bus va') (cc (rw same at found)) (cc (rw same at found))
            (leaf-SamePage table bus va va' ppn perm (==→eq _ _ same) leaf)
      | inr other ↦ coherent va' ppn' perm' (ground (arith, found))
    ]
  where
    found :
        (if shr 64 va 12 == shr 64 va' 12
          then some (ppn, perm)
          else if Tlb.slot (shr 64 va' 12) == Tlb.slot (shr 64 va 12)
          then none
          else Tlb.lookup tlb (shr 64 va' 12))
        ≡ some (ppn', perm')
    found = sym (lookup-insert tlb (shr 64 va 12) ppn perm (shr 64 va' 12)) ∙ e

-- What `finish` makes of the leaf that the walk found.
abbrev FinishRefines : ℕ → Access → Hart → ℕ × ℕ → Outcome ℕ × Hart → Type 0
FinishRefines va access h leaf x =
    (x.0 ≡ resolve va access leaf)
    × (x.1.bus ≡ h.bus)
    × (x.1.cpu ≡ record (h.cpu) { tlb = x.1.cpu.tlb })
    × IsCoherent (get h.cpu.csrs satp) h.bus x.1.cpu.tlb

module _ (va : ℕ) (access : Access) (h : Hart) (pte level : ℕ)
    (coherent : IsCoherent (get h.cpu.csrs satp) h.bus h.cpu.tlb)
    (walked : (walk va 3 (root (get h.cpu.csrs satp)) h.bus).0 ≡ ok (pte, level)) where
  finish_allowed :
      (bit_and pte (required access) == 0) ≡ false
      → (r : Outcome ℕ) → leaf_ppn va pte level ≡ r
      → FinishRefines va access h (pte, level) (finish va access (pte, level) h)
  unfolding finish resolve
  finish_allowed allowed (ok ppn) e =
      rw (allowed, e, finish, resolve)
        (
          refl,
          refl,
          refl,
          insert-IsCoherent _ h.bus h.cpu.tlb va ppn (perm_bits pte) coherent
              (record { pte = pte; level = level; walked = walked; page = e; bits = refl }),
        )
  finish_allowed allowed (err x) e = rw (allowed, e, finish, resolve) (refl, refl, refl, coherent)
  finish_allowed allowed panic e = rw (allowed, e, finish, resolve) (refl, refl, refl, coherent)
  finish_allowed allowed timeout e = rw (allowed, e, finish, resolve) (refl, refl, refl, coherent)

  finish_refines : FinishRefines va access h (pte, level) (finish va access (pte, level) h)
  unfolding finish resolve
  finish_refines = elim (Bool-cases (bit_and pte (required access) == 0)) [
    | inl denied ↦ rw (denied, finish, resolve) (refl, refl, refl, coherent)
    | inr allowed ↦ finish_allowed allowed (leaf_ppn va pte level) refl
  ]

module _ (va : ℕ) (access : Access) (h : Hart)
    (coherent : IsCoherent (get h.cpu.csrs satp) h.bus h.cpu.tlb) where
  walk_result : Outcome (ℕ × ℕ)
  walk_result = (walk va 3 (root (get h.cpu.csrs satp)) h.bus).0

  -- The walk itself leaves the hart as it is.
  on_bus-walk : on_bus (walk va 3 (root (get h.cpu.csrs satp))) h ≡ (walk_result, h)
  unfolding on_bus walk_result
  on_bus-walk = λ i. (
    (walk va 3 (root (get h.cpu.csrs satp)) h.bus).0,
    record h { bus = walk-keeps va 3 (root (get h.cpu.csrs satp)) h.bus i },
  )

  abbrev WalkRefines : Outcome (ℕ × ℕ) → Outcome ℕ × Hart → Type 0
  WalkRefines r x =
      (x.0 ≡ resolve_walk va access r)
      × (x.1.bus ≡ h.bus)
      × (x.1.cpu ≡ record (h.cpu) { tlb = x.1.cpu.tlb })
      × IsCoherent (get h.cpu.csrs satp) h.bus x.1.cpu.tlb

  after_walk :
      (r : Outcome (ℕ × ℕ))
      → (walk va 3 (root (get h.cpu.csrs satp)) h.bus).0 ≡ r
      → WalkRefines r (next (finish va access) (r, h))
  unfolding resolve_walk
  after_walk (ok (pte, level)) e = finish_refines va access h pte level coherent e
  after_walk (err x) e = (refl, refl, refl, coherent)
  after_walk panic e = (refl, refl, refl, coherent)
  after_walk timeout e = (refl, refl, refl, coherent)

  miss_refines : WalkRefines walk_result (translate_miss va access (get h.cpu.csrs satp) h)
  unfolding translate_miss walk_result
  miss_refines =
      subst (λ x. WalkRefines walk_result (next (finish va access) x)) (sym on_bus-walk)
        (after_walk walk_result refl)

  paged_refines : WalkRefines walk_result (elim (Tlb.lookup h.cpu.tlb (shr 64 va 12)) [
    | some entry ↦ (translate_hit va access entry, h)
    | none ↦ translate_miss va access (get h.cpu.csrs satp) h
  ])
  unfolding walk_result
  paged_refines = elim (Option-cases (Tlb.lookup h.cpu.tlb (shr 64 va 12))) [
    | inl miss ↦ rw miss miss_refines
    | inr ((ppn, perm), hit) ↦
        rw hit (hit_lem va access h ppn perm (coherent va ppn perm hit), refl, refl, coherent)
  ]

  -- With a coherent TLB, translate returns exactly what a walk of the page table returns, faults
  -- included, changes no memory, device or hart state but the TLB, and leaves the TLB coherent.
  pub translate-Refines : Refines va access h (translate va access h)
  unfolding translate translate_paged translate_spec walk_result
  translate-Refines = elim (Bool-cases (shr 64 (get h.cpu.csrs satp) 60 == mode_bare)) [
    | inl bare ↦ rw (bare, translate, translate_spec) (refl, refl, refl, coherent)
    | inr paged ↦ elim (Bool-cases (shr 64 (get h.cpu.csrs satp) 60 != mode_sv39)) [
      | inl unsupported ↦
          rw (paged, unsupported, translate, translate_paged, translate_spec)
            (refl, refl, refl, coherent)
      | inr sv39 ↦ rw (paged, sv39, translate, translate_paged, translate_spec) paged_refines
    ]
  ]
