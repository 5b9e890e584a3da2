-- ===== src/Device/Plic.antt =====
-- rv64rs/src/plic.rs: the interrupt controller. A device's line is a closure over the cells that
-- the devices live in: here a function of the environment `E`, which may panic on a borrow.
pub mod Claim
pub mod Registers
use riscvm.Base.{ℕ, zero, suc, ◌+◌, ◌-◌, ◌*◌, ◌/◌, ◌%◌, ◌^◌, Bool, true, false, ◌&&◌, if◌then◌else◌}
use riscvm.Base.{ltb, leb, ◌==◌, ◌!=◌, List, [], ◌∷◌, ◌++◌, get_or, set, replicate, bit_and, bit_or}
use riscvm.Base.{Outcome, ok, err, panic, timeout, M, plic_size, u32, shl}

abbrev pub priority_end : ℕ
priority_end = 0x1000

abbrev pub enable_base : ℕ
enable_base = 0x2000

abbrev pub enable_end : ℕ
enable_end = 0x1f2000

abbrev pub enable_stride : ℕ
enable_stride = 0x80

abbrev pub context_base : ℕ
context_base = 0x200000

abbrev pub context_stride : ℕ
context_stride = 0x1000

abbrev pub threshold_offset : ℕ
threshold_offset = 0x0

abbrev pub claim_offset : ℕ
claim_offset = 0x4

abbrev pub max_irq : ℕ
max_irq = 32

abbrev pub max_contexts : ℕ
max_contexts = 64

pub record Plic (E : Type 0) : Type 0 where
  pub size : ℕ
  pub devices_by_irq : List (ℕ × (E → Outcome ℕ))
  pub priority : List ℕ
  pub enable : List ℕ
  pub threshold : List ℕ

-- The loop of `claim_irq` over the `left` interrupts from `irq` on.
unfoldable pub claim_loop : List ℕ → ℕ → ℕ → ℕ → ℕ → ℕ → ℕ
claim_loop priority candidates zero irq best_irq best_priority = best_irq
claim_loop priority candidates (suc left) irq best_irq best_priority =
    let better =
      bit_and candidates (shl 32 1 irq) != 0 && ltb best_priority (get_or priority irq 0) in
    claim_loop priority candidates left (irq + 1) (if better then irq else best_irq)
      (if better then get_or priority irq 0 else best_priority)

module _ {E : Type 0} where
  -- The loop of `pending_mask`.
  unfoldable pub gather : E → List (ℕ × (E → Outcome ℕ)) → ℕ → Outcome ℕ
  gather env [] mask = ok mask
  gather env ((irq, status) ∷ rest) mask = elim (status env) [
    | ok s ↦ gather env rest (if bit_and s 1 != 0 then bit_or mask (shl 32 1 irq) else mask)
    | err e ↦ err e
    | panic ↦ panic
    | timeout ↦ timeout
  ]

module _ {E : Type 0} where
  unfoldable pub enable_get : Plic E → ℕ → ℕ
  enable_get p context = get_or p.enable context 0

  unfoldable pub enable_set : Plic E → ℕ → ℕ → Plic E
  enable_set p context value = record p { enable = set p.enable context value }

  unfoldable pub threshold_get : Plic E → ℕ → ℕ
  threshold_get p context = get_or p.threshold context 0

  unfoldable pub threshold_set : Plic E → ℕ → ℕ → Plic E
  threshold_set p context value = record p { threshold = set p.threshold context value }

  unfoldable pub register_irq : ℕ → (E → Outcome ℕ) → Plic E → Plic E
  register_irq irq status p = record p { devices_by_irq = p.devices_by_irq ++ ((irq, status) ∷ []) }

  unfoldable pub pending_mask : E → Plic E → Outcome ℕ
  unfolding gather
  pending_mask env p = gather env p.devices_by_irq 0

  -- `claim_irq` with the lines already sampled.
  unfoldable pub best : Plic E → ℕ → ℕ → ℕ
  unfolding claim_loop
  best p pending context =
      claim_loop p.priority (bit_and pending (get_or p.enable context 0)) 31 1 0
        (get_or p.threshold context 0)

module _ {E : Type 0} where
  unfoldable pub claim_irq : E → Plic E → ℕ → Outcome ℕ
  unfolding pending_mask best
  claim_irq env p context = elim (pending_mask env p) [
    | ok pending ↦ ok (best p pending context)
    | err e ↦ err e
    | panic ↦ panic
    | timeout ↦ timeout
  ]

  unfoldable pub claimable : E → Plic E → ℕ → Outcome Bool
  unfolding claim_irq
  claimable env p context = elim (claim_irq env p context) [
    | ok irq ↦ ok (irq != 0)
    | err e ↦ err e
    | panic ↦ panic
    | timeout ↦ timeout
  ]

  unfoldable pub read_context : E → ℕ → Plic E → Outcome ℕ
  unfolding claim_irq threshold_get
  read_context env address p =
      let context = (address - context_base) / context_stride in
      let offset = (address - context_base) % context_stride in
      if offset == threshold_offset
      then ok (threshold_get p context)
      else if offset == claim_offset
      then claim_irq env p context
      else ok 0

  unfoldable pub read_word : E → ℕ → Plic E → Outcome ℕ
  unfolding read_context enable_get
  read_word env address p =
      if ltb address priority_end
      then ok (if ltb (address / 4) max_irq then get_or p.priority (address / 4) 0 else 0)
      else if leb enable_base address && ltb address enable_end
      then ok (enable_get p ((address - enable_base) / enable_stride))
      else if leb context_base address
      then read_context env address p
      else ok 0

  unfoldable pub read : E → ℕ → ℕ → Plic E → Outcome ℕ
  unfolding read_word
  read env address size p = if size != 4 then err plic_size else read_word env address p

  unfoldable pub write_word : ℕ → ℕ → Plic E → Plic E
  unfolding enable_set threshold_set
  write_word address value p =
      if ltb address priority_end
      then (if ltb (address / 4) max_irq
          then record p { priority = set p.priority (address / 4) value }
          else p)
      else if leb enable_base address && ltb address enable_end
      then enable_set p ((address - enable_base) / enable_stride) value
      else if leb context_base address
      then (if (address - context_base) % context_stride == threshold_offset
          then threshold_set p ((address - context_base) / context_stride) value
          else p)
      else p

  unfoldable pub write : ℕ → ℕ → ℕ → M (Plic E) (Unit {0})
  unfolding write_word
  write address size value p =
      if size != 4 then (err plic_size, p) else (ok tt, write_word address (u32 value) p)

-- `E` stands in the result only, so it is explicit.
unfoldable pub new : (E : Type 0) → ℕ → Plic E
new E size = record {
  size = size;
  devices_by_irq = [];
  priority = replicate max_irq 0;
  enable = replicate max_contexts 0;
  threshold = replicate max_contexts 0;
}
