-- ===== src/Device/Plic/Claim.antt =====
-- Which interrupt `claim_irq` of rv64rs/src/plic.rs picks.
use riscvm.Base.{ℕ, zero, suc, ◌+◌, ◌≤◌, ◌<◌, ◌≡◌, refl, ◌⊎◌, inl, inr, arith, Bool, true}
use riscvm.Base.{ltb, ◌!=◌, ◌&&◌, if◌then◌else◌, List, get_or, bit_and, shl, Bool-cases}
use riscvm.Device.Plic.{Plic, claim_loop, best}
use native.Mathlib.Nat.{add-zero}

module _ (prio : ℕ → ℕ) (cand : ℕ → Bool) (floor : ℕ) where
  -- `irq` wins among the interrupts from 1 below `to`: it is a candidate above the threshold, no
  -- candidate has a higher priority, and none before it an equal one.
  pub record IsBest (to irq : ℕ) : Type 0 where
    pub from_one : 1 ≤ irq
    pub below : irq < to
    pub candidate : cand irq ≡ true
    pub above : floor < prio irq
    pub highest : (j : ℕ) → 1 ≤ j → j < to → cand j ≡ true → prio j ≤ prio irq
    pub first : (j : ℕ) → 1 ≤ j → j < irq → cand j ≡ true → prio j < prio irq

  -- No candidate is above the threshold.
  abbrev pub NoneAbove : ℕ → Type 0
  NoneAbove to = (j : ℕ) → 1 ≤ j → j < to → cand j ≡ true → prio j ≤ floor

  -- What the loop knows before it looks at `to`.
  abbrev IsFound : ℕ → ℕ → ℕ → Type 0
  IsFound to irq p = ((irq ≡ 0) × (p ≡ floor) × NoneAbove to) ⊎ (IsBest to irq × (p ≡ prio irq))

  found_bound :
      (to irq p : ℕ)
      → IsFound to irq p
      → (floor ≤ p) × ((j : ℕ) → 1 ≤ j → j < to → cand j ≡ true → prio j ≤ p)
  found_bound to irq p (inl (z, e, n)) = (omega arith, λ j a b c. omega (arith, n j a b c))
  found_bound to irq p (inr (b, e)) =
      (omega (arith, b.above), λ j x y c. omega (arith, b.highest j x y c))

  -- The interrupt `to` is better than what was found.
  IsFound-better :
      (to irq p : ℕ)
      → 1 ≤ to
      → IsFound to irq p
      → cand to ≡ true
      → p < prio to
      → IsFound (to + 1) to (prio to)
  IsFound-better to irq p pos f c lt =
      let bound = found_bound to irq p f in
      inr (
        record {
          from_one = pos;
          below = omega arith;
          candidate = c;
          above = omega (arith, bound.0);
          highest = λ j a b cj. ground (arith, bound.1 j a);
          first = λ j a b cj. omega (arith, bound.1 j a b cj);
        },
        refl,
      )

  -- It is not.
  IsFound-same :
      (to irq p : ℕ) → IsFound to irq p → (cand to ≡ true → prio to ≤ p) → IsFound (to + 1) irq p
  IsFound-same to irq p (inl (z, e, n)) worse = inl (z, e, λ j a b cj. ground (arith, n j a, worse))
  IsFound-same to irq p (inr (b, e)) worse = inr (
    record {
      from_one = b.from_one;
      below = omega (arith, b.below);
      candidate = b.candidate;
      above = b.above;
      highest = λ j x y cj. ground (arith, b.highest j x, worse);
      first = b.first;
    },
    e,
  )

abbrev pub prio_of : List ℕ → ℕ → ℕ
prio_of priority irq = get_or priority irq 0

abbrev pub is_candidate : ℕ → ℕ → Bool
is_candidate candidates irq = bit_and candidates (shl 32 1 irq) != 0

add_suc_left : (a b : ℕ) → a + suc b ≡ a + 1 + b
add_suc_left a b = omega arith

module _ (priority : List ℕ) (candidates floor : ℕ) where
  abbrev Found : ℕ → ℕ → ℕ → Type 0
  Found = IsFound (prio_of priority) (is_candidate candidates) floor

  Found-suc :
      (irq best_irq best_priority : ℕ)
      → 1 ≤ irq
      → Found irq best_irq best_priority
      → let better : Bool =
          is_candidate candidates irq && ltb best_priority (prio_of priority irq) in
        Found
          (irq + 1)
          (if better then irq else best_irq)
          (if better then prio_of priority irq else best_priority)
  Found-suc irq best_irq best_priority pos f = elim (Bool-cases (is_candidate candidates irq)) [
    | inr c ↦ rw c (IsFound-same _ _ floor irq best_irq best_priority f (ground arith))
    | inl c ↦ elim (Bool-cases (ltb best_priority (prio_of priority irq))) [
      | inl t ↦
          rw (c, t) (IsFound-better _ _ floor irq best_irq best_priority pos f c (ground arith))
      | inr t ↦ rw (c, t) (IsFound-same _ _ floor irq best_irq best_priority f (ground arith))
    ]
  ]

  loop-Found :
      (left irq best_irq best_priority : ℕ)
      → 1 ≤ irq
      → Found irq best_irq best_priority
      → let r = claim_loop priority candidates left irq best_irq best_priority in
        (p : ℕ) × Found (irq + left) r p
  unfolding claim_loop
  loop-Found zero irq best_irq best_priority pos f = (best_priority, rw add-zero f)
  loop-Found (suc left) irq best_irq best_priority pos f =
      let (p, g) =
        loop-Found left (irq + 1) _ _ (omega arith) (Found-suc irq best_irq best_priority pos f) in
      (p, rw (add_suc_left irq left) g)

-- The interrupt that a claim takes is the enabled, pending one of the highest priority above the
-- threshold, the lowest-numbered of these; it is 0 exactly where none is above the threshold.
pub best_lem :
    {E : Type 0} (p : Plic E) (pending context : ℕ)
    → let candidates = bit_and pending (get_or p.enable context 0) in
      let floor = get_or p.threshold context 0 in
      let irq = best p pending context in
      ((irq ≡ 0) × NoneAbove (prio_of p.priority) (is_candidate candidates) floor 32)
      ⊎ IsBest (prio_of p.priority) (is_candidate candidates) floor 32 irq
unfolding best
best_lem p pending context =
    elim (loop-Found p.priority (bit_and pending (get_or p.enable context 0))
      (get_or p.threshold context 0) 31 1 0 (get_or p.threshold context 0) (omega arith)
      (inl (refl, refl, λ j a b c. absurd (omega arith)))).1 [
        | inl (z, e, n) ↦ inl (z, n)
        | inr (b, e) ↦ inr b
      ]
