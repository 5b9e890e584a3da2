-- ===== src/Cpu/Mmu/Walk.antt =====
-- What the walk of rv64rs/src/mmu.rs depends on and what it changes.
use riscvm.Base.{ℕ, zero, suc, ◌*◌, ◌/◌, ◌^◌, ◌≤◌, ◌<◌, ◌≡◌, refl, ap, arith}
use riscvm.Base.{Bool-cases, if◌then◌else◌, ◌==◌, ◌!=◌, bit_and, bit_or, shl, shr, add64}
use riscvm.Base.{Outcome, ok, err, panic, timeout, M, next, pure, fail, ◌>>=◌, inl, inr}
use riscvm.Base.{invalid_pte, reserved_pte}
use riscvm.Bus.State.{Bus}
use riscvm.Bus.Access.{read}
use riscvm.Bus.Access.Effects.{read_8-keeps}
use riscvm.Cpu.Mmu.{walk, vpn, va_low, leaf_ppn, pte_v, pte_r, pte_w, pte_x, ppn_mask, pagesize}

abbrev pub SamePage : ℕ → ℕ → Type 0
SamePage va va' = va / 2 ^ 12 ≡ va' / 2 ^ 12

pub vpn-SamePage : (va va' l : ℕ) → l < 3 → SamePage va va' → vpn va l ≡ vpn va' l
unfolding vpn
vpn-SamePage va va' zero h e = ap (λ t. bit_and t 0x1ff) e
vpn-SamePage va va' (suc zero) h e = ap (λ t. bit_and t 0x1ff) (omega arith)
vpn-SamePage va va' (suc (suc zero)) h e = ap (λ t. bit_and t 0x1ff) (omega arith)
vpn-SamePage va va' (suc (suc (suc l))) h e = absurd (omega arith)

-- What a walk does with the entry of one level, given the walk of the levels below.
abbrev examine : (ℕ → M Bus (ℕ × ℕ)) → ℕ → ℕ → M Bus (ℕ × ℕ)
examine below level pte =
    if bit_and pte pte_v == 0
    then fail invalid_pte
    else if bit_and pte (bit_or pte_r pte_x) != 0
    then pure (pte, level)
    else if bit_and pte pte_w != 0
    then fail reserved_pte
    else below (bit_and (shr 64 pte 10) ppn_mask * pagesize)

abbrev descend : (ℕ → M Bus (ℕ × ℕ)) → ℕ → ℕ → ℕ → M Bus (ℕ × ℕ)
descend below index level a = do pte ← read (add64 a (index * 8)) 8; examine below level pte

walk-suc : (va level : ℕ) → walk va (suc level) ≡ descend (walk va level) (vpn va level) level
unfolding walk
walk-suc va level = refl

-- Addresses of one page have the same walk.
pub walk-SamePage : (va va' n : ℕ) → n ≤ 3 → SamePage va va' → walk va n ≡ walk va' n
unfolding walk
walk-SamePage va va' zero h e = refl
walk-SamePage va va' (suc level) h e = λ i.
    descend (walk-SamePage va va' level (omega arith) e i)
      (vpn-SamePage va va' level (omega arith) e i) level

pub va_low-SamePage : (va va' n : ℕ) → n ≤ 3 → SamePage va va' → va_low va n ≡ va_low va' n
unfolding va_low
va_low-SamePage va va' zero h e = refl
va_low-SamePage va va' (suc l) h e = λ i.
    bit_or (va_low-SamePage va va' l (omega arith) e i)
      (shl 64 (vpn-SamePage va va' l (omega arith) e i) (9 * l))

pub leaf_ppn-SamePage :
    (va va' pte level : ℕ)
    → level ≤ 3
    → SamePage va va'
    → leaf_ppn va pte level ≡ leaf_ppn va' pte level
unfolding leaf_ppn
leaf_ppn-SamePage va va' pte level h e = rw (va_low-SamePage va va' level h e)

examine-keeps :
    (below : ℕ → M Bus (ℕ × ℕ)) (level pte : ℕ) (b : Bus)
    → ((a : ℕ) → (below a b).1 ≡ b)
    → (examine below level pte b).1 ≡ b
examine-keeps below level pte b h = elim (Bool-cases (bit_and pte pte_v == 0)) [
  | inl p ↦ rw p
  | inr p ↦ rw p (elim (Bool-cases (bit_and pte (bit_or pte_r pte_x) != 0)) [
    | inl q ↦ rw q
    | inr q ↦
        rw q (elim (Bool-cases (bit_and pte pte_w != 0)) [ inl r ↦ rw r | inr r ↦ rw r (h _) ])
  ])
]

-- A step after a call that keeps the state.
next-keeps :
    {A B S : Type 0} (f : A → M S B) (r : Outcome A × S) (s : S)
    → r.1 ≡ s
    → ((a : A) → (f a s).1 ≡ s)
    → (next f r).1 ≡ s
next-keeps f (ok a, t) s e h = rw (ap (λ u. (f a u).1) e) (h a)
next-keeps f (err x, t) s e h = e
next-keeps f (panic, t) s e h = e
next-keeps f (timeout, t) s e h = e

-- A walk leaves the bus, its devices included, as it is.
pub walk-keeps : (va n a : ℕ) (b : Bus) → (walk va n a b).1 ≡ b
unfolding walk
walk-keeps va zero a b = refl
walk-keeps va (suc level) a b =
    next-keeps (examine (walk va level) level) (read (add64 a (vpn va level * 8)) 8 b) b
      (read_8-keeps (add64 a (vpn va level * 8)) b)
      (λ pte. examine-keeps (walk va level) level pte b (λ a'. walk-keeps va level a' b))

-- The level of the leaf is one of those that were left.
abbrev LeafBelow : ℕ → Outcome (ℕ × ℕ) → Type 0
LeafBelow n r = (pte level : ℕ) → r ≡ ok (pte, level) → level < n

examine-LeafBelow :
    (below : ℕ → M Bus (ℕ × ℕ)) (level : ℕ) (b : Bus) (x : ℕ)
    → ((a : ℕ) (b' : Bus) → LeafBelow level (below a b').0)
    → LeafBelow (suc level) (examine below level x b).0
examine-LeafBelow below level b x h = elim (Bool-cases (bit_and x pte_v == 0)) [
  | inl p ↦ rw p (λ pte l e. absurd (cc e))
  | inr p ↦ rw p (elim (Bool-cases (bit_and x (bit_or pte_r pte_x) != 0)) [
    | inl q ↦ rw q (λ pte l e. ground arith)
    | inr q ↦ rw q (elim (Bool-cases (bit_and x pte_w != 0)) [
      | inl r ↦ rw r (λ pte l e. absurd (cc e))
      | inr r ↦ rw r (λ pte l e. omega (arith, h _ b pte l e))
    ])
  ])
]

next-LeafBelow :
    (n : ℕ) (f : ℕ → M Bus (ℕ × ℕ)) (r : Outcome ℕ × Bus)
    → ((x : ℕ) (b : Bus) → LeafBelow n (f x b).0)
    → LeafBelow n (next f r).0
next-LeafBelow n f (ok x, t) h = h x t
next-LeafBelow n f (err x, t) h = λ pte l e. absurd (cc e)
next-LeafBelow n f (panic, t) h = λ pte l e. absurd (cc e)
next-LeafBelow n f (timeout, t) h = λ pte l e. absurd (cc e)

pub walk-LeafBelow : (va n a : ℕ) (b : Bus) → LeafBelow n (walk va n a b).0
unfolding walk
walk-LeafBelow va zero a b = λ pte l e. absurd (cc e)
walk-LeafBelow va (suc level) a b =
    next-LeafBelow (suc level) (examine (walk va level) level)
      (read (add64 a (vpn va level * 8)) 8 b)
      (λ x b'. examine-LeafBelow (walk va level) level b' x (walk-LeafBelow va level))
