-- ===== src/Cpu/Trap/Order.antt =====
-- The choice among the pending interrupts in `check_interrupt` of rv64rs/src/trap.rs, and an
-- independent description of it by the order of the RISC-V manual and the level of each handler.
use riscvm.Base.{
  ℕ, zero, suc, ◌*◌, ◌/◌, ◌%◌, ◌^◌, ◌<◌, ◌≡◌, refl, ap, sym, ◌∙◌, arith, inl, inr, ◌⊎◌, min, not,
  ltb, ◌||◌, ◌&&◌, ◌==◌, ◌!=◌, if◌then◌else◌, Bool, true, false,
}
use riscvm.Base.{List, [], ◌∷◌, All, Option, none, some, bit_and, shl, shr}
use riscvm.Base.Bits.{bit, bit-and, bit-lt, bit_and_step, bit_and_mask, shifted_double}
use native.Mathlib.Nat.{div-div-eq-div-mul, pow-succ'}
use riscvm.Cpu.State.{Cpu, get, mstatus, mideleg}
use riscvm.Cpu.Trap.{
  select, held_back, delegated, priority, mideleg_delegatable_mask, mstatus_sie, mstatus_mie,
}

-- MEI, MSI, MTI, SEI, SSI, STI: the numbers of the interrupts, the most urgent one first.
abbrev pub manual_order : List ℕ
manual_order = 11 ∷ 3 ∷ 7 ∷ 9 ∷ 1 ∷ 5 ∷ []

-- A machine interrupt is never handed to S-mode.
abbrev pub machine_only : ℕ → Bool
machine_only cause = (cause == 11) || ((cause == 3) || (cause == 7))

-- Below M-mode, S-mode handles what is handed to it.
abbrev pub handled_in_s : Cpu → ℕ → Bool
handled_in_s cpu cause =
    not (cpu.mode == 3) && (not (machine_only cause) && (bit (get cpu.csrs mideleg) cause == 1))

-- A handler of a level above the current one interrupts; one of the current level does so where its
-- enable bit is set: SIE is bit 1 and MIE bit 3.
abbrev pub interrupts : Cpu → ℕ → Bool
interrupts cpu cause =
    if handled_in_s cpu cause
    then ltb cpu.mode 1 || ((cpu.mode == 1) && (bit (get cpu.csrs mstatus) 1 == 1))
    else ltb cpu.mode 3 || ((cpu.mode == 3) && (bit (get cpu.csrs mstatus) 3 == 1))

-- Pending and enabled in `word`, and not held back.
abbrev pub ready : ℕ → Cpu → ℕ → Bool
ready word cpu cause = (bit word cause == 1) && interrupts cpu cause

-- The first of a list that passes a test.
abbrev pub find : (ℕ → Bool) → List ℕ → Option ℕ
find test [] = none
find test (x ∷ xs) = if test x then some x else find test xs

-- One bit by a mask, and by a shift.
bit_and-power : (k x : ℕ) → bit_and x (2 ^ k) ≡ bit x k * 2 ^ k
bit_and-power zero x = bit_and_mask 1 x ∙ omega arith
bit_and-power (suc k) x =
    let twice : 2 ^ suc k ≡ 2 * 2 ^ k = omega arith in
    let half : 2 ^ suc k / 2 ≡ 2 ^ k = omega arith in
    let inner : bit_and (x / 2) (2 ^ suc k / 2) ≡ bit (x / 2) k * 2 ^ k =
      ap (bit_and (x / 2)) half ∙ bit_and-power k (x / 2) in
    omega (arith, bit_and_step x (2 ^ suc k), inner, shifted_double k (bit (x / 2) k), twice)

bit-shift : (k x : ℕ) → x / 2 ^ k % 2 ≡ bit x k
bit-shift zero x = omega arith
bit-shift (suc k) x =
    ap (λ t. x / t % 2) (pow-succ' 2 k)
    ∙ ap (λ t. t % 2) (sym (div-div-eq-div-mul x 2 (2 ^ k)))
    ∙ bit-shift k (x / 2)

-- A cause of the order: its bit of the mask of what can be handed to S-mode.
abbrev Known : ℕ → Type 0
Known cause =
    (cause < 64)
    × (shl 64 1 cause ≡ 2 ^ cause)
    × (bit mideleg_delegatable_mask cause ≡ (if machine_only cause then 0 else 1))

handed-bit :
    (d cause : ℕ)
    → Known cause
    → (bit_and (shr 64 (bit_and d mideleg_delegatable_mask) cause) 1 != 0)
      ≡ (not (machine_only cause) && (bit d cause == 1))
handed-bit d cause (l, place, known) =
    let small : cause % 64 ≡ cause = omega arith in
    let masked = bit_and d mideleg_delegatable_mask in
    let shifted : bit_and (shr 64 masked cause) 1
        ≡ min (bit d cause) (if machine_only cause then 0 else 1) =
      bit_and_mask 1 (shr 64 masked cause)
      ∙ ap (λ t. masked / 2 ^ t % 2) small
      ∙ bit-shift cause masked
      ∙ bit-and cause d mideleg_delegatable_mask
      ∙ ap (min (bit d cause)) known in
    rw shifted (handed (machine_only cause) (bit d cause) (bit-lt cause d))
  where
    handed :
        (only : Bool) (b : ℕ)
        → b < 2
        → (min b (if only then 0 else 1) != 0) ≡ (not only && (b == 1))
    handed true b l = ground arith
    handed false b l = ground arith

delegated-handled_in_s :
    (cpu : Cpu) (cause : ℕ) → Known cause → delegated true cause cpu ≡ handled_in_s cpu cause
unfolding delegated
delegated-handled_in_s cpu cause known = rw (handed-bit (get cpu.csrs mideleg) cause known) (
    ap (λ t. t && (not (machine_only cause) && (bit (get cpu.csrs mideleg) cause == 1)))
      (ne-not cpu.mode 3))
  where
    ne-not : (a b : ℕ) → (a != b) ≡ not (a == b)
    ne-not a b = ground arith

enable-sie : (w : ℕ) → (bit_and w mstatus_sie == 0) ≡ not (bit w 1 == 1)
enable-sie w = rw (bit_and-power 1 w) (tested (bit w 1) (bit-lt 1 w))
  where
    tested : (b : ℕ) → b < 2 → (b * 2 ^ 1 == 0) ≡ not (b == 1)
    tested b l = ground arith

enable-mie : (w : ℕ) → (bit_and w mstatus_mie == 0) ≡ not (bit w 3 == 1)
enable-mie w = rw (bit_and-power 3 w) (tested (bit w 3) (bit-lt 3 w))
  where
    tested : (b : ℕ) → b < 2 → (b * 2 ^ 3 == 0) ≡ not (b == 1)
    tested b l = ground arith

-- The test of `held_back` is the converse of that of `interrupts`, at each level.
levels :
    (handled s m : Bool) (mode : ℕ)
    → (mode < 2) ⊎ (mode ≡ 3)
    → (handled ≡ true → (mode == 3) ≡ false)
    → (if handled then mode == 1 && not s else mode == 3 && not m)
      ≡ not (if handled then ltb mode 1 || (mode == 1 && s) else ltb mode 3 || (mode == 3 && m))
levels true s m mode (inl l) h = ground arith
levels true s m mode (inr e) h = absurd (cc (h refl, e))
levels false s m mode (inl l) h = ground arith
levels false s m mode (inr e) h = ground arith

held_back-interrupts :
    (cpu : Cpu) (cause : ℕ)
    → (cpu.mode < 2) ⊎ (cpu.mode ≡ 3)
    → Known cause
    → held_back cause cpu ≡ not (interrupts cpu cause)
unfolding held_back
held_back-interrupts cpu cause level known =
    rw
      (
        delegated-handled_in_s cpu cause known,
        enable-sie (get cpu.csrs mstatus),
        enable-mie (get cpu.csrs mstatus),
      )
      (levels (handled_in_s cpu cause) (bit (get cpu.csrs mstatus) 1 == 1)
        (bit (get cpu.csrs mstatus) 3 == 1) cpu.mode level
        (below (cpu.mode == 3)
          (not (machine_only cause) && (bit (get cpu.csrs mideleg) cause == 1))))
  where
    below : (a b : Bool) → (not a && b) ≡ true → a ≡ false
    below false b h = refl
    below true b h = absurd (cc h)

pending-bit :
    (word cause : ℕ)
    → shl 64 1 cause ≡ 2 ^ cause
    → (bit_and word (shl 64 1 cause) == 0) ≡ not (bit word cause == 1)
pending-bit word cause place =
    rw (place, bit_and-power cause word)
      (tested (bit word cause) (2 ^ cause) (bit-lt cause word) (pow_pos cause))
  where
    pow_pos : (k : ℕ) → 0 < 2 ^ k
    pow_pos zero = omega arith
    pow_pos (suc k) = omega (arith, pow_pos k)

    tested : (b p : ℕ) → b < 2 → 0 < p → (b * p == 0) ≡ not (b == 1)
    tested zero p l h = ground arith
    tested (suc zero) p l h = ground arith
    tested (suc (suc b)) p l h = absurd (omega arith)

passes :
    (word : ℕ) (cpu : Cpu) (cause : ℕ)
    → (cpu.mode < 2) ⊎ (cpu.mode ≡ 3)
    → Known cause
    → ((bit_and word (shl 64 1 cause) == 0) || held_back cause cpu) ≡ not (ready word cpu cause)
passes word cpu cause level known =
    rw (pending-bit word cause known.1, held_back-interrupts cpu cause level known)
      (both (bit word cause == 1) (interrupts cpu cause))
  where
    both : (a b : Bool) → (not a || not b) ≡ not (a && b)
    both true b = refl
    both false b = refl

select-first :
    (word : ℕ) (cpu : Cpu) (causes : List ℕ)
    → (cpu.mode < 2) ⊎ (cpu.mode ≡ 3)
    → All Known causes
    → select word causes cpu ≡ find (ready word cpu) causes
unfolding select
select-first word cpu [] level known = refl
select-first word cpu (cause ∷ causes) level known =
    rw (passes word cpu cause level known.0, select-first word cpu causes level known.1)
      (flip (ready word cpu cause) (find (ready word cpu) causes) (some cause))
  where
    flip : (t : Bool) (a b : Option ℕ) → (if not t then a else b) ≡ (if t then b else a)
    flip true a b = refl
    flip false a b = refl

-- In U-mode, S-mode or M-mode, the cause that is selected from the word of pending and enabled
-- interrupts is the first of MEI, MSI, MTI, SEI, SSI and STI whose bit is set and whose handler
-- interrupts the current mode. The handler is in S-mode where the hart is below M-mode, the bit
-- of mideleg is set and the interrupt is not one of the machine, and in M-mode otherwise; a
-- handler above the mode always interrupts, and one of the mode does where SIE or MIE, of its
-- mode, is set.
pub select-find :
    (word : ℕ) (cpu : Cpu)
    → (cpu.mode < 2) ⊎ (cpu.mode ≡ 3)
    → select word priority cpu ≡ find (ready word cpu) manual_order
select-find word cpu level = select-first word cpu priority level (
  known 11 (omega arith) refl refl,
  (
    known 3 (omega arith) refl refl,
    (
      known 7 (omega arith) refl refl,
      (
        known 9 (omega arith) refl refl,
        (known 1 (omega arith) refl refl, (known 5 (omega arith) refl refl, tt)),
      ),
    ),
  ),
)
  where
    known :
        (cause : ℕ)
        → cause < 64
        → shl 64 1 cause ≡ 2 ^ cause
        → bit mideleg_delegatable_mask cause ≡ (if machine_only cause then 0 else 1)
        → Known cause
    known cause l place mask = (l, place, mask)
