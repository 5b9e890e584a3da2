-- ===== src/Cpu/Words/Trap.antt =====
-- The words of a hart across the CSR accesses and the traps of rv64rs/src/trap.rs.
use riscvm.Base.{ℕ, Bool, true, false, ◌==◌, ◌!=◌, arith, bit_and, bit_or, shl, if◌then◌else◌}
use riscvm.Base.{Option, none, some}
use riscvm.Bus.Words.{IsWord}
use riscvm.Cpu.State.{
  Cpu, Table, get, insert, mstatus, sepc, scause, stval, stvec, mepc, mcause, mtval, mtvec, priv_s,
}
use riscvm.Cpu.Trap.{
  mstatus_sie, mstatus_mie, mstatus_spie, mstatus_mpie, mstatus_spp, csr_read, csr_write, merge,
  aliased_target, store, flush_on_satp, assign,
}
use riscvm.Cpu.Trap.{enter_s, enter_m, enter_s_status, enter_m_status, raise_trap}
use riscvm.Cpu.Words.Values.{and-IsWord, or-IsWord}
use riscvm.Cpu.Words.{TableWords, CpuWords, insert-TableWords, set_tlb-CpuWords}

pub get-IsWord : (t : Table) (addr : ℕ) → TableWords t → IsWord (get t addr)
unfolding get
get-IsWord t addr k = k _

pub csr_read-IsWord : (c : Cpu) (addr : ℕ) → CpuWords c → IsWord (csr_read c addr)
unfolding csr_read
csr_read-IsWord c addr w = seen (aliased_target addr)
  where
    seen :
        (target : Option (ℕ × ℕ))
        → IsWord (elim target [
          | some (base_addr, mask) ↦ bit_and (get c.csrs base_addr) mask
          | none ↦ get c.csrs addr
        ])
    seen none = get-IsWord c.csrs addr w.csrs
    seen (some (base_addr, mask)) = and-IsWord _ mask (get-IsWord c.csrs base_addr w.csrs)

merge-IsWord : (base mask value : ℕ) → IsWord base → IsWord value → IsWord (merge base mask value)
unfolding merge
merge-IsWord base mask value b v = or-IsWord _ _ (and-IsWord base _ b) (and-IsWord value mask v)

pub set_csrs-CpuWords :
    (c : Cpu) (t : Table) → TableWords t → CpuWords c → CpuWords (record c { csrs = t })
set_csrs-CpuWords c t k w = record { regs = w.regs; csrs = k; pc = w.pc; mode = w.mode }

store-CpuWords : (addr v : ℕ) (c : Cpu) → IsWord v → CpuWords c → CpuWords (store addr v c)
unfolding store
store-CpuWords addr v c l w = seen (aliased_target addr)
  where
    seen :
        (target : Option (ℕ × ℕ))
        → CpuWords (elim target [
          | some (base_addr, mask) ↦ record c {
            csrs = insert c.csrs base_addr (merge (get c.csrs base_addr) mask v);
          }
          | none ↦ record c { csrs = insert c.csrs addr v }
        ])
    seen none = set_csrs-CpuWords c _ (insert-TableWords c.csrs addr v w.csrs l) w
    seen (some (base_addr, mask)) =
        set_csrs-CpuWords c _
          (insert-TableWords c.csrs base_addr _ w.csrs
            (merge-IsWord _ mask v (get-IsWord c.csrs base_addr w.csrs) l))
          w

if-CpuWords : (t : Bool) (x y : Cpu) → CpuWords x → CpuWords y → CpuWords (if t then x else y)
if-CpuWords true x y p q = p
if-CpuWords false x y p q = q

pub csr_write-CpuWords :
    (addr v : ℕ) (c : Cpu) → IsWord v → CpuWords c → CpuWords (csr_write addr v c)
unfolding csr_write flush_on_satp
csr_write-CpuWords addr v c l w = if-CpuWords _ _ _ w (
    if-CpuWords _ _ _ (set_tlb-CpuWords _ _ (store-CpuWords addr v c l w))
      (store-CpuWords addr v c l w))

pub assign-IsWord :
    (word k : ℕ) (flag : Bool) → IsWord word → IsWord k → IsWord (assign word k flag)
assign-IsWord word k true w b = or-IsWord _ k (and-IsWord word _ w) b
assign-IsWord word k false w b = or-IsWord _ 0 (and-IsWord word _ w) (omega arith)

enter_s_status-IsWord : (mode status : ℕ) → IsWord status → IsWord (enter_s_status mode status)
unfolding enter_s_status
enter_s_status-IsWord mode status s =
    assign-IsWord _ mstatus_spp (mode == priv_s)
      (and-IsWord _ _
        (assign-IsWord status mstatus_spie (bit_and status mstatus_sie != 0) s (omega arith)))
      (omega arith)

enter_m_status-IsWord : (mode status : ℕ) → IsWord status → IsWord (enter_m_status mode status)
unfolding enter_m_status
enter_m_status-IsWord mode status s =
    or-IsWord _ _
      (and-IsWord _ _ (
        and-IsWord _ _
          (assign-IsWord status mstatus_mpie (bit_and status mstatus_mie != 0) s (omega arith))))
      (omega arith)

-- The three CSRs that a trap fills, and the status.
entered-TableWords :
    (a b c d : ℕ) (t : Table) (u v w : ℕ) (status : ℕ → ℕ)
    → ((s : ℕ) → IsWord s → IsWord (status s))
    → IsWord u
    → IsWord v
    → IsWord w
    → TableWords t
    → TableWords (
        let saved = insert (insert (insert t a u) b v) c w in insert saved d (status (get saved d)))
entered-TableWords a b c d t u v w status k lu lv lw lt =
    insert-TableWords _ d _ saved (k _ (get-IsWord _ d saved))
  where
    saved : TableWords (insert (insert (insert t a u) b v) c w)
    saved = insert-TableWords _ c w (insert-TableWords _ b v (insert-TableWords t a u lt lu) lv) lw

-- A program counter and a hart of words.
abbrev pub Entered : ℕ × Cpu → Type 0
Entered (pc, c) = IsWord pc × CpuWords c

if-Entered : (t : Bool) (x y : ℕ × Cpu) → Entered x → Entered y → Entered (if t then x else y)
if-Entered true x y p q = p
if-Entered false x y p q = q

enter_s-Entered :
    (cause tval : ℕ) (c : Cpu)
    → IsWord cause
    → IsWord tval
    → CpuWords c
    → Entered (enter_s cause tval c)
unfolding enter_s
enter_s-Entered cause tval c l t w =
    let k =
      entered-TableWords sepc scause stval mstatus c.csrs c.pc cause tval (enter_s_status c.mode)
        (enter_s_status-IsWord c.mode) w.pc l t w.csrs in
    (
      and-IsWord _ _ (get-IsWord _ stvec k),
      record { regs = w.regs; csrs = k; pc = w.pc; mode = omega arith },
    )

enter_m-Entered :
    (cause tval : ℕ) (c : Cpu)
    → IsWord cause
    → IsWord tval
    → CpuWords c
    → Entered (enter_m cause tval c)
unfolding enter_m
enter_m-Entered cause tval c l t w =
    let k =
      entered-TableWords mepc mcause mtval mstatus c.csrs c.pc cause tval (enter_m_status c.mode)
        (enter_m_status-IsWord c.mode) w.pc l t w.csrs in
    (
      and-IsWord _ _ (get-IsWord _ mtvec k),
      record { regs = w.regs; csrs = k; pc = w.pc; mode = omega arith },
    )

pub raise_trap-Entered :
    (cause : ℕ) (is_interrupt : Bool) (tval : ℕ) (c : Cpu)
    → IsWord cause
    → IsWord tval
    → CpuWords c
    → Entered (raise_trap cause is_interrupt tval c)
unfolding raise_trap
raise_trap-Entered cause is_interrupt tval c l t w =
    if-Entered _ _ _ (enter_s-Entered _ tval c value t w) (enter_m-Entered _ tval c value t w)
  where
    value : IsWord (if is_interrupt then bit_or cause (shl 64 1 63) else cause)
    value = ground (arith, or-IsWord cause (shl 64 1 63) l)
