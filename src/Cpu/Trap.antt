-- ===== src/Cpu/Trap.antt =====
-- rv64rs/src/trap.rs: the CSR views, the delivery of a trap, and the check for an interrupt.
pub mod Laws
pub mod Return
pub mod Order
use riscvm.Base.{ℕ, ◌+◌, ◌-◌, ◌*◌, ◌/◌, ◌%◌, ◌^◌, Bool, true, false, not, ◌&&◌, ◌||◌, if◌then◌else◌}
use riscvm.Base.{◌==◌, ◌!=◌, Option, none, some, List, [], ◌∷◌, bit_and, bit_or, inv, shl, shr}
use riscvm.Base.{add64, M, Outcome, ok, pure, modify, gets, lift, ◌>>=◌, ◌>>◌}
use riscvm.Device.Clint
use riscvm.Device.Plic
use riscvm.Cpu.Tlb
use riscvm.Cpu.State.{Cpu, Hart, get, insert, on_cpu, priv_s, priv_m, sstatus, sie, stvec, sepc}
use riscvm.Cpu.State.{scause, stval, sip, satp, mstatus, medeleg, mideleg, mie, mtvec, mepc}
use riscvm.Cpu.State.{mcause, mtval, mip, mhartid}

abbrev pub sstatus_mask : ℕ
sstatus_mask = 0x122

abbrev pub sie_mask : ℕ
sie_mask = 0x222

abbrev pub sip_mask : ℕ
sip_mask = 0x222

abbrev pub mstatus_sie : ℕ
mstatus_sie = 2 ^ 1

abbrev pub mstatus_mie : ℕ
mstatus_mie = 2 ^ 3

abbrev pub mstatus_spie : ℕ
mstatus_spie = 2 ^ 5

abbrev pub mstatus_mpie : ℕ
mstatus_mpie = 2 ^ 7

abbrev pub mstatus_spp : ℕ
mstatus_spp = 2 ^ 8

abbrev pub mstatus_mpp : ℕ
mstatus_mpp = 3 * 2 ^ 11

abbrev pub mip_mtip : ℕ
mip_mtip = 2 ^ 7

abbrev pub mip_seip : ℕ
mip_seip = 2 ^ 9

-- The causes in the order in which they are tried: MEI, MSI, MTI, SEI, SSI, STI.
abbrev pub priority : List ℕ
priority = 11 ∷ 3 ∷ 7 ∷ 9 ∷ 1 ∷ 5 ∷ []

abbrev pub mideleg_delegatable_mask : ℕ
mideleg_delegatable_mask = inv 64 (2 ^ 3 + 2 ^ 7 + 2 ^ 11)

unfoldable pub aliased_target : ℕ → Option (ℕ × ℕ)
aliased_target addr =
    if addr == sstatus
    then some (mstatus, sstatus_mask)
    else if addr == sie
    then some (mie, sie_mask)
    else if addr == sip
    then some (mip, sip_mask)
    else none

unfoldable pub csr_read : Cpu → ℕ → ℕ
unfolding aliased_target get
csr_read cpu addr = elim (aliased_target addr) [
  | some (base_addr, mask) ↦ bit_and (get cpu.csrs base_addr) mask
  | none ↦ get cpu.csrs addr
]

-- `(base & !mask) | (value & mask)`
unfoldable pub merge : ℕ → ℕ → ℕ → ℕ
merge base mask value = bit_or (bit_and base (inv 64 mask)) (bit_and value mask)

unfoldable pub store : ℕ → ℕ → Cpu → Cpu
unfolding aliased_target get insert merge
store addr value cpu = elim (aliased_target addr) [
  | some (base_addr, mask) ↦ record cpu {
    csrs = insert cpu.csrs base_addr (merge (get cpu.csrs base_addr) mask value);
  }
  | none ↦ record cpu { csrs = insert cpu.csrs addr value }
]

unfoldable pub flush_on_satp : ℕ → Cpu → Cpu
unfolding Tlb.flush
flush_on_satp addr cpu = if addr == satp then record cpu { tlb = Tlb.flush cpu.tlb } else cpu

unfoldable pub csr_write : ℕ → ℕ → Cpu → Cpu
unfolding store flush_on_satp
csr_write addr value cpu =
    if addr == mhartid then cpu else flush_on_satp addr (store addr value cpu)

-- `(mstatus & !bit) | if flag { bit } else { 0 }`
abbrev pub assign : ℕ → ℕ → Bool → ℕ
assign word flag_bit flag = bit_or (bit_and word (inv 64 flag_bit)) (if flag then flag_bit else 0)

unfoldable pub enter_s_status : ℕ → ℕ → ℕ
enter_s_status mode status =
    let previous = assign status mstatus_spie (bit_and status mstatus_sie != 0) in
    assign (bit_and previous (inv 64 mstatus_sie)) mstatus_spp (mode == priv_s)

unfoldable pub enter_m_status : ℕ → ℕ → ℕ
enter_m_status mode status =
    let previous = assign status mstatus_mpie (bit_and status mstatus_mie != 0) in
    let masked = bit_and previous (inv 64 mstatus_mie) in
    bit_or (bit_and masked (inv 64 mstatus_mpp)) (shl 64 mode 11)

unfoldable pub enter_s : ℕ → ℕ → Cpu → ℕ × Cpu
unfolding get insert enter_s_status
enter_s cause_value tval cpu =
    let saved = insert (insert (insert cpu.csrs sepc cpu.pc) scause cause_value) stval tval in
    let csrs' = insert saved mstatus (enter_s_status cpu.mode (get saved mstatus)) in
    (bit_and (get csrs' stvec) (inv 64 3), record cpu { csrs = csrs'; mode = priv_s })

unfoldable pub enter_m : ℕ → ℕ → Cpu → ℕ × Cpu
unfolding get insert enter_m_status
enter_m cause_value tval cpu =
    let saved = insert (insert (insert cpu.csrs mepc cpu.pc) mcause cause_value) mtval tval in
    let csrs' = insert saved mstatus (enter_m_status cpu.mode (get saved mstatus)) in
    (bit_and (get csrs' mtvec) (inv 64 3), record cpu { csrs = csrs'; mode = priv_m })

-- Whether a trap goes to S-mode.
unfoldable pub delegated : Bool → ℕ → Cpu → Bool
unfolding get
delegated is_interrupt cause cpu =
    let deleg =
      if is_interrupt
      then bit_and (get cpu.csrs mideleg) mideleg_delegatable_mask
      else get cpu.csrs medeleg in
    cpu.mode != priv_m && bit_and (shr 64 deleg cause) 1 != 0

unfoldable pub raise_trap : ℕ → Bool → ℕ → Cpu → ℕ × Cpu
unfolding delegated enter_s enter_m
raise_trap cause is_interrupt tval cpu =
    let cause_value = if is_interrupt then bit_or cause (shl 64 1 63) else cause in
    if delegated is_interrupt cause cpu
    then enter_s cause_value tval cpu
    else enter_m cause_value tval cpu

-- Whether `cause`, pending and enabled, is held back at the current mode.
unfoldable pub held_back : ℕ → Cpu → Bool
unfolding delegated get
held_back cause cpu =
    if delegated true cause cpu
    then cpu.mode == priv_s && bit_and (get cpu.csrs mstatus) mstatus_sie == 0
    else cpu.mode == priv_m && bit_and (get cpu.csrs mstatus) mstatus_mie == 0

-- The first cause of the list that is taken.
unfoldable pub select : ℕ → List ℕ → Cpu → Option ℕ
unfolding held_back
select pending_enabled [] cpu = none
select pending_enabled (cause ∷ rest) cpu =
    if bit_and pending_enabled (shl 64 1 cause) == 0 || held_back cause cpu
    then select pending_enabled rest cpu
    else some cause

unfoldable pub take_trap : ℕ → Cpu → Cpu
unfolding raise_trap
take_trap cause cpu = let (pc, cpu') = raise_trap cause true 0 cpu in record cpu' { pc = pc }

-- The bit of `mip` that follows a line.
abbrev pub follow : ℕ → ℕ → Bool → ℕ
follow word line_bit line = if line then bit_or word line_bit else bit_and word (inv 64 line_bit)

unfoldable pub sample_clint : ℕ → M Hart ℕ
unfolding Clint.pending
sample_clint word h =
    if h.cpu.clint
    then (do
      line ← lift (Clint.pending h.bus.cells.clint h.cpu.hartid)
      pure (follow word mip_mtip line))
        h
    else (ok word, h)

unfoldable pub sample_plic : ℕ → M Hart ℕ
unfolding Plic.claimable
sample_plic word h =
    if h.cpu.plic
    then (do
      line ← lift (Plic.claimable h.bus.cells h.bus.plic_cell (add64 (2 * h.cpu.hartid % 2 ^ 64) 1))
      pure (follow word mip_seip line))
        h
    else (ok word, h)

unfoldable pub deliver : ℕ → M Hart Bool
unfolding select take_trap get
deliver word h = elim (select (bit_and word (get h.cpu.csrs mie)) priority h.cpu) [
  | none ↦ (ok false, h)
  | some cause ↦ (ok true, record h { cpu = take_trap cause h.cpu })
]

unfoldable pub check_interrupt : M Hart Bool
unfolding sample_clint sample_plic deliver get insert on_cpu
check_interrupt = do
  word ← gets (λ h. get h.cpu.csrs mip)
  with_timer ← sample_clint word
  with_external ← sample_plic with_timer
  on_cpu (λ cpu. record cpu { csrs = insert cpu.csrs mip with_external })
  deliver with_external
