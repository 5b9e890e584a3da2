-- ===== src/Cpu/Execute/System.antt =====
-- `execute_system` of rv64rs/src/execute.rs: the CSR instructions, ECALL, SRET, MRET, WFI and
-- SFENCE.VMA.
use riscvm.Base.{ℕ, ◌+◌, false, ◌&&◌, if◌then◌else◌, u8}
use riscvm.Base.{◌==◌, ◌!=◌, bit_and, bit_or, inv, shr, M, ok, pure, fail, gets}
use riscvm.Base.{◌>>=◌, ◌>>◌, illegal_instruction}
use riscvm.Decode.{Instruction}
use riscvm.Cpu.Tlb
use riscvm.Cpu.State.{Hart, get, insert, reg, set_reg, on_cpu, sepc, mepc, mstatus}
use riscvm.Cpu.Trap.{csr_read, csr_write, raise_trap, assign, mstatus_sie, mstatus_mie}
use riscvm.Cpu.Trap.{mstatus_spie, mstatus_mpie, mstatus_spp, mstatus_mpp}

abbrev pub illegal : {A : Type 0} → M Hart A
illegal = fail illegal_instruction

-- A CSR instruction: `new_value old operand` is written.
unfoldable pub csr_access : Instruction → (ℕ → ℕ → ℕ) → ℕ → M Hart (Unit {0})
unfolding csr_read csr_write set_reg on_cpu
csr_access i new_value operand = do
  old ← gets (λ h. csr_read h.cpu i.csr)
  set_reg i.rd old
  on_cpu (csr_write i.csr (new_value old operand))

abbrev pub replace_bits : ℕ → ℕ → ℕ
replace_bits old operand = operand

abbrev pub set_bits : ℕ → ℕ → ℕ
set_bits old operand = bit_or old operand

abbrev pub clear_bits : ℕ → ℕ → ℕ
clear_bits old operand = bit_and old (inv 64 operand)

unfoldable pub csr_register : Instruction → (ℕ → ℕ → ℕ) → M Hart (Unit {0})
unfolding csr_access reg
csr_register i new_value = do rs1_value ← reg i.rs1; csr_access i new_value rs1_value

unfoldable pub ecall : M Hart ℕ
unfolding raise_trap
ecall h =
    let (pc, cpu) = raise_trap (8 + h.cpu.mode) false 0 h.cpu in (ok pc, record h { cpu = cpu })

unfoldable pub sret_status : ℕ → ℕ
sret_status status =
    let enabled = assign status mstatus_sie (bit_and status mstatus_spie != 0) in
    bit_and (bit_or enabled mstatus_spie) (inv 64 mstatus_spp)

unfoldable pub sret : M Hart ℕ
unfolding sret_status get insert
sret h =
    let status = get h.cpu.csrs mstatus in
    let csrs' = insert h.cpu.csrs mstatus (sret_status status) in
    (
      ok (get csrs' sepc),
      record h {
        cpu = record (h.cpu) { csrs = csrs'; mode = u8 (shr 64 (bit_and status mstatus_spp) 8) };
      },
    )

unfoldable pub mret_status : ℕ → ℕ
mret_status status =
    let enabled = assign status mstatus_mie (bit_and status mstatus_mpie != 0) in
    bit_and (bit_or enabled mstatus_mpie) (inv 64 mstatus_mpp)

unfoldable pub mret : M Hart ℕ
unfolding mret_status get insert
mret h =
    let status = get h.cpu.csrs mstatus in
    let csrs' = insert h.cpu.csrs mstatus (mret_status status) in
    (
      ok (get csrs' mepc),
      record h {
        cpu = record (h.cpu) { csrs = csrs'; mode = u8 (shr 64 (bit_and status mstatus_mpp) 11) };
      },
    )

unfoldable pub sfence : M Hart (Unit {0})
unfolding on_cpu Tlb.flush
sfence = on_cpu (λ cpu. record cpu { tlb = Tlb.flush cpu.tlb })

unfoldable pub privileged : Instruction → ℕ → M Hart ℕ
privileged i default_next =
    if (i.funct7 == 0b0000000) && (i.rs2 == 0b00000)
    then ecall
    else if (i.funct7 == 0b0001000) && (i.rs2 == 0b00010)
    then sret
    else if (i.funct7 == 0b0001000) && (i.rs2 == 0b00101)
    then pure default_next
    else if i.funct7 == 0b0001001
    then (do sfence; pure default_next)
    else if i.funct7 == 0b0011000
    then mret
    else illegal

unfoldable pub execute_system : Instruction → ℕ → M Hart ℕ
unfolding privileged csr_register csr_access
execute_system i default_next =
    if i.funct3 == 0x1
    then (do csr_register i replace_bits; pure default_next)
    else if i.funct3 == 0x2
    then (do csr_register i set_bits; pure default_next)
    else if i.funct3 == 0x3
    then (do csr_register i clear_bits; pure default_next)
    else if i.funct3 == 0x5
    then (do csr_access i replace_bits i.rs1; pure default_next)
    else if i.funct3 == 0x6
    then (do csr_access i set_bits i.rs1; pure default_next)
    else if i.funct3 == 0x7
    then (do csr_access i clear_bits i.rs1; pure default_next)
    else if i.funct3 == 0x0
    then privileged i default_next
    else illegal
