-- ===== src/Tests/Parts.antt =====
-- Runs of the decoder, the devices, the bus and the CSRs at concrete inputs.
use riscvm.Base.{ℕ, ◌-◌, ◌+◌, ◌*◌, ◌%◌, ◌^◌, ◌≤◌, ◌<◌, ◌≡◌, refl, ◌⊎◌, arith, inl, inr}
use riscvm.Base.{if◌then◌else◌, ◌==◌, bit_and, widen, [], ◌∷◌, ◌++◌}
use riscvm.Base.{get_or, none, some, ok}
use riscvm.Base.{replicate}
use riscvm.Asm.{encode_i, encode_s, encode_b, encode_j}
use riscvm.Decode as Decode
use riscvm.Decode.RoundTrip.{decode-encode_i, decode-encode_s}
use riscvm.Decode.Jumps.{decode-encode_b, decode-encode_j}
use riscvm.Device.Ram as Ram
use riscvm.Device.Ram.{Ram}
use riscvm.Device.Ram.Laws.{read-write}
use riscvm.Device.Plic as Plic
use riscvm.Device.Plic.Claim.{best_lem, IsBest, NoneAbove, prio_of, is_candidate}
use riscvm.Device.Uart as Uart
use riscvm.Device.Uart.{Uart}
use riscvm.Device.Uart.Fifo.{receive, receive-front}
use riscvm.Bus.Manager
use riscvm.Bus.Manager.{RangeManager, get_range, add_range}
use riscvm.Bus.Manager.Lookup.{get_range_lem, add_range-overlap}
use riscvm.Cpu.State as CpuState
use riscvm.Cpu.State.{Cpu, Hart, get, insert, satp, mstatus, sstatus}
use riscvm.Cpu.Tlb as Tlb
use riscvm.Cpu.Tlb.Laws.{lookup-insert}
use riscvm.Cpu.Trap.{csr_read, csr_write, sstatus_mask}
use riscvm.Cpu.Trap as Trap
use riscvm.Cpu.Trap.Laws.{csr_read-csr_write, ViewWritten}

-- `addi x10, x11, -3`
decode-encode_i_example :
    let i = Decode.new (encode_i (2 ^ 32 - 3) 11 0 10 0x13) in
    (i.opcode ≡ 0x13)
    × (i.rd ≡ 10)
    × (i.funct3 ≡ 0)
    × (i.rs1 ≡ 11)
    × (i.imm_i ≡ widen 32 64 (2 ^ 32 - 3))
decode-encode_i_example =
    decode-encode_i (2 ^ 32 - 3) 11 0 10 0x13 (inr (omega arith, omega arith)) (omega arith)
      (omega arith) (omega arith) (omega arith)

-- `sw x6, -20(x2)`
decode-encode_s_example :
    let i = Decode.new (encode_s (2 ^ 32 - 20) 2 6 2 0x23) in
    (i.opcode ≡ 0x23)
    × (i.funct3 ≡ 2)
    × (i.rs1 ≡ 2)
    × (i.rs2 ≡ 6)
    × (i.imm_s ≡ widen 32 64 (2 ^ 32 - 20))
decode-encode_s_example =
    decode-encode_s (2 ^ 32 - 20) 2 6 2 0x23 (inr (omega arith, omega arith)) (omega arith)
      (omega arith) (omega arith) (omega arith)

-- `bne x5, x6, 2052`
decode-encode_b_example :
    let i = Decode.new (encode_b 2052 5 6 1 0x63) in
    (i.opcode ≡ 0x63) × (i.funct3 ≡ 1) × (i.rs1 ≡ 5) × (i.rs2 ≡ 6) × (i.imm_b ≡ widen 32 64 2052)
decode-encode_b_example =
    decode-encode_b 2052 5 6 1 0x63 (inl (omega arith)) refl (omega arith) (omega arith)
      (omega arith) (omega arith)

-- `jal x1, -4096`
decode-encode_j_example :
    let i = Decode.new (encode_j (2 ^ 32 - 4096) 1 0x6f) in
    (i.opcode ≡ 0x6f) × (i.rd ≡ 1) × (i.imm_j ≡ widen 32 64 (2 ^ 32 - 4096))
decode-encode_j_example =
    decode-encode_j (2 ^ 32 - 4096) 1 0x6f (inr (omega arith, omega arith)) refl (omega arith)
      (omega arith)

abbrev small_ram : Ram
small_ram = Ram.with_content 16 (1 ∷ 2 ∷ 3 ∷ [])

read-write_example :
    ((Ram.write 4 8 0x1122334455667788 small_ram).0 ≡ ok tt)
    × (Ram.read (Ram.write 4 8 0x1122334455667788 small_ram).1 4 8
        ≡ ok (0x1122334455667788 % 2 ^ (8 * 8)))
    × ((i : ℕ)
        → (i < 4) ⊎ (4 + 8 ≤ i)
        → (Ram.write 4 8 0x1122334455667788 small_ram).1.at i ≡ small_ram.at i)
read-write_example =
    read-write small_ram 4 8 0x1122334455667788 (inr (inr (inr refl)))
      (unfold Ram.with_content in omega arith)

-- Interrupts 2 and 5 are pending and enabled, and 5 has the higher priority.
abbrev two_pending : Plic.Plic ℕ
two_pending = record (Plic.new ℕ 0x1000) {
  priority = 0 ∷ 0 ∷ 3 ∷ 0 ∷ 0 ∷ 7 ∷ replicate 26 0;
  enable = 0b100100 ∷ replicate 63 0;
}

two_pending-best : Plic.best two_pending 0b100100 0 ≡ 5
unfolding Plic.best Plic.new
two_pending-best = refl

best_lem_example :
    ((Plic.best two_pending 0b100100 0 ≡ 0)
      × NoneAbove
          (prio_of two_pending.priority)
          (is_candidate (bit_and 0b100100 (get_or two_pending.enable 0 0)))
          (get_or two_pending.threshold 0 0)
          32)
    ⊎ IsBest
        (prio_of two_pending.priority)
        (is_candidate (bit_and 0b100100 (get_or two_pending.enable 0 0)))
        (get_or two_pending.threshold 0 0)
        32
        (Plic.best two_pending 0b100100 0)
best_lem_example = best_lem two_pending 0b100100 0

receive-front_example :
    receive 3 (record (Uart.new 0x100 none none) { rx_queue = (7 ∷ 8 ∷ 9 ∷ []) ++ (10 ∷ []) })
    ≡ (ok (7 ∷ 8 ∷ 9 ∷ []), record (Uart.new 0x100 none none) { rx_queue = 10 ∷ [] })
receive-front_example =
    receive-front (7 ∷ 8 ∷ 9 ∷ []) (10 ∷ []) (Uart.new 0x100 none none) (unfold Uart.new in refl)

abbrev two_ranges : RangeManager
two_ranges = record { starts = 0x1000 ∷ 0x8000 ∷ []; sizes = 0x800 ∷ 0x4000 ∷ [] }

two_ranges-get_range :
    get_range 0x8010 8 two_ranges ≡ ok (1, record { start = 0x8000; size = 0x4000 })
unfolding get_range riscvm.Bus.Manager.partition_point
two_ranges-get_range = refl

get_range_lem_example :
    (1 < 2)
    × (0x8000 ≡ get_or two_ranges.starts 1 0)
    × (0x4000 ≡ get_or two_ranges.sizes 1 0)
    × (0x8000 ≤ 0x8010)
    × (0x8010 + 8 ≤ 0x8000 + 0x4000)
get_range_lem_example =
    get_range_lem 0x8010 8 1 (record { start = 0x8000; size = 0x4000 }) two_ranges
      two_ranges-get_range

add_range-overlap_example :
    add_range (record { start = 0x1400; size = 0x100 }) two_ranges
    ≡ (ok 1, record { starts = 0x1000 ∷ 0x1400 ∷ 0x8000 ∷ []; sizes = 0x800 ∷ 0x100 ∷ 0x4000 ∷ [] })
add_range-overlap_example =
    add_range-overlap 0x1000 0x800 0x8000 0x4000 0x1400 0x100 (omega arith) (omega arith)
      (omega arith) (omega arith) (omega arith)

abbrev filled_tlb : Tlb.Tlb
filled_tlb = Tlb.insert Tlb.new 0x80000 0x80000 7

-- Page 0x80100 takes the slot of page 0x80000.
lookup-insert_example : Tlb.lookup (Tlb.insert filled_tlb 0x80100 0x90000 3) 0x80000 ≡ (
    if 0x80100 == 0x80000
    then some (0x90000, 3)
    else if Tlb.slot 0x80000 == Tlb.slot 0x80100
    then none
    else Tlb.lookup filled_tlb 0x80000)
lookup-insert_example = lookup-insert filled_tlb 0x80100 0x90000 3 0x80000

sstatus-aliased : Trap.aliased_target sstatus ≡ some (mstatus, sstatus_mask)
unfolding Trap.aliased_target
sstatus-aliased = refl

csr_read-csr_write_example : ViewWritten sstatus mstatus sstatus_mask 0xffff (CpuState.new 0)
csr_read-csr_write_example =
    csr_read-csr_write sstatus mstatus sstatus_mask 0xffff (CpuState.new 0) sstatus-aliased
      (unfold CpuState.new get insert in omega arith) (omega arith)
