-- ===== src/Cpu/Words/Access.antt =====
-- The words of a hart across translation (rv64rs/src/mmu.rs) and its accesses.
use riscvm.Base.{ℕ, zero, suc, ◌*◌, ◌==◌, ◌!=◌, bit_and, bit_or, shr, add64, Option, none, some}
use riscvm.Base.{
  Outcome, ok, err, panic, timeout, fail, pure, permission_denied, unsupported_satp, walk_exhausted,
  invalid_pte, reserved_pte,
}
use riscvm.Base.Yields.{any-Holds}
use riscvm.Base.Yields.{
  Holds, Anything, Yields, pure-Yields, fail-Yields, if-Yields, bind-Yields, if_state-Yields,
}
use riscvm.Bus.Access as BusAccess
use riscvm.Bus.Write as BusWrite
use riscvm.Bus.Words.{IsWord, BusWords}
use riscvm.Bus.Words.Access.{read-Yields}
use riscvm.Bus.Words.Write.{write-Yields}
use riscvm.Cpu.State.{Hart, get, satp, on_bus}
use riscvm.Cpu.Tlb
use riscvm.Cpu.Mmu.{
  Access, walk, vpn, finish, leaf_ppn, physical, perm_bits, required, root, translate_paged,
  translate_miss, translate_hit, translate,
}
use riscvm.Cpu.Mmu.{
  pte_v, pte_r, pte_w, pte_x, ppn_mask, pagesize, mode_bare, mode_sv39, read_access, write_access,
}
use riscvm.Cpu.Execute.{read, write}
use riscvm.Cpu.Words.{HartWords, on_bus-Yields, set_tlb-CpuWords}

walk-Yields : (va n a : ℕ) → Yields BusWords Anything (walk va n a)
unfolding walk
walk-Yields va zero a = fail-Yields BusWords Anything walk_exhausted
walk-Yields va (suc level) a =
    bind-Yields BusWords IsWord Anything _ _ (read-Yields (add64 a (vpn va level * 8)) 8) (λ pte _.
      if-Yields BusWords Anything (bit_and pte pte_v == 0) _ _
        (fail-Yields BusWords Anything invalid_pte)
        (if-Yields BusWords Anything (bit_and pte (bit_or pte_r pte_x) != 0) _ _
          (pure-Yields BusWords Anything (pte, level) tt)
          (if-Yields BusWords Anything (bit_and pte pte_w != 0) _ _
            (fail-Yields BusWords Anything reserved_pte)
            (walk-Yields va level (bit_and (shr 64 pte 10) ppn_mask * pagesize)))))

finish-Yields :
    (va : ℕ) (access : Access) (leaf : ℕ × ℕ) → Yields HartWords Anything (finish va access leaf)
unfolding finish
finish-Yields va access (pte, level) =
    if_state-Yields HartWords Anything (λ h. bit_and pte (required access) == 0)
      (fail permission_denied) _ (fail-Yields HartWords Anything permission_denied)
      (record { yields = λ h w. entered (leaf_ppn va pte level) h w })
  where
    entered :
        (r : Outcome ℕ) (h : Hart)
        → HartWords h
        → let x = elim r as (λ _. Outcome ℕ × Hart) [
          | ok ppn ↦ (
            ok (physical ppn va),
            record h {
              cpu = record (h.cpu) {
                tlb = Tlb.insert h.cpu.tlb (shr 64 va 12) ppn (perm_bits pte);
              };
            },
          )
          | err e ↦ (err e, h)
          | panic ↦ (panic, h)
          | timeout ↦ (timeout, h)
        ] in
          HartWords x.1 × Holds Anything x.0
    entered (ok ppn) h w = (record { cpu = set_tlb-CpuWords h.cpu _ w.cpu; bus = w.bus }, tt)
    entered (err e) h w = (w, tt)
    entered panic h w = (w, tt)
    entered timeout h w = (w, tt)

translate_miss-Yields :
    (va : ℕ) (access : Access) (table : ℕ)
    → Yields HartWords Anything (translate_miss va access table)
unfolding translate_miss
translate_miss-Yields va access table =
    bind-Yields HartWords Anything Anything (on_bus (walk va 3 (root table))) _
      (on_bus-Yields Anything _ (walk-Yields va 3 (root table)))
      (λ leaf _. finish-Yields va access leaf)

translate_paged-Yields :
    (va : ℕ) (access : Access) (table : ℕ)
    → Yields HartWords Anything (translate_paged va access table)
unfolding translate_paged
translate_paged-Yields va access table =
    if_state-Yields HartWords Anything (λ h. shr 64 table 60 != mode_sv39) (fail unsupported_satp) _
      (fail-Yields HartWords Anything unsupported_satp)
      (record { yields = λ h w. looked (Tlb.lookup h.cpu.tlb (shr 64 va 12)) h w })
  where
    looked :
        (o : Option (ℕ × ℕ)) (h : Hart)
        → HartWords h
        → let x = elim o as (λ _. Outcome ℕ × Hart) [
          | some entry ↦ (translate_hit va access entry, h)
          | none ↦ translate_miss va access table h
        ] in
          HartWords x.1 × Holds Anything x.0
    looked (some entry) h w = (w, any-Holds (translate_hit va access entry))
    looked none h w = (translate_miss-Yields va access table).yields h w

pub translate-Yields : (va : ℕ) (access : Access) → Yields HartWords Anything (translate va access)
unfolding translate
translate-Yields va access =
    if_state-Yields HartWords Anything (λ h. shr 64 (get h.cpu.csrs satp) 60 == mode_bare) (pure va)
      (λ h. translate_paged va access (get h.cpu.csrs satp) h)
      (pure-Yields HartWords Anything va tt)
      (record { yields = λ h. (translate_paged-Yields va access (get h.cpu.csrs satp)).yields h })

-- `Cpu::read` and `Cpu::write`.
pub read-HartYields : (address size : ℕ) → Yields HartWords IsWord (read address size)
unfolding read
read-HartYields address size =
    bind-Yields HartWords Anything IsWord (translate address read_access) _
      (translate-Yields address read_access)
      (λ pa _. on_bus-Yields IsWord (BusAccess.read pa size) (read-Yields pa size))

pub write-HartYields :
    (address size value : ℕ) → IsWord value → Yields HartWords Anything (write address size value)
unfolding write
write-HartYields address size value l =
    bind-Yields HartWords Anything Anything (translate address write_access) _
      (translate-Yields address write_access)
      (λ pa _. on_bus-Yields Anything (BusWrite.write pa size value) (write-Yields pa size value l))
