-- ===== src/Cpu/Mmu.antt =====
-- `translate` of rv64rs/src/mmu.rs: Sv39, through the TLB. The `vpn` array is a function, and the
-- walk counts the levels that are left.
pub mod Spec
pub mod Walk
pub mod Refine
use riscvm.Base.{ℕ, zero, suc, ◌+◌, ◌-◌, ◌*◌, ◌/◌, ◌%◌, ◌^◌, Bool, true, false, ◌&&◌, if◌then◌else◌}
use riscvm.Base.{ltb, ◌==◌, ◌!=◌, Option, none, some, bit_and, bit_or, inv, shl, shr, add64}
use riscvm.Base.{M, Outcome, ok, err, panic, timeout, pure, fail, ◌>>=◌, ◌>>◌, unsupported_satp}
use riscvm.Base.{permission_denied, walk_exhausted, invalid_pte, reserved_pte, misaligned}
use riscvm.Bus.State.{Bus}
use riscvm.Bus.Access.{read}
use riscvm.Cpu.Tlb
use riscvm.Cpu.State.{Cpu, Hart, get, satp, on_cpu, on_bus}

abbrev pub pte_v : ℕ
pte_v = 1

abbrev pub pte_r : ℕ
pte_r = 2

abbrev pub pte_w : ℕ
pte_w = 4

abbrev pub pte_x : ℕ
pte_x = 8

abbrev pub ppn_mask : ℕ
ppn_mask = 2 ^ 44 - 1

abbrev pub pagesize : ℕ
pagesize = 0x1000

abbrev pub mode_bare : ℕ
mode_bare = 0

abbrev pub mode_sv39 : ℕ
mode_sv39 = 8

pub data Access : Type 0 where
  read_access write_access fetch_access : Access

unfoldable pub required : Access → ℕ
required read_access = pte_r
required write_access = pte_w
required fetch_access = pte_x

-- `vpn[level]`
unfoldable pub vpn : ℕ → ℕ → ℕ
vpn va level = bit_and (shr 64 va (12 + 9 * level)) 0x1ff

-- The loop, at `level = left - 1`: the leaf PTE and its level.
unfoldable pub walk : ℕ → ℕ → ℕ → M Bus (ℕ × ℕ)
unfolding vpn
walk va zero a = fail walk_exhausted
walk va (suc level) a = do
  pte ← read (add64 a (vpn va level * 8)) 8
  let deeper = walk va level (bit_and (shr 64 pte 10) ppn_mask * pagesize)
  if bit_and pte pte_v == 0
      then fail invalid_pte
      else if bit_and pte (bit_or pte_r pte_x) != 0
      then pure (pte, level)
      else if bit_and pte pte_w != 0
      then fail reserved_pte
      else deeper

-- The low page-number fields of a superpage come from the address.
unfoldable pub va_low : ℕ → ℕ → ℕ
unfolding vpn
va_low va zero = 0
va_low va (suc l) = bit_or (va_low va l) (shl 64 (vpn va l) (9 * l))

unfoldable pub leaf_ppn : ℕ → ℕ → ℕ → Outcome ℕ
unfolding va_low
leaf_ppn va pte level =
    let ppn = bit_and (shr 64 pte 10) ppn_mask in
    let low_mask = shl 64 1 (9 * level) - 1 in
    if ltb 0 level
    then (if bit_and ppn low_mask != 0
        then err misaligned
        else ok (bit_or (bit_and ppn (inv 64 low_mask)) (va_low va level)))
    else ok ppn

-- `(ppn << 12) | (va & 0xfff)`
unfoldable pub physical : ℕ → ℕ → ℕ
physical ppn va = bit_or (shl 64 ppn 12) (bit_and va 0xfff)

-- The permission bits that the TLB keeps.
unfoldable pub perm_bits : ℕ → ℕ
perm_bits pte = bit_and pte (bit_or (bit_or pte_r pte_w) pte_x)

-- What follows the walk: the permission, the alignment, the new entry.
unfoldable pub finish : ℕ → Access → ℕ × ℕ → M Hart ℕ
unfolding required leaf_ppn physical perm_bits
finish va access (pte, level) h =
    if bit_and pte (required access) == 0
    then (err permission_denied, h)
    else elim (leaf_ppn va pte level) [
      | ok ppn ↦ (
        ok (physical ppn va),
        record h {
          cpu = record (h.cpu) { tlb = Tlb.insert h.cpu.tlb (shr 64 va 12) ppn (perm_bits pte) };
        },
      )
      | err e ↦ (err e, h)
      | panic ↦ (panic, h)
      | timeout ↦ (timeout, h)
    ]

unfoldable pub root : ℕ → ℕ
root table = bit_and table ppn_mask * pagesize

unfoldable pub translate_miss : ℕ → Access → ℕ → M Hart ℕ
unfolding walk finish root
translate_miss va access table = do leaf ← on_bus (walk va 3 (root table)); finish va access leaf

unfoldable pub translate_hit : ℕ → Access → ℕ × ℕ → Outcome ℕ
unfolding required physical
translate_hit va access (ppn, perm) =
    if bit_and perm (required access) == 0 then err permission_denied else ok (physical ppn va)

unfoldable pub translate_paged : ℕ → Access → ℕ → M Hart ℕ
unfolding translate_miss translate_hit
translate_paged va access table h =
    if shr 64 table 60 != mode_sv39
    then (err unsupported_satp, h)
    else elim (Tlb.lookup h.cpu.tlb (shr 64 va 12)) [
      | some entry ↦ (translate_hit va access entry, h)
      | none ↦ translate_miss va access table h
    ]

unfoldable pub translate : ℕ → Access → M Hart ℕ
unfolding translate_paged
translate va access h =
    let table = get h.cpu.csrs satp in
    if shr 64 table 60 == mode_bare then (ok va, h) else translate_paged va access table h
