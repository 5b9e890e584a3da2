-- ===== src/Device/Clint.antt =====
-- rv64rs/src/clint.rs: the timer. `mtimecmp` has a slot for each hart.
pub mod Laws
use riscvm.Base.{ℕ, ◌+◌, ◌-◌, ◌*◌, ◌/◌, Bool, ◌&&◌, if◌then◌else◌, ltb, leb, ◌==◌, ◌!=◌}
use riscvm.Base.{List, length, get_elem?, set, replicate, Outcome, ok, unwrap}
use riscvm.Base.{M, clint_size, u64_max, u64}
use mathlib.Core.Option.{none, some}

abbrev pub mtime_offset : ℕ
mtime_offset = 0xbff8

abbrev pub mtimecmp_offset : ℕ
mtimecmp_offset = 0x4000

pub record Clint : Type 0 where
  pub size : ℕ
  pub mtime : ℕ
  pub mtimecmp : List ℕ

unfoldable pub new : ℕ → ℕ → Clint
new size nhart = record { size = size; mtime = 0; mtimecmp = replicate nhart u64_max }

unfoldable pub tick : Clint → Clint
tick c = record c { mtime = u64 (c.mtime + 1) }

-- An index out of range panics.
unfoldable pub pending : Clint → ℕ → Outcome Bool
pending c hart = elim (get_elem? c.mtimecmp hart) [
  | none ↦ Outcome.panic
  | some t ↦ ok (leb t c.mtime)
]

-- `(MTIMECMP_OFFSET..mtimecmp_end).contains(&address)`
abbrev pub in_mtimecmp : Clint → ℕ → Bool
in_mtimecmp c address =
    leb mtimecmp_offset address && ltb address (mtimecmp_offset + 8 * length c.mtimecmp)

abbrev pub slot : ℕ → ℕ
slot address = (address - mtimecmp_offset) / 8

unfoldable pub read : ℕ → ℕ → M Clint ℕ
read address size c =
    if size != 8
    then (Outcome.err clint_size, c)
    else if address == mtime_offset
    then (ok c.mtime, c)
    else if in_mtimecmp c address
    then (unwrap (get_elem? c.mtimecmp (slot address)), c)
    else (ok 0, c)

unfoldable pub write : ℕ → ℕ → ℕ → M Clint (Unit {0})
write address size value c =
    if size != 8
    then (Outcome.err clint_size, c)
    else if address == mtime_offset
    then (ok tt, record c { mtime = value })
    else if in_mtimecmp c address
    then (ok tt, record c { mtimecmp = set c.mtimecmp (slot address) value })
    else (ok tt, c)
