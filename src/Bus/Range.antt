-- ===== src/Bus/Range.antt =====
-- `Range` of rv64rs/src/bus.rs.
use riscvm.Base.{ℕ, ◌+◌, ◌^◌, Bool, false, ◌&&◌, if◌then◌else◌, ltb, leb, add64}

pub record Range : Type 0 where
  pub start : ℕ
  pub size : ℕ

-- `Range::NONE`, the range of a slot that is not populated.
abbrev pub nothing : Range
nothing = record { start = 0; size = 0 }

-- The sum on the left is checked, the one on the right is not.
unfoldable pub contains : Range → ℕ → ℕ → Bool
contains r address size =
    if ltb (address + size) (2 ^ 64)
    then leb r.start address && leb (address + size) (add64 r.start r.size)
    else false
