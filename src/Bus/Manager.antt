-- ===== src/Bus/Manager.antt =====
-- `RangeManager` of rv64rs/src/bus.rs. `partition_point` is the standard library's: on starts in
-- ascending order, the number of those that satisfy the test.
pub mod Lookup
pub mod Order
use riscvm.Base.{ℕ, zero, suc, ◌+◌, ◌-◌, ◌^◌, Bool, true, false, if◌then◌else◌, ltb, leb, ◌==◌}
use riscvm.Base.{List, [], ◌∷◌, ◌++◌, length, get_or, insert, add64}
use riscvm.Base.{Outcome, ok, err, M, unmapped, invalid_range, overflow_range, range_overlap}
use riscvm.Base.{uncovered}
use riscvm.Bus.Range.{Range}

pub record RangeManager : Type 0 where
  pub starts : List ℕ
  pub sizes : List ℕ

unfoldable pub new : RangeManager
new = record { starts = []; sizes = [] }

unfoldable pub partition_point : (ℕ → Bool) → List ℕ → ℕ
partition_point p [] = 0
partition_point p (x ∷ xs) = if p x then suc (partition_point p xs) else 0

-- A range past the last one is checked against the last one.
unfoldable pub append_range : Range → M RangeManager ℕ
append_range range m =
    let position = length m.starts in
    let prev_end = add64 (get_or m.starts (position - 1) 0) (get_or m.sizes (position - 1) 0) in
    let fits : Bool = if ltb 0 position then leb prev_end range.start else true in
    if fits
    then (
      ok position,
      record { starts = m.starts ++ (range.start ∷ []); sizes = m.sizes ++ (range.size ∷ []) },
    )
    else (err range_overlap, m)

-- Any other is checked against the one that it comes before.
unfoldable pub insert_range : Range → ℕ → M RangeManager ℕ
insert_range range position m =
    if get_or m.starts position 0 == range.start
    then (err range_overlap, m)
    else if ltb (get_or m.starts position 0) (range.start + range.size)
    then (err range_overlap, m)
    else (
      ok position,
      record {
        starts = insert m.starts position range.start;
        sizes = insert m.sizes position range.size;
      },
    )

unfoldable pub add_range : Range → M RangeManager ℕ
unfolding append_range insert_range
add_range range m =
    if range.size == 0
    then (err invalid_range, m)
    else if leb (2 ^ 64) (range.start + range.size)
    then (err overflow_range, m)
    else let position = partition_point (λ s. ltb s range.start) m.starts in
      if position == length m.starts then append_range range m else insert_range range position m

-- `position` is one past the last range that starts at or below the address.
unfoldable pub covering : ℕ → ℕ → ℕ → RangeManager → Outcome (ℕ × Range)
covering address size position m =
    let start = get_or m.starts (position - 1) 0 in
    let extent = get_or m.sizes (position - 1) 0 in
    if position == 0
    then err unmapped
    else if leb (address + size) (add64 start extent)
    then ok (position - 1, record { start = start; size = extent })
    else err uncovered

unfoldable pub get_range : ℕ → ℕ → RangeManager → Outcome (ℕ × Range)
unfolding covering
get_range address size m =
    if size == 0
    then err invalid_range
    else if leb (2 ^ 64) (address + size)
    then err overflow_range
    else covering address size (partition_point (λ s. leb s address) m.starts) m

-- The text lists the starts and the ends, which wrap.
unfoldable pub bounds : List ℕ → List ℕ → List (ℕ × ℕ)
bounds [] sizes = []
bounds (start ∷ starts) [] = []
bounds (start ∷ starts) (size ∷ sizes) = (start, add64 start size) ∷ bounds starts sizes

unfoldable pub describe : RangeManager → List (ℕ × ℕ)
unfolding bounds
describe m = bounds m.starts m.sizes
