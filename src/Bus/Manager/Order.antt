-- ===== src/Bus/Manager/Order.antt =====
-- The order of the starts in the table of ranges of rv64rs/src/bus.rs.
use riscvm.Base.{
  ℕ, zero, suc, ◌≤◌, ◌<◌, ◌≢◌, ◌≡◌, refl, sym, ap, ◌∙◌, arith, inl, inr, Bool, true, false,
  Bool-cases,
}
use riscvm.Base.{◌==◌, ltb, if◌then◌else◌, List, [], ◌∷◌, ◌++◌, length, get_or, insert, Outcome}
use riscvm.Bus.Range.{Range}
use riscvm.Bus.Manager.{RangeManager, partition_point, append_range, insert_range, add_range}

-- In strictly ascending order from `low` on.
abbrev pub Ascending : ℕ → List ℕ → Type 0
Ascending low [] = Unit
Ascending low (x ∷ xs) = (low ≤ x) × Ascending (suc x) xs

-- Ordered starts, and a size for each.
pub record IsOrdered (m : RangeManager) : Type 0 where
  pub ascending : Ascending 0 m.starts
  pub paired : length m.sizes ≡ length m.starts

abbrev position_of : ℕ → List ℕ → ℕ
position_of s xs = partition_point (λ x. ltb x s) xs

position_of-le : (s : ℕ) (xs : List ℕ) → position_of s xs ≤ length xs
unfolding partition_point
position_of-le s [] = omega arith
position_of-le s (x ∷ xs) = ground (arith, position_of-le s xs)

insert-Ascending :
    (low s : ℕ) (xs : List ℕ)
    → low ≤ s
    → Ascending low xs
    → (get_or xs (position_of s xs) (suc s) ≢ s)
    → Ascending low (insert xs (position_of s xs) s)
unfolding partition_point
insert-Ascending low s [] l a new = (l, tt)
insert-Ascending low s (x ∷ xs) l (first, rest) new = elim (Bool-cases (ltb x s)) [
  | inl e ↦ rw e (first, insert-Ascending (suc x) s xs (ground (arith, e)) rest (rw e at new))
  | inr e ↦ let other : x ≢ s = rw e at new in rw e (l, (ground (arith, e, other), rest))
]

insert-length : (xs : List ℕ) (s : ℕ) → insert xs (length xs) s ≡ xs ++ (s ∷ [])
insert-length [] s = refl
insert-length (x ∷ xs) s = ap (λ ys. x ∷ ys) (insert-length xs s)

length-insert : (xs : List ℕ) (i v : ℕ) → i ≤ length xs → length (insert xs i v) ≡ suc (length xs)
length-insert xs zero v l = refl
length-insert [] (suc i) v l = absurd (omega arith)
length-insert (x ∷ xs) (suc i) v l = ap suc (length-insert xs i v (omega arith))

-- A range that is placed where it belongs keeps the order.
placed-IsOrdered :
    (range : Range) (m : RangeManager)
    → IsOrdered m
    → get_or m.starts (position_of range.start m.starts) (suc range.start) ≢ range.start
    → IsOrdered (record {
      starts = insert m.starts (position_of range.start m.starts) range.start;
      sizes = insert m.sizes (position_of range.start m.starts) range.size;
    })
placed-IsOrdered range m o new = record {
  ascending = insert-Ascending 0 range.start m.starts (omega arith) o.ascending new;
  paired =
      length-insert m.sizes (position_of range.start m.starts) range.size
        (omega (arith, o.paired, position_of-le range.start m.starts))
      ∙ ap suc o.paired
      ∙ sym (
          length-insert m.starts (position_of range.start m.starts) range.start
            (position_of-le range.start m.starts));
}

get_or_beyond : (xs : List ℕ) (d : ℕ) → get_or xs (length xs) d ≡ d
get_or_beyond [] d = refl
get_or_beyond (x ∷ xs) d = get_or_beyond xs d

get_or_within : (xs : List ℕ) (i d e : ℕ) → i < length xs → get_or xs i d ≡ get_or xs i e
get_or_within [] i d e l = absurd (omega arith)
get_or_within (x ∷ xs) zero d e l = refl
get_or_within (x ∷ xs) (suc i) d e l = get_or_within xs i d e (omega arith)

either-IsOrdered :
    (t : Bool) (x y : Outcome ℕ × RangeManager)
    → (t ≡ true → IsOrdered x.1)
    → (t ≡ false → IsOrdered y.1)
    → IsOrdered (if t then x else y).1
either-IsOrdered true x y p q = p refl
either-IsOrdered false x y p q = q refl

append_range-IsOrdered :
    (range : Range) (m : RangeManager)
    → IsOrdered m
    → position_of range.start m.starts ≡ length m.starts
    → IsOrdered (append_range range m).1
unfolding append_range
append_range-IsOrdered range m o last =
    let new : get_or m.starts (position_of range.start m.starts) (suc range.start) ≢ range.start =
      rw (last, get_or_beyond m.starts (suc range.start)) (λ e. absurd (omega (arith, e))) in
    let placed = placed-IsOrdered range m o new in
    let starts =
      ap (λ i. insert m.starts i range.start) last ∙ insert-length m.starts range.start in
    let sizes =
      ap (λ i. insert m.sizes i range.size) (last ∙ sym o.paired)
      ∙ insert-length m.sizes range.size in
    either-IsOrdered _ _ _ (λ e. rw (starts, sizes) at placed) (λ e. o)

insert_range-IsOrdered :
    (range : Range) (m : RangeManager)
    → IsOrdered m
    → position_of range.start m.starts ≢ length m.starts
    → IsOrdered (insert_range range (position_of range.start m.starts) m).1
unfolding insert_range
insert_range-IsOrdered range m o inside =
    let at = position_of range.start m.starts in
    let within : at < length m.starts =
      omega (arith, position_of-le range.start m.starts, inside) in
    either-IsOrdered (get_or m.starts at 0 == range.start) _ _ (λ e. o)
      (λ e. search (
        either-IsOrdered,
        placed-IsOrdered range m o
            (rw (get_or_within m.starts at (suc range.start) 0 within) (λ q. ground (arith, e, q))),
      ))

-- Where the starts of the ranges are strictly ascending and each has a size, they still are
-- after add_range, whether the new range was accepted or not.
pub add_range-IsOrdered :
    (range : Range) (m : RangeManager) → IsOrdered m → IsOrdered (add_range range m).1
unfolding add_range
add_range-IsOrdered range m o =
    let last_one : (position_of range.start m.starts == length m.starts) ≡ true
        → IsOrdered (append_range range m).1 =
      (λ q. append_range-IsOrdered range m o (ground (arith, q))) in
    let inner : (position_of range.start m.starts == length m.starts) ≡ false
        → IsOrdered (insert_range range (position_of range.start m.starts) m).1 =
      (λ q. insert_range-IsOrdered range m o (λ e. ground (arith, q, e))) in
    search (either-IsOrdered, last_one, inner) depth 8
