-- ===== src/Bus/Manager/Lookup.antt =====
-- What `get_range` and `add_range` of rv64rs/src/bus.rs answer.
use riscvm.Base.{ℕ, zero, suc, ◌+◌, ◌-◌, ◌^◌, ◌≤◌, ◌<◌, ◌≡◌, refl, arith, inl, inr}
use riscvm.Base.{Bool, true, false, Bool-cases, leb, ◌==◌, if◌then◌else◌, leb→le, List, [], ◌∷◌}
use riscvm.Base.{
  Error, unmapped, uncovered, invalid_range, overflow_range, length, get_or, Outcome, ok, err,
  add64,
}
use riscvm.Bus.Range.{Range}
use riscvm.Bus.Manager.{RangeManager, partition_point, get_range, covering, add_range, insert_range}
use riscvm.Bus.Manager.{append_range}

-- The last element that the search passed satisfies the test.
partition_point_lem :
    (p : ℕ → Bool) (xs : List ℕ) (k : ℕ)
    → partition_point p xs ≡ suc k
    → (k < length xs) × (p (get_or xs k 0) ≡ true)
unfolding partition_point
partition_point_lem p [] k h = absurd (omega (arith, h))
partition_point_lem p (x ∷ xs) zero h = elim (Bool-cases (p x)) [
  | inl e ↦ (omega arith, e)
  | inr e ↦ absurd (omega (arith, rw e at h))
]
partition_point_lem p (x ∷ xs) (suc k) h = elim (Bool-cases (p x)) [
  | inl e ↦
      let (l, q) = partition_point_lem p xs k (omega (arith, rw e at h)) in (omega (arith, l), q)
  | inr e ↦ absurd (omega (arith, rw e at h))
]

covering_lem :
    (address size position i : ℕ) (r : Range) (m : RangeManager)
    → covering address size position m ≡ ok (i, r)
    → (position ≡ suc i)
      × (r.start ≡ get_or m.starts i 0)
      × (r.size ≡ get_or m.sizes i 0)
      × (address + size ≤ r.start + r.size)
unfolding covering
covering_lem address size position i r m h = tested (position == 0) within refl refl h
  where
    last : ℕ
    last = position - 1

    within : Bool
    within = leb (address + size) (add64 (get_or m.starts last 0) (get_or m.sizes last 0))

    tested :
        (t u : Bool)
        → (position == 0) ≡ t
        → within ≡ u
        → if◌then◌else◌ {A = Outcome (ℕ × Range)} t (err unmapped) (
            if u
            then ok (last, record { start = get_or m.starts last 0; size = get_or m.sizes last 0 })
            else err uncovered)
          ≡ ok (i, r)
        → (position ≡ suc i)
          × (r.start ≡ get_or m.starts i 0)
          × (r.size ≡ get_or m.sizes i 0)
          × (address + size ≤ r.start + r.size)
    tested true u z e q = absurd (cc q)
    tested false false z e q = absurd (cc q)
    tested false true z e q = ground (arith, q, z, leb→le _ _ e)

guarded_lem :
    (t u : Bool) (x y : Error) (o : Outcome (ℕ × Range)) (i : ℕ) (r : Range)
    → (if t then err x else if u then err y else o) ≡ ok (i, r)
    → o ≡ ok (i, r)
guarded_lem true u x y o i r h = absurd (cc h)
guarded_lem false true x y o i r h = absurd (cc h)
guarded_lem false false x y o i r h = h

-- The range that get_range gives an access is one of the manager's, under its index, and the
-- whole access lies within it.
pub get_range_lem :
    (address size i : ℕ) (r : Range) (m : RangeManager)
    → get_range address size m ≡ ok (i, r)
    → (i < length m.starts)
      × (r.start ≡ get_or m.starts i 0)
      × (r.size ≡ get_or m.sizes i 0)
      × (r.start ≤ address)
      × (address + size ≤ r.start + r.size)
unfolding get_range
get_range_lem address size i r m h =
    let position = partition_point (λ s. leb s address) m.starts in
    let found : covering address size position m ≡ ok (i, r) =
      guarded_lem (size == 0) (leb (2 ^ 64) (address + size)) invalid_range overflow_range _ i r
        h in
    let (at_suc, start, extent, within) = covering_lem address size position i r m found in
    let (index, starts_below) = partition_point_lem (λ s. leb s address) m.starts i at_suc in
    (index, start, extent, omega (arith, start, leb→le _ _ starts_below), within)

-- A range that starts inside one range and ends before the next is accepted, although it
-- overlaps the first.
pub add_range-overlap :
    (s n s' n' x k : ℕ)
    → s < x
    → x < s + n
    → 0 < k
    → x + k ≤ s'
    → s' < 2 ^ 64
    → add_range
        (record { start = x; size = k })
        (record { starts = s ∷ s' ∷ []; sizes = n ∷ n' ∷ [] })
      ≡ (ok 1, record { starts = s ∷ x ∷ s' ∷ []; sizes = n ∷ k ∷ n' ∷ [] })
unfolding add_range append_range insert_range partition_point
add_range-overlap s n s' n' x k h1 h2 h3 h4 h5 = ground arith
