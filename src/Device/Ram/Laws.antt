-- ===== src/Device/Ram/Laws.antt =====
-- What a read of the memory of rv64rs/src/ram.rs returns after a write.
use riscvm.Base.{
  ℕ, zero, suc, ◌+◌, ◌*◌, ◌/◌, ◌%◌, ◌^◌, ◌≤◌, ◌<◌, ◌≡◌, refl, ◌∙◌, ap, ◌⊎◌, inl, inr, arith,
}
use riscvm.Base.{ok, Outcome}
use riscvm.Device.Ram.{Ram, from_le_bytes, to_le_bytes, read, write, read_slice, write_slice}

-- A number is read from the bytes in its range only.
from_le_cong :
    (f g : ℕ → ℕ) (a n : ℕ)
    → ((i : ℕ) → a ≤ i → i < a + n → f i ≡ g i)
    → from_le_bytes f a n ≡ from_le_bytes g a n
unfolding from_le_bytes
from_le_cong f g a zero h = refl
from_le_cong f g a (suc n) h = omega (
  arith,
  h a (omega arith) (omega arith),
  from_le_cong f g (a + 1) n (λ i p q. h i (omega arith) (omega arith)),
)

to_le_outside : (f : ℕ → ℕ) (a n v i : ℕ) → (i < a) ⊎ (a + n ≤ i) → to_le_bytes f a n v i ≡ f i
unfolding to_le_bytes
to_le_outside f a zero v i h = refl
to_le_outside f a (suc n) v i h =
    ground (arith, to_le_outside f (a + 1) n (v / 256) i (grind arith))

-- The value of `n` little-endian bytes.
low_bytes : ℕ → ℕ → ℕ
low_bytes zero v = 0
low_bytes (suc n) v = v % 256 + 256 * low_bytes n (v / 256)

from-to_le_bytes : (f : ℕ → ℕ) (a n v : ℕ) → from_le_bytes (to_le_bytes f a n v) a n ≡ low_bytes n v
unfolding from_le_bytes to_le_bytes low_bytes
from-to_le_bytes f a zero v = refl
from-to_le_bytes f a (suc n) v = ground (
  arith,
  from-to_le_bytes f (a + 1) n (v / 256),
  from_le_cong (to_le_bytes f a (suc n) v) (to_le_bytes f (a + 1) n (v / 256)) (a + 1) n
      (λ i p q. unfold to_le_bytes in ground arith),
)

low_bytes_fits :
    (v : ℕ)
    → (low_bytes 1 (v % 2 ^ 8) ≡ v % 2 ^ 8)
      × (low_bytes 2 (v % 2 ^ 16) ≡ v % 2 ^ 16)
      × (low_bytes 4 (v % 2 ^ 32) ≡ v % 2 ^ 32)
      × (low_bytes 8 (v % 2 ^ 64) ≡ v % 2 ^ 64)
unfolding low_bytes
low_bytes_fits v = (omega arith, omega arith, omega arith, omega arith)

-- The sizes of an access.
abbrev pub IsSize : ℕ → Type 0
IsSize s = (s ≡ 1) ⊎ (s ≡ 2) ⊎ (s ≡ 4) ⊎ (s ≡ 8)

slice_round_trip :
    (r : Ram) (a n v : ℕ)
    → a + n ≤ r.len
    → ((write_slice a n v r).0 ≡ ok tt)
      × (read_slice (write_slice a n v r).1 a n ≡ ok (low_bytes n v))
unfolding write_slice read_slice
slice_round_trip r a n v h = (ground arith, ground (arith, from-to_le_bytes r.at a n v))

write_slice_outside :
    (r : Ram) (a n v i : ℕ) → (i < a) ⊎ (a + n ≤ i) → (write_slice a n v r).1.at i ≡ r.at i
unfolding write_slice
write_slice_outside r a n v i h = ground (arith, to_le_outside r.at a n v i h)

slice_beyond : (r : Ram) (a n : ℕ) → r.len < a + n → read_slice r a n ≡ Outcome.panic
unfolding read_slice
slice_beyond r a n h = ground arith

-- An access of 1, 2, 4 or 8 bytes within the memory succeeds; a read at the same place returns
-- what was written, cut to the size; no byte outside of the place changes.
pub read-write :
    (r : Ram) (a size v : ℕ)
    → IsSize size
    → a + size ≤ r.len
    → ((write a size v r).0 ≡ ok tt)
      × (read (write a size v r).1 a size ≡ ok (v % 2 ^ (8 * size)))
      × ((i : ℕ) → (i < a) ⊎ (a + size ≤ i) → (write a size v r).1.at i ≡ r.at i)
unfolding write read
read-write r a size v (inl e) h =
    let (w, back) = slice_round_trip r a 1 (v % 2 ^ 8) (rw e at h) in
    rw e (w, back ∙ ap ok (low_bytes_fits v).0, λ i. write_slice_outside r a 1 (v % 2 ^ 8) i)
read-write r a size v (inr (inl e)) h =
    let (w, back) = slice_round_trip r a 2 (v % 2 ^ 16) (rw e at h) in
    rw e (w, back ∙ ap ok (low_bytes_fits v).1, λ i. write_slice_outside r a 2 (v % 2 ^ 16) i)
read-write r a size v (inr (inr (inl e))) h =
    let (w, back) = slice_round_trip r a 4 (v % 2 ^ 32) (rw e at h) in
    rw e (w, back ∙ ap ok (low_bytes_fits v).2, λ i. write_slice_outside r a 4 (v % 2 ^ 32) i)
read-write r a size v (inr (inr (inr e))) h =
    let (w, back) = slice_round_trip r a 8 (v % 2 ^ 64) (rw e at h) in
    rw e (w, back ∙ ap ok (low_bytes_fits v).3, λ i. write_slice_outside r a 8 (v % 2 ^ 64) i)
