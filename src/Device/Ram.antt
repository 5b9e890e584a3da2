-- ===== src/Device/Ram.antt =====
-- rv64rs/src/ram.rs: a byte array, little-endian, in accesses of 1, 2, 4 and 8 bytes.
-- The array is its length and its bytes by index. A slice out of range panics.
pub mod Laws
use riscvm.Base.{ℕ, zero, suc, ◌+◌, ◌*◌, ◌/◌, ◌%◌, ◌^◌, max, Bool, if◌then◌else◌, ltb, leb, ◌==◌}
use riscvm.Base.{List, length, get_or, Outcome, ok, err, panic, Error, invalid_size}
use riscvm.Base.{M, pure, fail, crash, u8, u16, u32, u64}

pub record Bytes : Type 0 where
  pub len : ℕ
  pub at : ℕ → ℕ

-- `vec![0u8; n]`, and a vector that holds `content`.
unfoldable pub zeroed : ℕ → Bytes
zeroed n = record { len = n; at = λ _. 0 }

unfoldable pub of_list : List ℕ → Bytes
of_list content = record { len = length content; at = λ i. get_or content i 0 }

-- `resize(n, 0)`.
unfoldable pub resize : Bytes → ℕ → Bytes
resize b n = record { len = n; at = λ i. if ltb i b.len then b.at i else 0 }

-- The `n` bytes from `a` on, as a little-endian number, and the bytes of a number.
unfoldable pub from_le_bytes : (ℕ → ℕ) → ℕ → ℕ → ℕ
from_le_bytes at a zero = 0
from_le_bytes at a (suc n) = at a + 256 * from_le_bytes at (a + 1) n

unfoldable pub to_le_bytes : (ℕ → ℕ) → ℕ → ℕ → ℕ → ℕ → ℕ
to_le_bytes at a zero v = at
to_le_bytes at a (suc n) v = λ i. if i == a then v % 256 else to_le_bytes at (a + 1) n (v / 256) i

abbrev pub Ram : Type 0
Ram = Bytes

-- `with_content(size, content)`.
unfoldable pub with_content : ℕ → List ℕ → Ram
unfolding of_list resize
with_content size content = resize (of_list content) (max size (length content))

-- `self.data[a..a + n]`
unfoldable pub read_slice : Ram → ℕ → ℕ → Outcome ℕ
read_slice r a n = if leb (a + n) r.len then ok (from_le_bytes r.at a n) else panic

unfoldable pub read : Ram → ℕ → ℕ → Outcome ℕ
unfolding read_slice
read r a size =
    if size == 1
    then read_slice r a 1
    else if size == 2
    then read_slice r a 2
    else if size == 4
    then read_slice r a 4
    else if size == 8
    then read_slice r a 8
    else err invalid_size

unfoldable pub write_slice : ℕ → ℕ → ℕ → M Ram (Unit {0})
write_slice a n v r =
    if leb (a + n) r.len then (ok tt, record r { at = to_le_bytes r.at a n v }) else (panic, r)

unfoldable pub write : ℕ → ℕ → ℕ → M Ram (Unit {0})
unfolding write_slice
write a size value =
    if size == 1
    then write_slice a 1 (u8 value)
    else if size == 2
    then write_slice a 2 (u16 value)
    else if size == 4
    then write_slice a 4 (u32 value)
    else if size == 8
    then write_slice a 8 (u64 value)
    else fail invalid_size
