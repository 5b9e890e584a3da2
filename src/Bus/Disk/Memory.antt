-- ===== src/Bus/Disk/Memory.antt =====
-- Accesses of rv64rs/src/bus.rs to the guest's memory, a byte at a time.
use riscvm.Base.{
  ℕ, zero, suc, ◌+◌, ◌-◌, ◌%◌, ◌^◌, ◌≤◌, ◌<◌, ◌≡◌, refl, ap, ◌∙◌, ◌⊎◌, arith, inl, true,
}
use riscvm.Base.{◌==◌, if◌then◌else◌, List, [], ◌∷◌, get_or, ok, add64, u8, pure, next, ◌>>=◌}
use riscvm.Device.Ram as Ram
use riscvm.Device.Ram.{Ram, Bytes}
use riscvm.Bus.Range.{contains}
use riscvm.Bus.State.{Bus}
use riscvm.Bus.Access.{read, write_with}
use riscvm.Bus.Queue.{dma_write, copy_out, copy_in}

-- The `n` bytes from `a` on are in the memory.
pub record IsMapped (b : Bus) (a n : ℕ) : Type 0 where
  pub starts : b.ram_range.start ≤ a
  pub ends : a + n ≤ b.ram_range.start + b.ram_range.size
  pub fits : b.ram_range.start + b.ram_range.size < 2 ^ 64
  pub sized : b.ram_range.size ≡ b.ram.len

-- The byte at an address.
abbrev pub byte_at : Bus → ℕ → ℕ
byte_at b a = b.ram.at (a - b.ram_range.start)

mapped-contains : (b : Bus) (a n : ℕ) → IsMapped b a n → contains b.ram_range a n ≡ true
unfolding contains
mapped-contains b a n m = ground (arith, m.starts, m.ends, m.fits)

IsMapped-first : (b : Bus) (a n : ℕ) → IsMapped b a (suc n) → IsMapped b a 1
IsMapped-first b a n m = record {
  starts = m.starts;
  ends = omega (arith, m.ends);
  fits = m.fits;
  sized = m.sized;
}

read-byte : (b : Bus) (a : ℕ) → IsMapped b a 1 → read a 1 b ≡ (ok (byte_at b a), b)
unfolding read Ram.read Ram.from_le_bytes
read-byte b a m = rw (mapped-contains b a 1 m) (ground (arith, m.starts, m.ends, m.sized))

-- The memory with one byte more.
abbrev put_byte : ℕ → ℕ → Ram → Ram
put_byte i v r = record r { at = λ j. if j == i then v % 256 else r.at j }

write-byte :
    (b : Bus) (a v : ℕ)
    → IsMapped b a 1
    → dma_write a 1 v b ≡ (ok tt, record b { ram = put_byte (a - b.ram_range.start) (u8 v) b.ram })
unfolding dma_write write_with Ram.write Ram.to_le_bytes
write-byte b a v m = rw (mapped-contains b a 1 m) (ground (arith, m.starts, m.ends, m.sized))

-- The memory with `n` bytes of the disk, from `off` on, at `i`.
abbrev pub fill : ℕ → Bytes → ℕ → ℕ → Ram → Ram
fill zero disk off i r = r
fill (suc n) disk off i r = fill n disk (off + 1) (i + 1) (put_byte i (u8 (disk.at off)) r)

pub fill-len : (n : ℕ) (disk : Bytes) (off i : ℕ) (r : Ram) → (fill n disk off i r).len ≡ r.len
fill-len zero disk off i r = refl
fill-len (suc n) disk off i r = fill-len n disk (off + 1) (i + 1) (put_byte i (u8 (disk.at off)) r)

pub fill-outside :
    (n : ℕ) (disk : Bytes) (off i j : ℕ) (r : Ram)
    → (j < i) ⊎ (i + n ≤ j)
    → (fill n disk off i r).at j ≡ r.at j
fill-outside zero disk off i j r l = refl
fill-outside (suc n) disk off i j r l =
    fill-outside n disk (off + 1) (i + 1) j (put_byte i (u8 (disk.at off)) r) (grind (arith, l))
    ∙ ground (arith, l)

pub fill-inside :
    (n : ℕ) (disk : Bytes) (off i k : ℕ) (r : Ram)
    → k < n
    → (fill n disk off i r).at (i + k) ≡ u8 (disk.at (off + k))
fill-inside zero disk off i k r l = absurd (omega (arith, l))
fill-inside (suc n) disk off i zero r l =
    let here : i + 0 ≡ i = omega arith in
    let first : off + 0 ≡ off = omega arith in
    rw (here, first)
      (fill-outside n disk (off + 1) (i + 1) i (put_byte i (u8 (disk.at off)) r) (inl (omega arith))
        ∙ ground arith)
fill-inside (suc n) disk off i (suc k) r l =
    let here : i + suc k ≡ i + 1 + k = omega arith in
    let there : off + suc k ≡ off + 1 + k = omega arith in
    rw (here, there)
      (fill-inside n disk (off + 1) (i + 1) k (put_byte i (u8 (disk.at off)) r) (omega (arith, l)))

pub copy_out-fill :
    (n : ℕ) (disk : Bytes) (off a : ℕ) (b : Bus)
    → IsMapped b a n
    → copy_out n disk off a b
      ≡ (ok tt, record b { ram = fill n disk off (a - b.ram_range.start) b.ram })
unfolding copy_out
copy_out-fill zero disk off a b m = refl
copy_out-fill (suc n) disk off a b m =
    let up : add64 a 1 ≡ a + 1 = omega (arith, m.ends, m.fits) in
    let shifted : a + 1 - b.ram_range.start ≡ a - b.ram_range.start + 1 = omega (arith, m.starts) in
    let b' = record b { ram = put_byte (a - b.ram_range.start) (u8 (disk.at off)) b.ram } in
    let rest : IsMapped b' (a + 1) n = record {
      starts = omega (arith, m.starts);
      ends = omega (arith, m.ends);
      fits = m.fits;
      sized = m.sized;
    } in
    ap (next (λ _. copy_out n disk (off + 1) (add64 a 1)))
      (write-byte b a (disk.at off) (IsMapped-first b a n m))
    ∙ ap (λ x. copy_out n disk (off + 1) x b') up
    ∙ copy_out-fill n disk (off + 1) (a + 1) b' rest
    ∙ ap (λ i. (ok tt, record b { ram = fill n disk (off + 1) i b'.ram })) shifted

-- The bytes of the memory from `a` on.
abbrev pub bytes : ℕ → Bus → ℕ → List ℕ
bytes zero b a = []
bytes (suc n) b a = u8 (byte_at b a) ∷ bytes n b (a + 1)

pub get_or-bytes :
    (n : ℕ) (b : Bus) (a k : ℕ) → k < n → get_or (bytes n b a) k 0 ≡ u8 (byte_at b (a + k))
get_or-bytes zero b a k l = absurd (omega (arith, l))
get_or-bytes (suc n) b a zero l = let here : a + 0 ≡ a = omega arith in rw here refl
get_or-bytes (suc n) b a (suc k) l =
    let here : a + suc k ≡ a + 1 + k = omega arith in
    rw here (get_or-bytes n b (a + 1) k (omega (arith, l)))

pub copy_in-bytes : (n a : ℕ) (b : Bus) → IsMapped b a n → copy_in n a b ≡ (ok (bytes n b a), b)
unfolding copy_in
copy_in-bytes zero a b m = refl
copy_in-bytes (suc n) a b m =
    let up : add64 a 1 ≡ a + 1 = omega (arith, m.ends, m.fits) in
    let rest : IsMapped b (a + 1) n = record {
      starts = omega (arith, m.starts);
      ends = omega (arith, m.ends);
      fits = m.fits;
      sized = m.sized;
    } in
    ap (next (λ x. copy_in n (add64 a 1) >>= (λ xs. pure (u8 x ∷ xs))))
      (read-byte b a (IsMapped-first b a n m))
    ∙ ap (λ x. next (λ xs. pure (u8 (byte_at b a) ∷ xs)) (copy_in n x b)) up
    ∙ ap (next (λ xs. pure (u8 (byte_at b a) ∷ xs))) (copy_in-bytes n (a + 1) b rest)
