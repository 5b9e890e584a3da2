-- ===== src/Bus/Words/Devices.antt =====
-- The words of the devices of rv64rs/src across reads and writes.
use riscvm.Base.{
  ℕ, zero, suc, ◌+◌, ◌-◌, ◌*◌, ◌/◌, ◌%◌, ◌^◌, ◌<◌, ◌≡◌, refl, arith, Bool, true, false, ◌!=◌, ◌&&◌,
  ltb,
}
use riscvm.Base.{
  List, [], ◌∷◌, Option, none, some, get_or, get_elem?, set, bit_and, shl, of_bool, if◌then◌else◌,
  ◌++◌, take,
}
use riscvm.Base.{Outcome, ok, err, panic, timeout, unwrap}
use riscvm.Base.Bits.{bit_or-lt, bit_and_mask, bit_and-le_right}
use riscvm.Base.Yields.{Holds}
use riscvm.Device.Ram as Ram
use riscvm.Device.Ram.{Bytes, from_le_bytes, to_le_bytes}
use riscvm.Device.Clint as Clint
use riscvm.Device.Uart as Uart
use riscvm.Device.Plic as Plic
use riscvm.Device.VirtioBlk as VirtioBlk
use riscvm.Bus.State.{Cells}
use riscvm.Bus.Words.{
  IsWord, AreBytes, AreWords, Feeds, ClintWords, UartWords, PlicWords, DiskWords,
}
use native.Mathlib.Nat.{pow-suc, le_refl}

from_le_bytes-lt : (r : Bytes) (a n : ℕ) → AreBytes r → from_le_bytes r.at a n < 256 ^ n
unfolding from_le_bytes
from_le_bytes-lt r a zero b = omega arith
from_le_bytes-lt r a (suc n) b = omega (arith, b a, from_le_bytes-lt r (a + 1) n b, pow-suc 256 n)

to_le_bytes-lt : (at : ℕ → ℕ) (a n v i : ℕ) → ((i : ℕ) → at i < 256) → to_le_bytes at a n v i < 256
unfolding to_le_bytes
to_le_bytes-lt at a zero v i b = b i
to_le_bytes-lt at a (suc n) v i b = ground (arith, to_le_bytes-lt at (a + 1) n (v / 256) i b)

pub ram_read-IsWord : (r : Bytes) (a n : ℕ) → AreBytes r → Holds IsWord (Ram.read r a n)
unfolding Ram.read Ram.read_slice
ram_read-IsWord r a n b = ground (
  arith,
  from_le_bytes-lt r a 1 b,
  from_le_bytes-lt r a 2 b,
  from_le_bytes-lt r a 4 b,
  from_le_bytes-lt r a 8 b,
)

pub ram_write-AreBytes : (a n v : ℕ) (r : Bytes) → AreBytes r → AreBytes (Ram.write a n v r).1
unfolding Ram.write Ram.write_slice
ram_write-AreBytes a n v r b i = ground (
  arith,
  b i,
  to_le_bytes-lt r.at a 1 (v % 2 ^ 8) i b,
  to_le_bytes-lt r.at a 2 (v % 2 ^ 16) i b,
  to_le_bytes-lt r.at a 4 (v % 2 ^ 32) i b,
  to_le_bytes-lt r.at a 8 (v % 2 ^ 64) i b,
)

get_or-IsWord : (xs : List ℕ) (i : ℕ) → AreWords xs → IsWord (get_or xs i 0)
get_or-IsWord [] i w = omega arith
get_or-IsWord (x ∷ xs) zero (w, ws) = w
get_or-IsWord (x ∷ xs) (suc i) (w, ws) = get_or-IsWord xs i ws

set-AreWords : (xs : List ℕ) (i v : ℕ) → AreWords xs → IsWord v → AreWords (set xs i v)
set-AreWords [] i v w l = tt
set-AreWords (x ∷ xs) zero v (w, ws) l = (l, ws)
set-AreWords (x ∷ xs) (suc i) v (w, ws) l = (w, set-AreWords xs i v ws l)

unwrap-IsWord : (xs : List ℕ) (i : ℕ) → AreWords xs → Holds IsWord (unwrap (get_elem? xs i))
unwrap-IsWord [] i w = tt
unwrap-IsWord (x ∷ xs) zero (w, ws) = w
unwrap-IsWord (x ∷ xs) (suc i) (w, ws) = unwrap-IsWord xs i ws

pub clint_read-same : (a n : ℕ) (c : Clint.Clint) → (Clint.read a n c).1 ≡ c
unfolding Clint.read
clint_read-same a n c = ground arith

pub clint_read-IsWord :
    (a n : ℕ) (c : Clint.Clint) → ClintWords c → Holds IsWord (Clint.read a n c).0
unfolding Clint.read
clint_read-IsWord a n c w =
    ground (arith, w.mtime, unwrap-IsWord c.mtimecmp (Clint.slot a) w.mtimecmp)

pub clint_write-words :
    (a n v : ℕ) (c : Clint.Clint) → IsWord v → ClintWords c → ClintWords (Clint.write a n v c).1
unfolding Clint.write
clint_write-words a n v c l w = record {
  mtime = ground (arith, w.mtime, l);
  mtimecmp = ground (arith, w.mtimecmp, set-AreWords c.mtimecmp (Clint.slot a) v w.mtimecmp l);
}

front-words :
    (xs : List ℕ) → AreWords xs → IsWord (Uart.pop_front xs).0 × AreWords (Uart.pop_front xs).1
unfolding Uart.pop_front
front-words [] w = (omega arith, tt)
front-words (x ∷ xs) (w, ws) = (w, ws)

of_bool-lt : (t : Bool) → of_bool t < 2
of_bool-lt true = omega arith
of_bool-lt false = omega arith

lcr-IsWord : (u : Uart.Uart) → UartWords u → IsWord (Uart.lcr u)
unfolding Uart.lcr
lcr-IsWord u w =
    bit_or-lt 64 (shl 8 (of_bool u.divisor_latch_accessible) 7) u.line_control_nbits (omega arith)
      w.nbits

ier-IsWord : (u : Uart.Uart) → IsWord (Uart.ier u)
unfolding Uart.ier
ier-IsWord u =
    bit_or-lt 64 (of_bool u.interrupt_enabled_rx * 1) (of_bool u.interrupt_enabled_tx * 2)
      (omega (arith, of_bool-lt u.interrupt_enabled_rx))
      (omega (arith, of_bool-lt u.interrupt_enabled_tx))

lsr-IsWord : (u : Uart.Uart) → IsWord (Uart.lsr u)
unfolding Uart.lsr
lsr-IsWord u =
    bit_or-lt 64 (of_bool (Uart.data_available u)) 32
      (omega (arith, of_bool-lt (Uart.data_available u))) (omega arith)

pub uart_read-IsWord : (a n : ℕ) (u : Uart.Uart) → UartWords u → Holds IsWord (Uart.read a n u).0
unfolding Uart.read Uart.read_register Uart.rbr
uart_read-IsWord a n u w = ground (
  arith,
  w.divisor_low,
  w.divisor_high,
  (front-words u.rx_queue w.received).0,
  lcr-IsWord u w,
  ier-IsWord u,
  lsr-IsWord u,
)

pub uart_read-words : (a n : ℕ) (u : Uart.Uart) → UartWords u → UartWords (Uart.read a n u).1
unfolding Uart.read Uart.read_register Uart.rbr
uart_read-words a n u w = record {
  divisor_low = ground (arith, w.divisor_low);
  divisor_high = ground (arith, w.divisor_high);
  nbits = ground (arith, w.nbits);
  received = ground (arith, w.received, (front-words u.rx_queue w.received).1);
  source = ground (arith, w.source);
}

pub uart_write-words : (a n v : ℕ) (u : Uart.Uart) → UartWords u → UartWords (Uart.write a n v u).1
unfolding Uart.write Uart.write_register Uart.write_ier
uart_write-words a n v u w = record {
  divisor_low = ground (arith, w.divisor_low, bit_and_mask 8 v);
  divisor_high = ground (arith, w.divisor_high, bit_and_mask 8 v);
  nbits = ground (arith, w.nbits, bit_and-le_right _ (bit_and v 0xff) 3 (le_refl _));
  received = ground (arith, w.received);
  source = ground (arith, w.source);
}

append-words : (xs ys : List ℕ) → AreWords xs → AreWords ys → AreWords (xs ++ ys)
append-words [] ys w v = v
append-words (x ∷ xs) ys (w, ws) v = (w, append-words xs ys ws v)

take-words : (n : ℕ) (xs : List ℕ) → AreWords xs → AreWords (take n xs)
take-words zero xs w = tt
take-words (suc n) [] w = tt
take-words (suc n) (x ∷ xs) (w, ws) = (w, take-words n xs ws)

pub poll_input-words : (u : Uart.Uart) → UartWords u → UartWords (Uart.poll_input u)
unfolding Uart.poll_input Uart.poll_source
poll_input-words u w = polled u.input refl
  where
    polled : (o : Option (List (List ℕ))) → u.input ≡ o → UartWords (Uart.poll_input u)
    polled none e = rw (Uart.poll_input, e) w
    polled (some []) e = rw (Uart.poll_input, e) w
    polled (some (bytes ∷ later)) e =
        let fed : Feeds (some (bytes ∷ later)) = rw e at w.source in
        rw (Uart.poll_input, e)
          (record {
            divisor_low = w.divisor_low;
            divisor_high = w.divisor_high;
            nbits = w.nbits;
            received =
                append-words u.rx_queue (take 256 bytes) w.received (take-words 256 bytes fed.0);
            source = fed.1;
          })

-- The interrupt that is claimed is one of the 32.
claim_loop-lt :
    (priority : List ℕ) (candidates left irq best_irq best_priority : ℕ)
    → irq + left < 2 ^ 64
    → best_irq < 2 ^ 64
    → IsWord (Plic.claim_loop priority candidates left irq best_irq best_priority)
unfolding Plic.claim_loop
claim_loop-lt priority candidates zero irq best p l b = b
claim_loop-lt priority candidates (suc left) irq best p l b =
    let better = bit_and candidates (shl 32 1 irq) != 0 && ltb p (get_or priority irq 0) in
    claim_loop-lt priority candidates left (irq + 1) (if better then irq else best)
      (if better then get_or priority irq 0 else p) (omega (arith, l)) (ground (arith, l, b))

claim_irq-IsWord :
    (c : Cells) (p : Plic.Plic Cells) (context : ℕ) → Holds IsWord (Plic.claim_irq c p context)
unfolding Plic.claim_irq Plic.best
claim_irq-IsWord c p context = claimed (Plic.pending_mask c p)
  where
    claimed :
        (r : Outcome ℕ)
        → Holds IsWord (elim r as (λ _. Outcome ℕ) [
          | ok pending ↦ ok (Plic.best p pending context)
          | err e ↦ err e
          | panic ↦ panic
          | timeout ↦ timeout
        ])
    claimed (ok pending) =
        claim_loop-lt p.priority (bit_and pending (get_or p.enable context 0)) 31 1 0
          (get_or p.threshold context 0) (omega arith) (omega arith)
    claimed (err e) = tt
    claimed panic = tt
    claimed timeout = tt

pub plic_read-IsWord :
    (c : Cells) (a n : ℕ) (p : Plic.Plic Cells) → PlicWords p → Holds IsWord (Plic.read c a n p)
unfolding Plic.read Plic.read_word Plic.read_context Plic.enable_get Plic.threshold_get
plic_read-IsWord c a n p w = ground (
  arith,
  get_or-IsWord p.priority (a / 4) w.priorities,
  get_or-IsWord p.enable ((a - 0x2000) / 0x80) w.enables,
  get_or-IsWord p.threshold ((a - 0x200000) / 0x1000) w.thresholds,
  claim_irq-IsWord c p ((a - 0x200000) / 0x1000),
)

pub plic_write-words :
    (a n v : ℕ) (p : Plic.Plic Cells) → PlicWords p → PlicWords (Plic.write a n v p).1
unfolding Plic.write Plic.write_word Plic.enable_set Plic.threshold_set
plic_write-words a n v p w =
    let u : IsWord (v % 2 ^ 32) = omega arith in
    record {
      priorities =
          ground (arith, w.priorities, set-AreWords p.priority (a / 4) (v % 2 ^ 32) w.priorities u);
      enables =
          ground (
            arith,
            w.enables,
            set-AreWords p.enable ((a - 0x2000) / 0x80) (v % 2 ^ 32) w.enables u,
          );
      thresholds = ground (
        arith,
        w.thresholds,
        set-AreWords p.threshold ((a - 0x200000) / 0x1000) (v % 2 ^ 32) w.thresholds u,
      );
    }

pub virtio_read-IsWord :
    (a n : ℕ) (v : VirtioBlk.VirtioBlk) → DiskWords v → Holds IsWord (VirtioBlk.read a n v)
unfolding VirtioBlk.read
virtio_read-IsWord a n v w = ground (arith, w.features, w.ready, w.interrupt, w.status)
