-- ===== src/CommandLine/Input.antt =====
-- `StdinChannel` and `spawn_stdin_reader` of rv64rs/src/main.rs: the channel is the list of the bytes
-- that are queued.
use riscvm.Base.{ℕ, zero, suc, ◌≡◌, refl, ap, arith, List, [], ◌∷◌, ◌++◌, length, min}

-- The loop of `read`, for a buffer with `left` bytes free: what it fills in, and what stays queued.
unfoldable pub read_loop : ℕ → List ℕ → List ℕ × List ℕ
read_loop zero queued = ([], queued)
read_loop (suc left) [] = ([], [])
read_loop (suc left) (b ∷ queued) = let (got, later) = read_loop left queued in (b ∷ got, later)

-- A read from the channel gives the bytes at its front in their order and leaves the others
-- queued, as many bytes as the buffer holds or as are queued, whichever is less.
pub read_loop_lem :
    (left : ℕ) (queued : List ℕ)
    → let (got, later) = read_loop left queued in
      (got ++ later ≡ queued) × (length got ≡ min left (length queued))
unfolding read_loop
read_loop_lem zero queued = (refl, ground arith)
read_loop_lem (suc left) [] = (refl, ground arith)
read_loop_lem (suc left) (b ∷ queued) =
    let (same, len) = read_loop_lem left queued in (ap (λ xs. b ∷ xs) same, ground (arith, len))

-- What a blocking read of one byte from standard input returns.
pub data StdinRead : Type 0 where
  nothing_left failed : StdinRead
  byte : (value : ℕ) → StdinRead

-- The loop of the thread of `spawn_stdin_reader`: what it sends, given what its reads return and how
-- many of its sends find the receiver.
unfoldable pub feed : ℕ → List StdinRead → List ℕ
feed alive [] = []
feed alive (nothing_left ∷ rest) = []
feed alive (failed ∷ rest) = []
feed zero (byte value ∷ rest) = []
feed (suc alive) (byte value ∷ rest) = value ∷ feed alive rest
