-- ===== src/Device/Uart/Fifo.antt =====
-- The receive queue of rv64rs/src/uart.rs, read through its register.
use riscvm.Base.{ℕ, zero, suc, ◌≡◌, refl, ap, ◌∙◌, false, List, [], ◌∷◌, ◌++◌}
use riscvm.Base.{ok, M, pure, next, ◌>>=◌, length}
use riscvm.Device.Uart.{Uart, read}

-- So many reads of the receive register.
unfoldable pub receive : ℕ → M Uart (List ℕ)
receive zero = pure []
receive (suc n) = do x ← read 0 1; xs ← receive n; pure (x ∷ xs)

read-front :
    (x : ℕ) (rest : List ℕ) (u : Uart)
    → u.divisor_latch_accessible ≡ false
    → read 0 1 (record u { rx_queue = x ∷ rest }) ≡ (ok x, record u { rx_queue = rest })
unfolding read
read-front x rest u h = rw h refl

-- With the divisor latch closed, reads of the receive register return the bytes at the front of
-- the queue in their order and leave the rest of the device as it was.
pub receive-front :
    (bytes later : List ℕ) (u : Uart)
    → u.divisor_latch_accessible ≡ false
    → receive (length bytes) (record u { rx_queue = bytes ++ later })
      ≡ (ok bytes, record u { rx_queue = later })
unfolding receive
receive-front [] later u h = refl
receive-front (x ∷ bytes) later u h =
    ap (next (λ y. receive (length bytes) >>= (λ ys. pure (y ∷ ys))))
      (read-front x (bytes ++ later) u h)
    ∙ ap (next (λ ys. pure (x ∷ ys))) (receive-front bytes later u h)
