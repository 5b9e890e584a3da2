-- ===== src/Device/Uart/Registers.antt =====
-- The divisor and the transmitter of rv64rs/src/uart.rs.
use riscvm.Base.{ℕ, ◌%◌, ◌^◌, ◌≡◌, refl, ap, ◌∙◌, sym, false, List, [], ◌∷◌, ◌++◌, map, false}
use riscvm.Base.{ok, M, pure, next, ◌>>◌, some}
use mathlib.Core.List.{append-nil, append_assoc}
use riscvm.Base.Bits.{bit_and_mask}
use riscvm.Device.Uart.{Uart, write, write_register, emit}

-- What a driver does: open the latch, write the two halves, set 8 bits with the latch closed.
unfoldable pub program : ℕ → ℕ → M Uart (Unit {0})
program low high = do write 3 1 0x80; write 0 1 low; write 1 1 high; write 3 1 3

-- Opening the divisor latch, writing the two halves of a divisor and closing the latch with 8
-- data bits, as a driver does, succeeds from any state; it leaves the low 8 bits of each half in
-- the divisor, the latch closed, and everything else as it was.
pub program_lem :
    (low high : ℕ) (u : Uart)
    → program low high u ≡ (
      ok tt,
      record u {
        divisor_latch_accessible = false;
        line_control_nbits = 3;
        dll_value = low % 2 ^ 8;
        dlm_value = high % 2 ^ 8;
      },
    )
unfolding program write write_register
program_lem low high u = rw (bit_and_mask 8 low, bit_and_mask 8 high) refl

-- The writes of a text to the transmit register.
unfoldable pub transmit : List ℕ → M Uart (Unit {0})
transmit [] = pure tt
transmit (x ∷ xs) = do write 0 1 x; transmit xs

write-byte :
    (x : ℕ) (sent : List ℕ) (u : Uart)
    → u.divisor_latch_accessible ≡ false
    → write 0 1 x (record u { output = some sent })
      ≡ (ok tt, record u { output = some (sent ++ (x % 2 ^ 8 ∷ [])) })
unfolding write write_register emit
write-byte x sent u closed = rw (closed, bit_and_mask 8 x) refl

-- With the divisor latch closed and a sink, the bytes that are written to the transmit register
-- one after the other are appended to the sink in their order, cut to 8 bits, and nothing else
-- changes.
pub transmit_lem :
    (bytes sent : List ℕ) (u : Uart)
    → u.divisor_latch_accessible ≡ false
    → transmit bytes (record u { output = some sent })
      ≡ (ok tt, record u { output = some (sent ++ map (λ b. b % 2 ^ 8) bytes) })
unfolding transmit
transmit_lem [] sent u closed =
    ap (λ xs. (ok tt, record u { output = some xs })) (sym (append-nil sent))
transmit_lem (x ∷ xs) sent u closed =
    ap (next (λ _. transmit xs)) (write-byte x sent u closed)
    ∙ transmit_lem xs (sent ++ (x % 2 ^ 8 ∷ [])) u closed
    ∙ ap (λ xs. (ok tt, record u { output = some xs }))
        (append_assoc sent (x % 2 ^ 8 ∷ []) (map (λ b. b % 2 ^ 8) xs))
