-- ===== src/Device/Uart.antt =====
-- rv64rs/src/uart.rs: the serial port. The sink is the list of bytes written to it. The source,
-- which is not part of the program, is the list of what its successive `read` calls return: a
-- call that fails or has nothing to give is the empty list.
pub mod Fifo
pub mod Registers
use riscvm.Base.{ℕ, ◌+◌, ◌-◌, ◌*◌, ◌^◌, Bool, true, false, not, ◌&&◌, if◌then◌else◌, ◌==◌, ◌!=◌}
use riscvm.Base.{Option, none, some, List, [], ◌∷◌, ◌++◌, take, of_bool, bit_and, bit_or, inv, shl}
use riscvm.Base.{Outcome, ok, err, M, uart_size, uart_illegal_write, uart_ier_bits}

abbrev pub lsr_tx_idle : ℕ
lsr_tx_idle = shl 8 1 5

abbrev pub ier_rx_enable : ℕ
ier_rx_enable = shl 8 1 0

abbrev pub ier_tx_enable : ℕ
ier_tx_enable = shl 8 1 1

abbrev pub lcr_nbits : ℕ
lcr_nbits = 3

abbrev pub lcr_baud_latch : ℕ
lcr_baud_latch = shl 8 1 7

pub record Uart : Type 0 where
  pub size : ℕ
  pub divisor_latch_accessible : Bool
  pub interrupt_enabled_rx : Bool
  pub interrupt_enabled_tx : Bool
  pub line_control_nbits : ℕ
  pub dll_value : ℕ
  pub dlm_value : ℕ
  pub rx_queue : List ℕ
  pub output : Option (List ℕ)
  pub input : Option (List (List ℕ))

unfoldable pub new : ℕ → Option (List ℕ) → Option (List (List ℕ)) → Uart
new size output input = record {
  size = size;
  divisor_latch_accessible = false;
  interrupt_enabled_rx = false;
  interrupt_enabled_tx = false;
  line_control_nbits = 0;
  dll_value = 0;
  dlm_value = 0;
  rx_queue = [];
  output = output;
  input = input;
}

abbrev pub is_empty : List ℕ → Bool
is_empty [] = true
is_empty (x ∷ xs) = false

unfoldable pub data_available : Uart → Bool
data_available u = not (is_empty u.rx_queue)

unfoldable pub interrupt_status : Uart → ℕ
unfolding data_available
interrupt_status u = of_bool (data_available u && u.interrupt_enabled_rx)

unfoldable pub inject : List ℕ → Uart → Uart
inject bytes u = record u { rx_queue = u.rx_queue ++ bytes }

-- One `read` into a buffer of 256 bytes.
unfoldable pub poll_source : Uart → List (List ℕ) → Uart
poll_source u [] = u
poll_source u (bytes ∷ later) = record u {
  rx_queue = u.rx_queue ++ take 256 bytes;
  input = some later;
}

unfoldable pub poll_input : Uart → Uart
unfolding poll_source
poll_input u = elim u.input [ none ↦ u | some source ↦ poll_source u source ]

unfoldable pub pop_front : List ℕ → ℕ × List ℕ
pop_front [] = (0, [])
pop_front (x ∷ xs) = (x, xs)

unfoldable pub rbr : Uart → ℕ × Uart
unfolding pop_front
rbr u = let (x, rest) = pop_front u.rx_queue in (x, record u { rx_queue = rest })

unfoldable pub ier : Uart → ℕ
ier u =
    bit_or (of_bool u.interrupt_enabled_rx * ier_rx_enable)
      (of_bool u.interrupt_enabled_tx * ier_tx_enable)

unfoldable pub lcr : Uart → ℕ
lcr u = bit_or (shl 8 (of_bool u.divisor_latch_accessible) 7) u.line_control_nbits

unfoldable pub lsr : Uart → ℕ
unfolding data_available
lsr u = bit_or (of_bool (data_available u)) lsr_tx_idle

unfoldable pub read_register : ℕ → Uart → ℕ × Uart
unfolding rbr ier lcr lsr
read_register address u =
    if address == 0
    then (if u.divisor_latch_accessible then (u.dll_value, u) else rbr u)
    else if address == 1
    then (if u.divisor_latch_accessible then (u.dlm_value, u) else (ier u, u))
    else if address == 3
    then (lcr u, u)
    else if address == 5
    then (lsr u, u)
    else (0, u)

unfoldable pub read : ℕ → ℕ → M Uart ℕ
unfolding read_register
read address size u =
    if size != 1
    then (err uart_size, u)
    else let (value, u') = read_register address u in (ok value, u')

unfoldable pub write_ier : ℕ → M Uart (Unit {0})
write_ier value u =
    if bit_and value (inv 8 (bit_or ier_rx_enable ier_tx_enable)) != 0
    then (err uart_ier_bits, u)
    else (
      ok tt,
      record u {
        interrupt_enabled_rx = bit_and value ier_rx_enable != 0;
        interrupt_enabled_tx = bit_and value ier_tx_enable != 0;
      },
    )

-- `write_all`, whose errors are dropped.
unfoldable pub emit : ℕ → Option (List ℕ) → Option (List ℕ)
emit value none = none
emit value (some sent) = some (sent ++ (value ∷ []))

unfoldable pub write_register : ℕ → ℕ → M Uart (Unit {0})
unfolding write_ier emit
write_register address value u =
    if address == 5
    then (err uart_illegal_write, u)
    else if address == 6
    then (err uart_illegal_write, u)
    else if address == 0
    then (
      ok tt,
      if u.divisor_latch_accessible
          then record u { dll_value = value }
          else record u { output = emit value u.output },
    )
    else if address == 1
    then (if u.divisor_latch_accessible
        then (ok tt, record u { dlm_value = value })
        else write_ier value u)
    else if address == 3
    then (
      ok tt,
      record u {
        divisor_latch_accessible = bit_and value lcr_baud_latch != 0;
        line_control_nbits = bit_and value lcr_nbits;
      },
    )
    else (ok tt, u)

unfoldable pub write : ℕ → ℕ → ℕ → M Uart (Unit {0})
unfolding write_register
write address size value u =
    if size != 1 then (err uart_size, u) else write_register address (bit_and value 0xff) u
