-- ===== src/Base/Results.antt =====
-- `Result<_, EmuError>`, with a panic as a third outcome and an exhausted loop as a fourth, and the state monad over it. A failed
-- call keeps the state changes that it made before it failed, as `&mut` arguments do.
use mathlib.Core.Option.{Option, none, some}

-- One constructor for each message of `error(...)`; the numbers in the text are left out.
pub data Error : Type 0 where
  invalid_size clint_size uart_size uart_illegal_write uart_ier_bits plic_size virtio_size : Error
  unmapped invalid_range overflow_range range_overlap uncovered : Error
  unsupported_satp permission_denied walk_exhausted invalid_pte reserved_pte misaligned : Error
  illegal_instruction illegal_c_instruction zero_immediate : Error
  no_cpu too_many_cpus : Error

pub data Outcome (A : Type 0) : Type 0 where
  ok : A → Outcome A
  err : Error → Outcome A
  panic : Outcome A
  -- The fuel of a loop of the model ran out.
  timeout : Outcome A

-- A call that changes the state `S` and returns an `A`.
abbrev pub M : Type 0 → Type 0 → Type 0
M S A = S → Outcome A × S

abbrev pub pure : {S A : Type 0} → A → M S A
pure a s = (ok a, s)

abbrev pub modify : {S : Type 0} → (S → S) → M S (Unit {0})
modify f s = (ok tt, f s)

abbrev pub gets : {S A : Type 0} → (S → A) → M S A
gets f s = (ok (f s), s)

abbrev pub fail : {S A : Type 0} → Error → M S A
fail e s = (err e, s)

abbrev pub crash : {S A : Type 0} → M S A
crash s = (panic, s)

abbrev pub next : {S A B : Type 0} → (A → M S B) → Outcome A × S → Outcome B × S
next f (ok a, s) = f a s
next f (err e, s) = (err e, s)
next f (panic, s) = (panic, s)
next f (timeout, s) = (timeout, s)

infixl 5 ◌>>=◌ ◌>>◌
abbrev pub ◌>>=◌ : {S A B : Type 0} → M S A → (A → M S B) → M S B
◌>>=◌ m f s = next f (m s)

abbrev pub ◌>>◌ : {S B : Type 0} → M S (Unit {0}) → M S B → M S B
◌>>◌ m k s = next (λ _. k) (m s)

abbrev pub lift : {S A : Type 0} → Outcome A → M S A
lift r s = (r, s)

-- `unwrap` of an option.
abbrev pub unwrap : {A : Type 0} → Option A → Outcome A
unwrap (some a) = ok a
unwrap none = panic
