-- ===== src/Emulator/Hex.antt =====
-- `hex_decode` of rv64rs/src/emulator.rs, on the bytes of an ASCII text.
use riscvm.Base.{ℕ, List, [], ◌∷◌, Option, none, some, Outcome, ok, err, panic, timeout}
use riscvm.CommandLine.Arguments.{from_str_radix}

-- One byte more; two digits never overflow, so the parser of longer numbers reads them.
abbrev pub push_byte : Option ℕ → Outcome (List ℕ) → Outcome (List ℕ)
push_byte none rest = panic
push_byte (some v) (ok vs) = ok (v ∷ vs)
push_byte (some v) (err e) = err e
push_byte (some v) panic = panic
push_byte (some v) timeout = timeout

-- A last digit with no partner is a slice past the end.
unfoldable pub hex_decode : List ℕ → Outcome (List ℕ)
unfolding from_str_radix
hex_decode [] = ok []
hex_decode (a ∷ []) = panic
hex_decode (a ∷ b ∷ rest) = push_byte (from_str_radix 16 (a ∷ b ∷ [])) (hex_decode rest)
