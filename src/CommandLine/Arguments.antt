-- ===== src/CommandLine/Arguments.antt =====
-- `main` and `parse_limit` of rv64rs/src/main.rs, with the number parsing of the standard library.

use Prim.Native.Char.{code}
use Prim.Native.String.{String}
use text.Mathlib.Text.{◌==◌ as same_text}
use riscvm.Base.{ℕ, ◌+◌, ◌-◌, ◌*◌, ◌^◌, ◌&&◌, if◌then◌else◌, ltb, leb, ◌==◌}
use riscvm.Base.{
  List, [], ◌∷◌, get_elem?, Option, none, some, Outcome, ok, err, panic, timeout, unwrap,
}

-- The bytes of an ASCII text.
abbrev pub codes : String → List ℕ
codes String.[] = []
codes (String.◌∷◌ c s) = code c ∷ codes s

-- `char::to_digit`
unfoldable pub to_digit : ℕ → ℕ → Option ℕ
to_digit radix c =
    let v =
      if leb b'0' c && leb c b'9'
      then c - b'0'
      else if leb b'a' c && leb c b'z'
      then c - b'a' + 10
      else if leb b'A' c && leb c b'Z'
      then c - b'A' + 10
      else radix in
    if ltb v radix then some v else none

-- One digit more: `checked_mul` and `checked_add`.
unfoldable pub push_digit : ℕ → Option ℕ → Option ℕ → Option ℕ
push_digit radix (some acc) (some v) =
    if ltb (acc * radix + v) (2 ^ 64) then some (acc * radix + v) else none
push_digit radix _ _ = none

unfoldable pub digits : ℕ → Option ℕ → List ℕ → Option ℕ
unfolding push_digit to_digit
digits radix acc [] = acc
digits radix acc (c ∷ cs) = digits radix (push_digit radix acc (to_digit radix c)) cs

-- No digit is no number.
unfoldable pub some_digits : ℕ → List ℕ → Option ℕ
unfolding digits
some_digits radix [] = none
some_digits radix (c ∷ cs) = digits radix (some 0) (c ∷ cs)

-- `u64::from_str_radix`, which lets a `+` come first.
unfoldable pub from_str_radix : ℕ → List ℕ → Option ℕ
unfolding some_digits
from_str_radix radix [] = none
from_str_radix radix (c ∷ cs) =
    if c == b'+' then some_digits radix cs else some_digits radix (c ∷ cs)

-- `trim_start_matches("0x")`: each of the prefixes goes.
unfoldable pub trim_0x : List ℕ → List ℕ
trim_0x [] = []
trim_0x (a ∷ []) = a ∷ []
trim_0x (a ∷ b ∷ rest) = if a == b'0' && b == b'x' then trim_0x rest else a ∷ b ∷ rest

unfoldable pub parse_limit : Option String → ℕ → Outcome ℕ
unfolding from_str_radix
parse_limit none default = ok default
parse_limit (some s) default = unwrap (from_str_radix 10 (codes s))

unfoldable pub parse_address : Option String → ℕ → Outcome ℕ
unfolding from_str_radix trim_0x
parse_address none default = ok default
parse_address (some s) default = unwrap (from_str_radix 16 (trim_0x (codes s)))

abbrev pub text_or : Option String → String → String
text_or (some s) default = s
text_or none default = default

-- What `main` calls.
pub data Command : Type 0 where
  fib : (path : String) → Command
  stack_demo : Command
  xv6_boot : (path : String) (address limit : ℕ) (fs_image : Option String) (ncpu : ℕ) → Command
  xv6_time_to_shell : (path : String) (address : ℕ) (fs_image : String) (limit : ℕ) → Command
  generic : (path : String) (address : ℕ) → Command
  usage : Command

infixl 5 ◌and_then◌
-- A panic of one argument ends the program.
abbrev pub ◌and_then◌ : {A : Type 0} → Outcome ℕ → (ℕ → Outcome A) → Outcome A
(ok n) and_then k = k n
(err e) and_then k = err e
panic and_then k = panic
timeout and_then k = timeout

unfoldable pub boot_arguments : List String → Outcome Command
unfolding parse_address parse_limit
boot_arguments args =
    let path = text_or (get_elem? args 2) "../tests/kernel64gc_nopageflush.bin" in
    parse_address (get_elem? args 3) 0x8000_0000 and_then (λ address.
      parse_limit (get_elem? args 5) 0 and_then (λ limit.
        parse_limit (get_elem? args 6) 1
        and_then (λ ncpu. ok (xv6_boot path address limit (get_elem? args 4) ncpu))))

unfoldable pub shell_arguments : List String → Outcome Command
unfolding parse_address parse_limit
shell_arguments args =
    let path = text_or (get_elem? args 2) "../tests/xv6-kernel-fs-small.bin" in
    let fs_image = text_or (get_elem? args 4) "../tests/fs.img" in
    parse_address (get_elem? args 3) 0x8000_0000 and_then (λ address.
      parse_limit (get_elem? args 5) 2_000_000_000
      and_then (λ limit. ok (xv6_time_to_shell path address fs_image limit)))

unfoldable pub command : Option String → List String → Outcome Command
unfolding boot_arguments shell_arguments parse_address
command none args = ok usage
command (some name) args =
    if same_text name "fib"
    then ok (fib (text_or (get_elem? args 2) "../tests/fib.bin"))
    else if same_text name "stack-demo"
    then ok stack_demo
    else if same_text name "xv6-boot"
    then boot_arguments args
    else if same_text name "xv6-time-to-shell"
    then shell_arguments args
    else parse_address (get_elem? args 2) 0x1000 and_then (λ address. ok (generic name address))

unfoldable pub main : List String → Outcome Command
unfolding command
main args = command (get_elem? args 1) args
