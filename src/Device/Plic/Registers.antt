-- ===== src/Device/Plic/Registers.antt =====
-- The registers of rv64rs/src/plic.rs read back what was written.
use riscvm.Base.{
  ℕ, zero, suc, ◌+◌, ◌-◌, ◌*◌, ◌/◌, ◌%◌, ◌<◌, ◌≡◌, refl, ap, ◌∙◌, arith, List, [], ◌∷◌,
}
use riscvm.Base.{length, get_or, set, ok, u32}
use riscvm.Device.Plic.{
  Plic, read, write, read_word, read_context, write_word, enable_get, enable_set, threshold_get,
  threshold_set,
}

get_or-set : (xs : List ℕ) (i v : ℕ) → i < length xs → get_or (set xs i v) i 0 ≡ v
get_or-set [] i v l = absurd (omega arith)
get_or-set (x ∷ xs) zero v l = refl
get_or-set (x ∷ xs) (suc i) v l = get_or-set xs i v (omega arith)

-- The tables have a priority for each interrupt, an enable word and a threshold for each context.
pub record IsSized {E : Type 0} (p : Plic E) : Type 0 where
  pub priorities : length p.priority ≡ 32
  pub enables : length p.enable ≡ 64
  pub thresholds : length p.threshold ≡ 64

-- The address of a register.
abbrev pub priority_at : ℕ → ℕ
priority_at irq = 4 * irq

abbrev pub enable_at : ℕ → ℕ
enable_at context = 0x2000 + 0x80 * context

abbrev pub threshold_at : ℕ → ℕ
threshold_at context = 0x200000 + 0x1000 * context

module _ {E : Type 0} (env : E) (p : Plic E) where
  write-priority :
      (irq v : ℕ)
      → irq < 32
      → write_word (priority_at irq) v p ≡ record p { priority = set p.priority irq v }
  unfolding write_word
  write-priority irq v l = let at : 4 * irq / 4 ≡ irq = omega arith in rw at (ground (arith, l))

  read-priority :
      (irq : ℕ) → irq < 32 → read_word env (priority_at irq) p ≡ ok (get_or p.priority irq 0)
  unfolding read_word
  read-priority irq l = let at : 4 * irq / 4 ≡ irq = omega arith in rw at (ground (arith, l))

  write-enable :
      (context v : ℕ)
      → context < 64
      → write_word (enable_at context) v p ≡ record p { enable = set p.enable context v }
  unfolding write_word enable_set
  write-enable context v l =
      let at : (0x2000 + 0x80 * context - 0x2000) / 0x80 ≡ context = omega arith in
      rw at (ground (arith, l))

  read-enable :
      (context : ℕ)
      → context < 64
      → read_word env (enable_at context) p ≡ ok (get_or p.enable context 0)
  unfolding read_word enable_get
  read-enable context l =
      let at : (0x2000 + 0x80 * context - 0x2000) / 0x80 ≡ context = omega arith in
      rw at (ground (arith, l))

  write-threshold :
      (context v : ℕ)
      → context < 64
      → write_word (threshold_at context) v p ≡ record p { threshold = set p.threshold context v }
  unfolding write_word threshold_set
  write-threshold context v l =
      let at : (0x200000 + 0x1000 * context - 0x200000) / 0x1000 ≡ context = omega arith in
      let low : (0x200000 + 0x1000 * context - 0x200000) % 0x1000 ≡ 0 = omega arith in
      rw (at, low) (ground (arith, l))

  read-threshold :
      (context : ℕ)
      → context < 64
      → read_word env (threshold_at context) p ≡ ok (get_or p.threshold context 0)
  unfolding read_word read_context threshold_get
  read-threshold context l =
      let at : (0x200000 + 0x1000 * context - 0x200000) / 0x1000 ≡ context = omega arith in
      let low : (0x200000 + 0x1000 * context - 0x200000) % 0x1000 ≡ 0 = omega arith in
      rw (at, low) (ground (arith, l))

-- The priority register of an interrupt below 32, and the enable and the threshold register of a
-- context below 64, read back the low 32 bits of what was written, where the vectors have the
-- lengths that new gives them.
pub read-write_register :
    {E : Type 0} (env : E) (p : Plic E) (irq context v : ℕ)
    → IsSized p
    → irq < 32
    → context < 64
    → (read env (priority_at irq) 4 (write (priority_at irq) 4 v p).1 ≡ ok (u32 v))
      × (read env (enable_at context) 4 (write (enable_at context) 4 v p).1 ≡ ok (u32 v))
      × (read env (threshold_at context) 4 (write (threshold_at context) 4 v p).1 ≡ ok (u32 v))
unfolding read write
read-write_register env p irq context v sized li lc = (
  ap (read_word env (priority_at irq)) (write-priority env p irq (u32 v) li)
      ∙ read-priority env (record p { priority = set p.priority irq (u32 v) }) irq li
      ∙ ap ok (get_or-set p.priority irq (u32 v) (omega (arith, sized.priorities, li))),
  ap (read_word env (enable_at context)) (write-enable env p context (u32 v) lc)
      ∙ read-enable env (record p { enable = set p.enable context (u32 v) }) context lc
      ∙ ap ok (get_or-set p.enable context (u32 v) (omega (arith, sized.enables, lc))),
  ap (read_word env (threshold_at context)) (write-threshold env p context (u32 v) lc)
      ∙ read-threshold env (record p { threshold = set p.threshold context (u32 v) }) context lc
      ∙ ap ok (get_or-set p.threshold context (u32 v) (omega (arith, sized.thresholds, lc))),
)
