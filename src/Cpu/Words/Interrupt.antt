-- ===== src/Cpu/Words/Interrupt.antt =====
-- The words of a hart across the check for an interrupt of rv64rs/src/trap.rs, and the timer and the
-- poll of the serial port before it.
use riscvm.Base.{
  ℕ, Bool, true, false, ◌*◌, ◌%◌, ◌^◌, ◌==◌, ◌||◌, arith, if◌then◌else◌, bit_and, shl, add64,
}
use riscvm.Base.{List, [], ◌∷◌, All, Option, none, some, Outcome, ok, lift, pure, ◌>>=◌}
use riscvm.Base.Yields.{any-Holds}
use riscvm.Base.Yields.{
  Holds, Anything, Yields, pure-Yields, lift-Yields, gets-Yields, if_state-Yields, bind-Yields,
  then-Yields,
}
use riscvm.Device.Clint
use riscvm.Device.Plic
use riscvm.Bus.Words.{IsWord}
use riscvm.Cpu.State.{Cpu, Hart, get, insert, mie, mip}
use riscvm.Cpu.Trap.{
  select, held_back, take_trap, follow, sample_clint, sample_plic, deliver, check_interrupt,
  priority, mip_mtip, mip_seip,
}
use riscvm.Cpu.Words.{HartWords, CpuWords, insert-TableWords, on_cpu-Yields}
use riscvm.Cpu.Words.Trap.{raise_trap-Entered, set_csrs-CpuWords, get-IsWord}
use riscvm.Cpu.Words.Values.{and-IsWord, or-IsWord}

follow-IsWord : (word k : ℕ) (line : Bool) → IsWord word → IsWord k → IsWord (follow word k line)
follow-IsWord word k true w l = or-IsWord word k w l
follow-IsWord word k false w l = and-IsWord word _ w

sampled-Yields :
    (word k : ℕ) (r : Outcome Bool)
    → IsWord word
    → IsWord k
    → Yields HartWords IsWord (lift r >>= λ line. pure (follow word k line))
sampled-Yields word k r w l =
    bind-Yields HartWords Anything IsWord (lift r) _
      (lift-Yields HartWords Anything r (any-Holds r))
      (λ line _. pure-Yields HartWords IsWord (follow word k line) (follow-IsWord word k line w l))

sample_clint-Yields : (word : ℕ) → IsWord word → Yields HartWords IsWord (sample_clint word)
unfolding sample_clint
sample_clint-Yields word l =
    if_state-Yields HartWords IsWord (λ h. h.cpu.clint) _ (pure word)
      (record {
        yields = λ h.
            (sampled-Yields word mip_mtip (Clint.pending h.bus.cells.clint h.cpu.hartid) l
                (omega arith)).yields
              h;
      })
      (pure-Yields HartWords IsWord word l)

sample_plic-Yields : (word : ℕ) → IsWord word → Yields HartWords IsWord (sample_plic word)
unfolding sample_plic
sample_plic-Yields word l =
    if_state-Yields HartWords IsWord (λ h. h.cpu.plic) _ (pure word)
      (record {
        yields = λ h.
            (sampled-Yields word mip_seip
                (Plic.claimable h.bus.cells h.bus.plic_cell (add64 (2 * h.cpu.hartid % 2 ^ 64) 1)) l
                (omega arith)).yields
              h;
      })
      (pure-Yields HartWords IsWord word l)

-- The cause that is selected.
abbrev Chosen : Option ℕ → Type 0
Chosen none = Unit
Chosen (some cause) = IsWord cause

if-Chosen : (t : Bool) (x y : Option ℕ) → Chosen x → Chosen y → Chosen (if t then x else y)
if-Chosen true x y p q = p
if-Chosen false x y p q = q

select-Chosen :
    (pending : ℕ) (causes : List ℕ) (c : Cpu) → All IsWord causes → Chosen (select pending causes c)
unfolding select
select-Chosen pending [] c l = tt
select-Chosen pending (cause ∷ rest) c (l, ls) =
    if-Chosen (bit_and pending (shl 64 1 cause) == 0 || held_back cause c) _ _
      (select-Chosen pending rest c ls) l

take_trap-CpuWords :
    (cause : ℕ) (c : Cpu) → IsWord cause → CpuWords c → CpuWords (take_trap cause c)
unfolding take_trap
take_trap-CpuWords cause c l w =
    let (pc, k) = raise_trap-Entered cause true 0 c l (omega arith) w in
    record { regs = k.regs; csrs = k.csrs; pc = pc; mode = k.mode }

deliver-Yields : (word : ℕ) → Yields HartWords Anything (deliver word)
unfolding deliver
deliver-Yields word = record {
  yields = λ h w. taken (select (bit_and word (get h.cpu.csrs mie)) priority h.cpu) h w (
      select-Chosen (bit_and word (get h.cpu.csrs mie)) priority h.cpu (
        omega arith,
        (omega arith, (omega arith, (omega arith, (omega arith, (omega arith, tt))))),
      ));
}
  where
    taken :
        (o : Option ℕ) (h : Hart)
        → HartWords h
        → Chosen o
        → let x = elim o as (λ _. Outcome Bool × Hart) [
          | none ↦ (ok false, h)
          | some cause ↦ (ok true, record h { cpu = take_trap cause h.cpu })
        ] in
          HartWords x.1 × Holds Anything x.0
    taken none h w c = (w, tt)
    taken (some cause) h w c =
        (record { cpu = take_trap-CpuWords cause h.cpu c w.cpu; bus = w.bus }, tt)

pub check_interrupt-Yields : Yields HartWords Anything check_interrupt
unfolding check_interrupt
check_interrupt-Yields =
    bind-Yields HartWords IsWord Anything _ _
      (gets-Yields HartWords IsWord (λ h. get h.cpu.csrs mip)
        (λ h w. get-IsWord h.cpu.csrs mip w.cpu.csrs))
      (λ word l.
        bind-Yields HartWords IsWord Anything _ _ (sample_clint-Yields word l) (λ with_timer lt.
          bind-Yields HartWords IsWord Anything _ _ (sample_plic-Yields with_timer lt) (λ v lv.
            then-Yields HartWords Anything _ _
              (on_cpu-Yields (λ cpu. record cpu { csrs = insert cpu.csrs mip v })
                (λ c w. set_csrs-CpuWords c _ (insert-TableWords c.csrs mip v w.csrs lv) w))
              (deliver-Yields v))))
