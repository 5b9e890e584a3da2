-- ===== src/Cpu/Step/Invariant.antt =====
-- The invariant of Cpu/Step/Sound.antt across `Cpu::step` of rv64rs/src/cpu.rs and the rounds of
-- rv64rs/src/emulator.rs.
use riscvm.Base.{ℕ, arith, inl, inr}
use riscvm.Base.{true, bit_and}
use riscvm.Base.{Option-cases, Outcome, ok, err, panic, timeout, ◌>>=◌}
use riscvm.Base.{lift, pure}
use riscvm.Cpu.State.{Cpu, Hart, get, insert, on_cpu, mie, mip}
use riscvm.Cpu.Trap.{raise_trap, select, priority, sample_clint}
use riscvm.Cpu.Trap.{sample_plic, deliver, take_trap}
use riscvm.Base.Keeps.{Keeps, if_state-Keeps, pure-Keeps}
use riscvm.Cpu.Keeps.Step.{StepPrimitives, step-Keeps}
use riscvm.Cpu.Step.{tick_clint, poll_uart, count_down, commit}
use riscvm.Cpu.Step.{step}
use riscvm.Cpu.Step.Sound.{IsSoundCpu, IsSound, Sound-Primitives, raise_trap_sound}

module _ (number : ℕ) where
  tick_clint-IsSound : (h : Hart) → IsSoundCpu number h.cpu → IsSoundCpu number (tick_clint h).cpu
  unfolding tick_clint
  tick_clint-IsSound h s = record {
    x0 = ground (arith, s.x0);
    hart = ground (arith, s.hart);
    numbered = ground (arith, s.numbered);
    two_bits = ground (arith, s.two_bits);
  }

  poll_uart-IsSound : (h : Hart) → IsSoundCpu number h.cpu → IsSoundCpu number (poll_uart h).cpu
  unfolding poll_uart count_down
  poll_uart-IsSound h s = record {
    x0 = ground (arith, s.x0);
    hart = ground (arith, s.hart);
    numbered = ground (arith, s.numbered);
    two_bits = ground (arith, s.two_bits);
  }

  sampled-IsSound :
      {A B : Type 0} (r : Hart → Outcome A) (f : A → B)
      → Keeps (IsSound number) (λ h. (lift (r h) >>= (λ line. pure (f line))) h)
  sampled-IsSound {A} r f = record { keeps = λ h s. kept (r h) h s }
    where
      kept :
          (x : Outcome A) (h : Hart)
          → IsSoundCpu number h.cpu
          → IsSoundCpu number ((lift x >>= (λ line. pure (f line))) h).1.cpu
      kept (ok a) h s = s
      kept (err e) h s = s
      kept panic h s = s
      kept timeout h s = s

  sample_clint-IsSound : (word : ℕ) → Keeps (IsSound number) (sample_clint word)
  unfolding sample_clint
  sample_clint-IsSound word =
      if_state-Keeps (IsSound number) (λ h. h.cpu.clint) _ _ (sampled-IsSound _ _)
        (pure-Keeps (IsSound number) word)

  sample_plic-IsSound : (word : ℕ) → Keeps (IsSound number) (sample_plic word)
  unfolding sample_plic
  sample_plic-IsSound word =
      if_state-Keeps (IsSound number) (λ h. h.cpu.plic) _ _ (sampled-IsSound _ _)
        (pure-Keeps (IsSound number) word)

  deliver-IsSound : (word : ℕ) → Keeps (IsSound number) (deliver word)
  unfolding deliver take_trap
  deliver-IsSound word = record {
    keeps = λ h s. elim (Option-cases (select (bit_and word (get h.cpu.csrs mie)) priority h.cpu)) [
      | inl e ↦ rw (deliver, e) s
      | inr (cause, e) ↦ rw (deliver, e) (trapped cause h.cpu s)
    ];
  }
    where
      trapped : (cause : ℕ) (c : Cpu) → IsSoundCpu number c → IsSoundCpu number (take_trap cause c)
      trapped cause c s = record {
        x0 = t.x0;
        hart = t.hart;
        numbered = t.numbered;
        two_bits = t.two_bits;
      }
        where
          t : IsSoundCpu number (raise_trap cause true 0 c).1
          t = raise_trap_sound number cause 0 true c s

  set_mip-IsSound :
      (v : ℕ) → Keeps (IsSound number) (on_cpu (λ cpu. record cpu { csrs = insert cpu.csrs mip v }))
  unfolding on_cpu insert get
  set_mip-IsSound v = record {
    keeps =
        λ h s. record { x0 = s.x0; hart = s.hart; numbered = s.numbered; two_bits = s.two_bits };
  }

  commit-IsSound : (pc : ℕ) → Keeps (IsSound number) (commit pc)
  unfolding commit on_cpu
  commit-IsSound pc = record {
    keeps =
        λ h s. record { x0 = s.x0; hart = s.hart; numbered = s.numbered; two_bits = s.two_bits };
  }

  Sound-StepPrimitives : StepPrimitives (IsSound number)
  Sound-StepPrimitives = record {
    instructions = Sound-Primitives number;
    on_tick = tick_clint-IsSound;
    on_poll = poll_uart-IsSound;
    on_sample_clint = sample_clint-IsSound;
    on_sample_plic = sample_plic-IsSound;
    on_mip = set_mip-IsSound;
    on_deliver = deliver-IsSound;
    on_commit = commit-IsSound;
  }

  -- A step of a hart, over any bus and however it ends, keeps x0 at 0, the number of the hart in
  -- mhartid and in hartid, and the mode within two bits.
  pub step-IsSound : (h : Hart) → IsSoundCpu number h.cpu → IsSoundCpu number (step h).1.cpu
  step-IsSound h s = (step-Keeps (IsSound number) Sound-StepPrimitives).keeps h s
