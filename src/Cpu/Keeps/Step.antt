-- ===== src/Cpu/Keeps/Step.antt =====
-- Predicates that the primitive steps keep, across `Cpu::step` of rv64rs/src/cpu.rs.
use riscvm.Base.{ℕ, ◌<◌, ◌≡◌, refl, arith, inl, inr, ◌⊎◌, Bool-cases, ◌==◌, bit_and, shr, u16, u32}
use riscvm.Base.{Outcome, ok, err, panic, timeout, ◌>>=◌, next, pure}
use riscvm.Base.Bits.{bit_and_mask}
use riscvm.Base.Keeps.{Ending, returned, Keeps, bind-Keeps, then-Keeps, gets-Keeps}
use riscvm.Decode
use riscvm.Cpu.State.{Hart, insert, on_cpu, mip}
use riscvm.Cpu.Mmu.{fetch_access}
use riscvm.Cpu.Trap.{check_interrupt, sample_clint, sample_plic, deliver}
use riscvm.Cpu.Rvc.Fields.{CInstruction}
use riscvm.Cpu.Keeps.{Primitives}
use riscvm.Cpu.Keeps.Execute as KeepsExecute
use riscvm.Cpu.Keeps.Rvc as KeepsRvc
use riscvm.Cpu.Step.{full, compressed, tick_clint, poll_uart, fetch, fetch_word, commit, decode}
use riscvm.Cpu.Step.{run_instruction, step}

pub record StepPrimitives (P : Ending → Hart → Type 0) : Type 0 where
  pub instructions : Primitives P
  pub on_tick : (h : Hart) → P returned h → P returned (tick_clint h)
  pub on_poll : (h : Hart) → P returned h → P returned (poll_uart h)
  pub on_sample_clint : (word : ℕ) → Keeps P (sample_clint word)
  pub on_sample_plic : (word : ℕ) → Keeps P (sample_plic word)
  pub on_mip : (v : ℕ) → Keeps P (on_cpu (λ cpu. record cpu { csrs = insert cpu.csrs mip v }))
  pub on_deliver : (word : ℕ) → Keeps P (deliver word)
  pub on_commit : (pc : ℕ) → Keeps P (commit pc)

pub decode-either : (w : ℕ) → (decode w ≡ full (Decode.new w)) ⊎ (decode w ≡ compressed (u16 w))
unfolding decode
decode-either w = elim (Bool-cases (bit_and w 0b11 == 0b11)) [
  | inl e ↦ inl (rw e refl)
  | inr e ↦ inr (rw e refl)
]

csr_lt : (w : ℕ) → (Decode.new w).csr < 4096
unfolding Decode.new
csr_lt w = omega (arith, bit_and_mask 12 (shr 32 w 20))

pub step-fetch_word :
    (h : Hart) → step h ≡ (fetch_word >>= (λ word. run_instruction (decode (u32 word)))) h
unfolding step fetch
step-fetch_word h = assoc (fetch_word h)
  where
    assoc :
        (x : Outcome ℕ × Hart)
        → next run_instruction (next (λ word. pure (decode (u32 word))) x)
          ≡ next (λ word. run_instruction (decode (u32 word))) x
    assoc (ok w, h) = refl
    assoc (err e, h) = refl
    assoc (panic, h) = refl
    assoc (timeout, h) = refl

module _ (P : Ending → Hart → Type 0) (p : StepPrimitives P) where
  open p use {instructions, on_tick, on_poll, on_sample_clint, on_sample_plic}
  open p use {on_mip, on_deliver, on_commit}

  -- The check samples the lines into `mip` and delivers.
  pub check_interrupt-Keeps : Keeps P check_interrupt
  unfolding check_interrupt
  check_interrupt-Keeps = bind-Keeps P _ _ (gets-Keeps P _) (λ word.
      bind-Keeps P _ _ (on_sample_clint word) (λ with_timer.
        bind-Keeps P _ _ (on_sample_plic with_timer)
          (λ with_external. then-Keeps P _ _ (on_mip with_external) (on_deliver with_external))))

  fetch_word-Keeps : Keeps P fetch_word
  unfolding fetch_word
  fetch_word-Keeps = record {
    keeps = λ h s.
        (bind-Keeps P _ _ check_interrupt-Keeps (λ _. bind-Keeps P _ _ (gets-Keeps P _) (λ pc.
            bind-Keeps P _ _ (instructions.on_translate pc fetch_access)
              (λ pa. instructions.on_read pa 4)))).keeps
          (poll_uart (tick_clint h)) (on_poll (tick_clint h) (on_tick h s));
  }

  full-Keeps : (w : ℕ) → Keeps P (run_instruction (full (Decode.new w)))
  unfolding run_instruction
  full-Keeps w =
      bind-Keeps P _ _ (KeepsExecute.execute-Keeps P instructions (Decode.new w) (csr_lt w))
        on_commit

  compressed-Keeps : (i : CInstruction) → Keeps P (run_instruction (compressed i))
  unfolding run_instruction
  compressed-Keeps i = bind-Keeps P _ _ (KeepsRvc.execute-Keeps P instructions i) on_commit

  run_instruction-Keeps : (w : ℕ) → Keeps P (run_instruction (decode w))
  run_instruction-Keeps w = elim (decode-either w) [
    | inl e ↦ rw e (full-Keeps w)
    | inr e ↦ rw e (compressed-Keeps (u16 w))
  ]

  pub step-Keeps : Keeps P step
  step-Keeps = record {
    keeps = λ h s.
        rw (step-fetch_word h) (
          (bind-Keeps P _ _ fetch_word-Keeps (λ word. run_instruction-Keeps (u32 word))).keeps h s);
  }
