-- ===== src/Cpu/Step/Ends.antt =====
-- How `Cpu::step` of rv64rs/src/cpu.rs ends, over a fit bus, and the fitness of the bus after it.
use riscvm.Base.{ℕ, zero, suc, ◌≡◌, refl, sym, arith, inl, inr, Bool, true, false, Bool-cases, ◌==◌}
use riscvm.Base.{◌!=◌, if◌then◌else◌, bit_and, shr, Option-cases}
use riscvm.Base.{◌-◌, Error, fail, M, add64, ◌*◌, ◌%◌, ◌^◌}
use mathlib.Core.Path.{subst}
use riscvm.Base.Keeps.{Ending, ending, Keeps, ToleratesErrors, if-Keeps, bind-Keeps, pure-Keeps}
use riscvm.Base.Keeps.{fail-Keeps, at_state-Keeps, if_state-Keeps}
use riscvm.Device.Clint
use riscvm.Device.Plic
use riscvm.Bus.State.{Bus}
use riscvm.Bus.Fit.{Shape, Fit, Fit-errors, IsFit, stops, pending_mask-stops}
use riscvm.Bus.Fit.Access.{read-Fit}
use riscvm.Bus.Fit.Write.{write-Fit}
use riscvm.Cpu.Tlb
use riscvm.Cpu.Execute.System.{ecall, sret, mret, sfence}
use riscvm.Cpu.State.{reg, Cpu, Hart, get, satp, mie, set_reg, on_bus, on_cpu}
use riscvm.Cpu.Mmu.{Access, walk, finish, leaf_ppn, translate_paged, translate, root}
use riscvm.Cpu.Trap.{csr_write, sample_clint, sample_plic, deliver, select, priority}
use riscvm.Cpu.Keeps.{Primitives}
use riscvm.Cpu.Keeps.Step.{StepPrimitives, step-Keeps}
use riscvm.Cpu.Step.{tick_clint, poll_uart, count_down, commit, step}

-- The call ended and the hart's bus is fit.
abbrev pub HartFit : Shape → Ending → Hart → Type 0
HartFit s e h = Fit s e h.bus

module _ (s : Shape) where
  errors : ToleratesErrors (HartFit s)
  errors = record { tolerates = λ e h (_, f). (refl, f) }

  on_bus-Fit : {A : Type 0} (m : M Bus A) → Keeps (Fit s) m → Keeps (HartFit s) (on_bus m)
  unfolding on_bus
  on_bus-Fit m k = record { keeps = λ h p. k.keeps h.bus p }

  on_cpu-Fit : (f : Cpu → Cpu) → Keeps (HartFit s) (on_cpu f)
  unfolding on_cpu
  on_cpu-Fit f = record { keeps = λ h p. p }

  bus_error : {A : Type 0} (e : Error) → Keeps {A = A} (Fit s) (fail e)
  bus_error e = fail-Keeps (Fit s) (Fit-errors s) e

  walk-Fit : (va left a : ℕ) → Keeps (Fit s) (walk va left a)
  unfolding walk
  walk-Fit va zero a = fail-Keeps (Fit s) (Fit-errors s) _
  walk-Fit va (suc level) a =
      bind-Keeps (Fit s) _ _ (read-Fit s _ 8)
        (λ pte. search (if-Keeps, pure-Keeps, bus_error, walk-Fit va level))

  leaf_ppn-stops : (va pte level : ℕ) → stops (ending (leaf_ppn va pte level)) ≡ true
  unfolding leaf_ppn
  leaf_ppn-stops va pte level = ground arith

  -- What leaves the bus alone and stops.
  quiet-Fit :
      {A : Type 0} (m : M Hart A)
      → ((h : Hart) → (stops (ending (m h).0) ≡ true) × ((m h).1.bus ≡ h.bus))
      → Keeps (HartFit s) m
  quiet-Fit m q = record { keeps = λ h (_, f). ((q h).0, subst (λ b. IsFit s b) (sym (q h).1) f) }

  finish-Fit : (va : ℕ) (access : Access) (leaf : ℕ × ℕ) → Keeps (HartFit s) (finish va access leaf)
  unfolding finish
  finish-Fit va access (pte, level) =
      quiet-Fit (finish va access (pte, level))
        (λ h. (ground (arith, leaf_ppn-stops va pte level), ground arith))

  translate_paged-Fit :
      (va : ℕ) (access : Access) (table : ℕ) → Keeps (HartFit s) (translate_paged va access table)
  unfolding translate_paged
  translate_paged-Fit va access table = record {
    keeps = λ h p. elim (Bool-cases (shr 64 table 60 != 8)) [
      | inl e ↦ rw (translate_paged, e) (refl, p.1)
      | inr e ↦ elim (Option-cases (Tlb.lookup h.cpu.tlb (shr 64 va 12))) [
        | inl f ↦
            rw (translate_paged, e, f)
              ((bind-Keeps (HartFit s) _ _ (on_bus-Fit _ (walk-Fit va 3 (root table)))
                  (finish-Fit va access)).keeps
                h p)
        | inr (hit, f) ↦ rw (translate_paged, e, f) (ground arith, p.1)
      ]
    ];
  }

  translate-Fit : (va : ℕ) (access : Access) → Keeps (HartFit s) (translate va access)
  unfolding translate
  translate-Fit va access = if_state-Keeps (HartFit s) _ _ _ (pure-Keeps (HartFit s) va) (
      at_state-Keeps (HartFit s) (λ h. translate_paged va access (get h.cpu.csrs satp))
        (λ h. translate_paged-Fit va access (get h.cpu.csrs satp)))

  Fit-Primitives : Primitives (HartFit s)
  unfolding reg set_reg ecall sret mret sfence
  Fit-Primitives = record {
    on_error = errors;
    on_reg = λ i. record { keeps = λ h p. p };
    on_set_reg = λ i v. record { keeps = λ h p. p };
    on_read = λ pa size. on_bus-Fit _ (read-Fit s pa size);
    on_write = λ pa size value. on_bus-Fit _ (write-Fit s pa size value);
    on_translate = translate-Fit;
    on_csr = λ addr value l. on_cpu-Fit (csr_write addr value);
    on_ecall = record { keeps = λ h p. p };
    on_sret = record { keeps = λ h p. p };
    on_mret = record { keeps = λ h p. p };
    on_sfence = record { keeps = λ h p. p };
  }

  either_fits :
      (t : Bool) (x y : Hart) → IsFit s x.bus → IsFit s y.bus → IsFit s (if t then x else y).bus
  either_fits true x y f g = f
  either_fits false x y f g = g

  ticked : (h : Hart) → IsFit s h.bus → IsFit s (tick_clint h).bus
  unfolding tick_clint
  ticked h f =
      either_fits h.cpu.clint _ h (record { same = f.same; wired = f.wired; indices = f.indices }) f

  counted : (h : Hart) → IsFit s h.bus → IsFit s (count_down h).bus
  unfolding count_down
  counted h f =
      either_fits (h.cpu.uart_poll_countdown - 1 == 0) _ _
        (record { same = f.same; wired = f.wired; indices = f.indices })
        (record { same = f.same; wired = f.wired; indices = f.indices })

  polled : (h : Hart) → IsFit s h.bus → IsFit s (poll_uart h).bus
  unfolding poll_uart
  polled h f = either_fits h.cpu.uart (count_down h) h (counted h f) f

  pending-stops : (c : Clint.Clint) (hart : ℕ) → stops (ending (Clint.pending c hart)) ≡ true
  unfolding Clint.pending
  pending-stops c hart = ground arith

  sample_clint-Fit : (word : ℕ) → Keeps (HartFit s) (sample_clint word)
  unfolding sample_clint
  sample_clint-Fit word =
      quiet-Fit (sample_clint word)
        (λ h. (ground (arith, pending-stops h.bus.cells.clint h.cpu.hartid), ground arith))

  claimable-stops :
      (b : Bus) (context : ℕ)
      → IsFit s b
      → stops (ending (Plic.claimable b.cells b.plic_cell context)) ≡ true
  unfolding Plic.claimable Plic.claim_irq
  claimable-stops b context f = ground (arith, pending_mask-stops b.cells b.plic_cell f.wired)

  deliver-Fit : (word : ℕ) → Keeps (HartFit s) (deliver word)
  unfolding deliver
  deliver-Fit word = record {
    keeps = λ h (_, f).
        elim (Option-cases (select (bit_and word (get h.cpu.csrs mie)) priority h.cpu)) [
          | inl e ↦ rw (deliver, e) (refl, f)
          | inr (cause, e) ↦ rw (deliver, e) (refl, f)
        ];
  }

  sample_plic-Fit : (word : ℕ) → Keeps (HartFit s) (sample_plic word)
  unfolding sample_plic
  sample_plic-Fit word = record {
    keeps = λ h (_, f). (
      ground (arith, claimable-stops h.bus (add64 (2 * h.cpu.hartid % 2 ^ 64) 1) f),
      subst (λ b. IsFit s b) (sym (same_bus h)) f,
    );
  }
    where
      same_bus : (h : Hart) → (sample_plic word h).1.bus ≡ h.bus
      same_bus h = ground arith

  Fit-StepPrimitives : StepPrimitives (HartFit s)
  unfolding commit
  Fit-StepPrimitives = record {
    instructions = Fit-Primitives;
    on_tick = λ h (_, f). (refl, ticked h f);
    on_poll = λ h (_, f). (refl, polled h f);
    on_sample_clint = sample_clint-Fit;
    on_sample_plic = sample_plic-Fit;
    on_mip = λ v. on_cpu-Fit _;
    on_deliver = deliver-Fit;
    on_commit = λ pc. on_cpu-Fit _;
  }

  pub step-Fit : (h : Hart) → IsFit s h.bus → HartFit s (ending (step h).0) (step h).1
  step-Fit h f = (step-Keeps (HartFit s) Fit-StepPrimitives).keeps h (refl, f)
