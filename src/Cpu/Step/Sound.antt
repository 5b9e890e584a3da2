-- ===== src/Cpu/Step/Sound.antt =====
-- An invariant of every hart: x0 reads 0, the CSR `mhartid` holds the hart's number, and the mode
-- fits two bits.
use riscvm.Base.{ℕ, ◌+◌, ◌<◌, ◌≡◌, arith, inl, inr}
use riscvm.Base.{Bool, false, Bool-cases, ◌==◌, ◌!=◌, shr}
use riscvm.Base.{Option-cases, M}
use riscvm.Base.Bits.{bit_and_mask, bit_and-le_right}
use native.Mathlib.Nat.{le_refl}
use riscvm.Bus.State.{Bus}
use riscvm.Cpu.Tlb
use riscvm.Cpu.State.{Cpu, Hart, get, insert, write_reg, reg, set_reg, on_bus, on_cpu}
use riscvm.Cpu.State.{satp, mhartid, mstatus}
use riscvm.Cpu.Mmu.{Access, translate, translate_paged, finish}
use riscvm.Cpu.Trap.{csr_write, raise_trap, aliased_target}
use riscvm.Cpu.Trap.{mstatus_spp, mstatus_mpp, delegated}
use riscvm.Cpu.Execute.System.{ecall, sret, mret, sfence}
use riscvm.Base.Keeps.{Ending, Keeps, bind-Keeps}
use riscvm.Cpu.Keeps.{Primitives}

module _ (number : ℕ) where
  pub record IsSoundCpu (c : Cpu) : Type 0 where
    pub x0 : c.regs 0 ≡ 0
    pub hart : get c.csrs mhartid ≡ number
    pub numbered : c.hartid ≡ number
    pub two_bits : c.mode < 4

  -- The same of a hart, however a call ended.
  abbrev pub IsSound : Ending → Hart → Type 0
  IsSound e h = IsSoundCpu h.cpu

  set_reg-IsSound : (i v : ℕ) → Keeps IsSound (set_reg i v)
  unfolding set_reg write_reg
  set_reg-IsSound i v = record {
    keeps = λ h s. record {
      x0 = ground (arith, s.x0);
      hart = s.hart;
      numbered = s.numbered;
      two_bits = s.two_bits;
    };
  }

  finish-IsSound : (va : ℕ) (access : Access) (leaf : ℕ × ℕ) → Keeps IsSound (finish va access leaf)
  unfolding finish
  finish-IsSound va access (pte, level) = record {
    keeps = λ h s. record {
      x0 = ground (arith, s.x0);
      hart = ground (arith, s.hart);
      numbered = ground (arith, s.numbered);
      two_bits = ground (arith, s.two_bits);
    };
  }

  csr_write_sound :
      (addr value : ℕ) (c : Cpu) → addr < 4096 → IsSoundCpu c → IsSoundCpu (csr_write addr value c)
  unfolding csr_write get insert aliased_target
  csr_write_sound addr value c h s = record {
    x0 = ground (arith, s.x0);
    hart = ground (arith, s.hart, bit_and_mask 12 addr);
    numbered = ground (arith, s.numbered);
    two_bits = ground (arith, s.two_bits);
  }

  pub raise_trap_sound :
      (cause tval : ℕ) (t : Bool) (c : Cpu)
      → IsSoundCpu c
      → IsSoundCpu (raise_trap cause t tval c).1
  unfolding raise_trap
  raise_trap_sound cause tval t c s = elim (Bool-cases (delegated t cause c)) [
    | inl d ↦
        rw d (record { x0 = s.x0; hart = s.hart; numbered = s.numbered; two_bits = omega arith })
    | inr d ↦
        rw d (record { x0 = s.x0; hart = s.hart; numbered = s.numbered; two_bits = omega arith })
  ]

  mret-IsSound : Keeps IsSound mret
  unfolding mret
  mret-IsSound = record {
    keeps = λ h s. record {
      x0 = s.x0;
      hart = s.hart;
      numbered = s.numbered;
      two_bits = omega (arith, bit_and-le_right _ (get h.cpu.csrs mstatus) mstatus_mpp (le_refl _));
    };
  }

  sret-IsSound : Keeps IsSound sret
  unfolding sret
  sret-IsSound = record {
    keeps = λ h s. record {
      x0 = s.x0;
      hart = s.hart;
      numbered = s.numbered;
      two_bits = omega (arith, bit_and-le_right _ (get h.cpu.csrs mstatus) mstatus_spp (le_refl _));
    };
  }

  -- A step that leaves the hart's registers, CSRs, number and mode alone.
  pub on_bus-IsSound : {A : Type 0} (m : M Bus A) → Keeps IsSound (on_bus m)
  unfolding on_bus
  on_bus-IsSound m = record { keeps = λ h s. s }

  pub translate-IsSound : (va : ℕ) (access : Access) → Keeps IsSound (translate va access)
  unfolding translate translate_paged
  translate-IsSound va access = record {
    keeps = λ h s. elim (Bool-cases (shr 64 (get h.cpu.csrs satp) 60 == 0)) [
      | inl e ↦ rw e s
      | inr e ↦ rw e (paged h s)
    ];
  }
    where
      paged :
          (h : Hart)
          → IsSoundCpu h.cpu
          → IsSoundCpu (translate_paged va access (get h.cpu.csrs satp) h).1.cpu
      paged h s = elim (Bool-cases (shr 64 (get h.cpu.csrs satp) 60 != 8)) [
        | inl e ↦ rw e s
        | inr e ↦ elim (Option-cases (Tlb.lookup h.cpu.tlb (shr 64 va 12))) [
          | inl f ↦
              rw (e, f)
                ((bind-Keeps IsSound _ _ (on_bus-IsSound _) (finish-IsSound va access)).keeps h s)
          | inr (hit, f) ↦ rw (e, f) s
        ]
      ]

  ecall-IsSound : Keeps IsSound ecall
  unfolding ecall
  ecall-IsSound = record { keeps = λ h s. raise_trap_sound (8 + h.cpu.mode) 0 false h.cpu s }

  sfence-IsSound : Keeps IsSound sfence
  unfolding sfence
  sfence-IsSound = record {
    keeps =
        λ h s. record { x0 = s.x0; hart = s.hart; numbered = s.numbered; two_bits = s.two_bits };
  }

  reg-IsSound : (i : ℕ) → Keeps IsSound (reg i)
  unfolding reg
  reg-IsSound i = record { keeps = λ h s. s }

  csr_write-IsSound : (addr value : ℕ) → addr < 4096 → Keeps IsSound (on_cpu (csr_write addr value))
  unfolding on_cpu
  csr_write-IsSound addr value l = record { keeps = λ h s. csr_write_sound addr value h.cpu l s }

  pub Sound-Primitives : Primitives IsSound
  Sound-Primitives = record {
    on_error = record { tolerates = λ e h s. s };
    on_reg = reg-IsSound;
    on_set_reg = set_reg-IsSound;
    on_read = λ pa size. on_bus-IsSound _;
    on_write = λ pa size value. on_bus-IsSound _;
    on_translate = translate-IsSound;
    on_csr = csr_write-IsSound;
    on_ecall = ecall-IsSound;
    on_sret = sret-IsSound;
    on_mret = mret-IsSound;
    on_sfence = sfence-IsSound;
  }
