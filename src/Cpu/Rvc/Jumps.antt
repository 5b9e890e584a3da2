-- ===== src/Cpu/Rvc/Jumps.antt =====
-- C.JR and C.JALR of rv64rs/src/rvc.rs against JALR: the code takes the register as the target, and
-- JALR clears its bit 0.
use riscvm.Base.{
  ℕ, ◌-◌, ◌/◌, ◌%◌, ◌^◌, ◌<◌, ◌≡◌, refl, ap, sym, ◌∙◌, arith, inl, inr, Bool, true, false,
  Bool-cases, if◌then◌else◌, ◌==◌, ◌!=◌, bit_and, inv, add64, none, some, ok, pure, ◌>>=◌, ◌>>◌,
}
use riscvm.Base.Bits.{bit_and_mask, bit_and_step}
use riscvm.Decode.{Instruction}
use riscvm.Cpu.State.{Hart, reg, set_reg, read_reg, write_reg}
use riscvm.Cpu.Execute as Execute
use riscvm.Cpu.Rvc.{c_jump}
use riscvm.Cpu.Rvc.Expand.{jalr}
use riscvm.Cpu.Rvc.Manual.{table_jump, bit_at, rd_of, rs2_of}
use riscvm.Cpu.Rvc.Bits.{places}
use riscvm.Cpu.Rvc.Table.{rs1-rd}
use riscvm.Cpu.Rvc.Agree.{HasWords}

-- An even word loses nothing.
even_target : (x : ℕ) → x < 2 ^ 64 → x % 2 ≡ 0 → bit_and (add64 x 0) (inv 64 1) ≡ x
even_target x l e = ground (arith, bit_and_step x (2 ^ 64 - 2), bit_and_mask 63 (x / 2))

module _ (pc rd : ℕ) (h : Hart) (g : HasWords h) (even : h.cpu.regs rd % 2 ≡ 0) where
  jr-jalr : reg rd h ≡ Execute.dispatch (jalr 0 rd) pc (add64 pc 2) h
  unfolding Execute.dispatch Execute.jalr reg set_reg read_reg write_reg
  jr-jalr = ap (λ t. (ok t, h)) (sym (even_target (h.cpu.regs rd) (g.words rd) even))

  link-jalr :
      (do target ← reg rd; set_reg 1 (add64 pc 2); pure target) h
      ≡ Execute.dispatch (jalr 1 rd) pc (add64 pc 2) h
  unfolding Execute.dispatch Execute.jalr reg set_reg read_reg
  link-jalr =
      ap (λ t. (ok t, (set_reg 1 (add64 pc 2) h).1))
        (sym (even_target (h.cpu.regs rd) (g.words rd) even))

-- What a table entry is.
is_entry :
    {A : Type 0} (m : A) (f : Instruction → A) (j i : Instruction)
    → m ≡ f j
    → some j ≡ some i
    → m ≡ f i
is_entry m f j i e t = let same : j ≡ i = cc t in e ∙ ap f same

module _ (c : ℕ) where
  jump-none : (rd_of c == 0) ≡ true → table_jump c ≡ none
  unfolding table_jump
  jump-none e = elim (Bool-cases (bit_at c 12 == 0)) [
    | inl a ↦ rw (a, e) refl
    | inr a ↦ rw (a, e) refl
  ]

  jump-jalr :
      (link : ℕ) (t : Bool)
      → (bit_at c 12 == 0) ≡ t
      → link ≡ (if t then 0 else 1)
      → (rd_of c == 0) ≡ false
      → (rs2_of c == 0) ≡ true
      → table_jump c ≡ some (jalr link (rd_of c))
  unfolding table_jump
  jump-jalr link true a l e z = rw (a, e, z, l) refl
  jump-jalr link false a l e z = rw (a, e, z, l) refl

pub jump_lem :
    (c : ℕ) (i : Instruction) (pc : ℕ) (h : Hart)
    → HasWords h
    → (rs2_of c == 0) ≡ true
    → h.cpu.regs (rd_of c) % 2 ≡ 0
    → table_jump c ≡ some i
    → c_jump c pc (add64 pc 2) h ≡ Execute.dispatch i pc (add64 pc 2) h
unfolding c_jump
jump_lem c i pc h g z even t =
    let p = places c in
    let none2 : (rs2_of c != 0) ≡ false = ground (arith, z) in
    elim (Bool-cases (rd_of c == 0)) [
      | inl e ↦ absurd (cc (sym (jump-none c e) ∙ t))
      | inr e ↦
          let some1 : (rd_of c != 0) ≡ true = ground (arith, e) in
          elim (Bool-cases (bit_at c 12 == 0)) [
            | inl a ↦
                rw (p.7, rs1-rd c, p.2, p.3, a, e, none2)
                  (is_entry _ (λ j. Execute.dispatch j pc (add64 pc 2) h) (jalr 0 (rd_of c)) i
                    (jr-jalr pc (rd_of c) h g even) (sym (jump-jalr c 0 true a refl e z) ∙ t))
            | inr a ↦
                rw (p.7, rs1-rd c, p.2, p.3, a, none2, some1)
                  (is_entry _ (λ j. Execute.dispatch j pc (add64 pc 2) h) (jalr 1 (rd_of c)) i
                    (link-jalr pc (rd_of c) h g even) (sym (jump-jalr c 1 false a refl e z) ∙ t))
          ]
    ]
