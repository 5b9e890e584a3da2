-- ===== src/Cpu/Rvc/Agree.antt =====
-- Compressed instructions of rv64rs/src/rvc.rs against their expansions by execute.rs, case by case.
use riscvm.Base.{ℕ, ◌^◌, ◌<◌, ◌≡◌, refl, sym, ap, ◌∙◌, arith, Bool, true, false}
use riscvm.Base.{if◌then◌else◌, ◌==◌, ◌!=◌, bit_and, u32}
use riscvm.Base.{add64, add32, shl, shr, sar, widen, Option, none, some}
use riscvm.Base.{M, Outcome, ok, err, panic, timeout, pure, lift, next, ◌>>=◌, ◌>>◌, fun_ext}
use riscvm.Decode.{Instruction, sext}
use riscvm.Cpu.State.{Hart, reg, set_reg, read_reg, write_reg}
use riscvm.Cpu.Execute as Execute
use riscvm.Cpu.Execute.{
  read, write, load, load_value, store, store_value, branch, taken, alu, alu_imm,
}
use riscvm.Cpu.Execute.{alu_32, alu_imm_32}
use riscvm.Cpu.Execute.Alu.{sext64, op, op_imm, op_imm_32, base_op}
use riscvm.Cpu.Rvc.{put, address}
use riscvm.Cpu.Rvc.Expand.{imm_op, addiw, slli, srli, srai, load_op, store_op, reg_op}
use riscvm.Cpu.Rvc.Expand.{lui, jal, branch_zero, with_imm}

-- Registers as the hart has them: x0 is 0, and each holds a word.
pub record HasWords (h : Hart) : Type 0 where
  pub x0 : h.cpu.regs 0 ≡ 0
  pub words : (i : ℕ) → h.cpu.regs i < 2 ^ 64

sext-sext64 : (v : ℕ) → sext (u32 v) 32 ≡ sext64 v 32
unfolding sext sext64
sext-sext64 v = ground arith

-- Binding a result that is computed from another.
next-map :
    {S A B C : Type 0} (f : B → M S C) (g : A → B) (x : Outcome A × S)
    → next f (next (λ a. pure (g a)) x) ≡ next (λ a. f (g a)) x
next-map f g (ok a, s) = refl
next-map f g (err e, s) = refl
next-map f g (panic, s) = refl
next-map f g (timeout, s) = refl

module _ (pc n : ℕ) where
  -- `m` does what the expansion `e`, where there is one, does.
  pub record Agrees (m : M Hart ℕ) (e : Option Instruction) : Type 0 where
    pub agrees :
        (i : Instruction) (h : Hart) → HasWords h → e ≡ some i → m h ≡ Execute.dispatch i pc n h

  pub none-Agrees : (m : M Hart ℕ) → Agrees m none
  none-Agrees m = record { agrees = λ i h g e. absurd (cc e) }

  pub if-Agrees :
      (t : Bool) (m k : M Hart ℕ) (e f : Option Instruction)
      → Agrees m e
      → Agrees k f
      → Agrees (if t then m else k) (if t then e else f)
  if-Agrees true m k e f p q = p
  if-Agrees false m k e f p q = q

  -- An instruction that is known.
  pub this-Agrees :
      (m : M Hart ℕ) (i : Instruction)
      → ((h : Hart) → HasWords h → m h ≡ Execute.dispatch i pc n h)
      → Agrees m (some i)
  this-Agrees m i k = record {
    agrees =
        λ j h g e. k h g ∙ ap (λ (x : Instruction). Execute.dispatch x pc n h) (some_injective e);
  }
    where
      some_injective : {a b : Instruction} → some a ≡ some b → a ≡ b
      some_injective e = cc

  pub lw-Agrees :
      (rd rs1 imm : ℕ)
      → Agrees
          (do addr ← address rs1 imm; v ← read addr 4; put rd (sext (u32 v) 32) n)
          (some (load_op 2 rd rs1 imm))
  unfolding Execute.dispatch load load_value reg set_reg
  lw-Agrees rd rs1 imm = this-Agrees _ _ (λ h g.
      ap (λ (f : ℕ → M Hart ℕ). next f (read (add64 (read_reg h.cpu.regs rs1) imm) 4 h))
        (fun_ext (λ v. ap (λ t. put rd t n) (sext-sext64 v)))
      ∙ sym (
          next-map (λ t. put rd t n) (λ v. sext64 v 32)
            (read (add64 (read_reg h.cpu.regs rs1) imm) 4 h)))

  pub ld-Agrees :
      (rd rs1 imm : ℕ)
      → Agrees
          (do addr ← address rs1 imm; v ← read addr 8; put rd v n)
          (some (load_op 3 rd rs1 imm))
  unfolding Execute.dispatch load load_value reg set_reg
  ld-Agrees rd rs1 imm = this-Agrees _ _ (λ h g. refl)

  pub sw-Agrees :
      (rs2 rs1 imm : ℕ)
      → Agrees
          (do addr ← address rs1 imm; v ← reg rs2; write addr 4 v; pure n)
          (some (store_op 2 rs2 rs1 imm))
  unfolding Execute.dispatch store store_value reg
  sw-Agrees rs2 rs1 imm = this-Agrees _ _ (λ h g. refl)

  pub sd-Agrees :
      (rs2 rs1 imm : ℕ)
      → Agrees
          (do addr ← address rs1 imm; v ← reg rs2; write addr 8 v; pure n)
          (some (store_op 3 rs2 rs1 imm))
  unfolding Execute.dispatch store store_value reg
  sd-Agrees rs2 rs1 imm = this-Agrees _ _ (λ h g. refl)

  pub addi-Agrees :
      (rd rs1 imm : ℕ)
      → Agrees (do a ← reg rs1; put rd (add64 a imm) n) (some (imm_op 0 rd rs1 imm))
  unfolding Execute.dispatch alu_imm op_imm reg set_reg
  addi-Agrees rd rs1 imm = this-Agrees _ _ (λ h g. refl)

  pub andi-Agrees :
      (rd imm : ℕ) → Agrees (do a ← reg rd; put rd (bit_and a imm) n) (some (imm_op 7 rd rd imm))
  unfolding Execute.dispatch alu_imm op_imm reg set_reg
  andi-Agrees rd imm = this-Agrees _ _ (λ h g. refl)

  pub srli-Agrees : (rd k : ℕ) → Agrees (do a ← reg rd; put rd (shr 64 a k) n) (some (srli rd k))
  unfolding Execute.dispatch alu_imm op_imm reg set_reg
  srli-Agrees rd k = this-Agrees _ _ (λ h g. refl)

  pub srai-Agrees : (rd k : ℕ) → Agrees (do a ← reg rd; put rd (sar 64 a k) n) (some (srai rd k))
  unfolding Execute.dispatch alu_imm op_imm reg set_reg
  srai-Agrees rd k = this-Agrees _ _ (λ h g. refl)

  pub slli-Agrees : (rd k : ℕ) → Agrees (do a ← reg rd; put rd (shl 64 a k) n) (some (slli rd k))
  unfolding Execute.dispatch alu_imm op_imm reg set_reg
  slli-Agrees rd k = this-Agrees _ _ (λ h g. refl)

  pub addiw-Agrees :
      (rd imm : ℕ)
      → Agrees
          (do a ← reg rd; put rd (widen 32 64 (add32 (u32 a) (u32 imm))) n)
          (some (addiw rd imm))
  unfolding Execute.dispatch alu_imm_32 op_imm_32 reg set_reg
  addiw-Agrees rd imm = this-Agrees _ _ (λ h g. refl)

  -- `addi rd, x0, imm` and `add rd, x0, rs2`.
  pub li-Agrees : (rd imm : ℕ) → imm < 2 ^ 64 → Agrees (put rd imm n) (some (imm_op 0 rd 0 imm))
  unfolding Execute.dispatch alu_imm op_imm reg set_reg read_reg
  li-Agrees rd imm l = this-Agrees _ _ (λ h g.
      let sum : imm ≡ add64 (h.cpu.regs 0) imm = omega (arith, g.x0) in ap (λ t. put rd t n h) sum)

  pub mv-Agrees : (rd rs2 : ℕ) → Agrees (do b ← reg rs2; put rd b n) (some (reg_op 0 0 rd 0 rs2))
  unfolding Execute.dispatch alu op base_op reg set_reg read_reg
  mv-Agrees rd rs2 = this-Agrees _ _ (λ h g.
      let sum : h.cpu.regs rs2 ≡ add64 (h.cpu.regs 0) (h.cpu.regs rs2) =
        omega (arith, g.x0, g.words rs2) in
      ap (λ t. put rd t n h) sum)

  pub add-Agrees :
      (rd rs2 : ℕ)
      → Agrees (do a ← reg rd; b ← reg rs2; put rd (add64 a b) n) (some (reg_op 0 0 rd rd rs2))
  unfolding Execute.dispatch alu op base_op reg set_reg
  add-Agrees rd rs2 = this-Agrees _ _ (λ h g. refl)

  pub lui-Agrees : (rd imm : ℕ) → Agrees (put rd imm n) (some (lui rd imm))
  unfolding Execute.dispatch set_reg
  lui-Agrees rd imm = this-Agrees _ _ (λ h g. refl)

  pub jal-Agrees : (imm : ℕ) → Agrees (pure (add64 pc imm)) (some (jal 0 imm))
  unfolding Execute.dispatch set_reg write_reg
  jal-Agrees imm = this-Agrees _ _ (λ h g. refl)

  pub beqz-Agrees :
      (rs1 imm : ℕ)
      → Agrees
          (do a ← reg rs1; pure (if a == 0 then add64 pc imm else n))
          (some (branch_zero 0 rs1 imm))
  unfolding Execute.dispatch branch taken reg read_reg
  beqz-Agrees rs1 imm = this-Agrees _ _ (λ h g. rw g.x0 refl)

  pub bnez-Agrees :
      (rs1 imm : ℕ)
      → Agrees
          (do a ← reg rs1; pure (if a != 0 then add64 pc imm else n))
          (some (branch_zero 1 rs1 imm))
  unfolding Execute.dispatch branch taken reg read_reg
  bnez-Agrees rs1 imm = this-Agrees _ _ (λ h g. rw g.x0 refl)

  -- The immediate comes first, and a zero one ends the instruction.
  pub imm-Agrees :
      (v : Outcome ℕ) (m : ℕ → M Hart ℕ) (f : ℕ → Instruction)
      → ((imm : ℕ) → Agrees (m imm) (some (f imm)))
      → Agrees (lift v >>= m) (with_imm v f)
  imm-Agrees (ok imm) m f k = record { agrees = (k imm).agrees }
  imm-Agrees (err e) m f k = none-Agrees _
  imm-Agrees panic m f k = none-Agrees _
  imm-Agrees timeout m f k = none-Agrees _
