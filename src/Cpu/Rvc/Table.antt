-- ===== src/Cpu/Rvc/Table.antt =====
-- The expansions that rv64rs/src/rvc.rs follows, with the fields as its code extracts them, against the
-- entries of the manual's tables.
use riscvm.Base.{
  ℕ, ◌*◌, ◌/◌, ◌%◌, ◌^◌, ◌<◌, ◌≡◌, refl, ap, ◌∙◌, arith, inl, inr, Bool, true, false, Bool-cases,
  if◌then◌else◌, ◌==◌, ◌!=◌, ◌&&◌, ◌||◌, bit_and, Option, none, some,
}
use riscvm.Base.Bits.{bit_and_mask, bit_and_step}
use riscvm.Decode.{sext}
use riscvm.Decode.{Instruction}
use riscvm.Cpu.Rvc.Fields.{nz, nzuimm_9_2, nzimm_9_4, nzimm_5_0, shamt}
use riscvm.Cpu.Rvc.Fields.{rs1, funct6}
use riscvm.Cpu.Rvc.Expand.{
  expand, expand0, expand1, expand2, expand_arith, expand_misc, expand_lui, expand_add, with_imm,
}
use riscvm.Cpu.Rvc.Expand.{imm_op, srli, srai, slli, lui}
use riscvm.Cpu.Rvc.Manual.{
  table, table0, table1, table2, table_arith, table_misc, table_lui, table_jump, nonzero, signed,
}
use riscvm.Cpu.Rvc.Manual.{
  six, addi4spn, addi16sp, is_register_jump, bits, bit_at, rd_of, rs2_of, upper_of,
}
use riscvm.Cpu.Rvc.Bits.{
  places, uimm_5_0-six, imm_5_0-six, offset_6_2-word_offset, offset_7_3-double_offset,
}
use riscvm.Cpu.Rvc.Bits.{
  ldsp-ldsp_offset, sdsp-sdsp_offset, offset_8_1-branch_offset, offset_11_1-jump_offset,
}
use riscvm.Cpu.Rvc.Bits.{raw_addi4spn_lem, raw_addi16sp_lem, sext_10_bits}

-- An immediate that must not be zero.
with_imm-nz : (v : ℕ) (f : ℕ → Instruction) → with_imm (nz v) f ≡ nonzero v (some (f v))
unfolding nz
with_imm-nz v f = elim (Bool-cases (v == 0)) [ inl e ↦ rw e refl | inr e ↦ rw e refl ]

-- A sign-extended field is zero where the field is.
zero_6 : (v : ℕ) → v < 2 ^ 6 → (signed 6 v == 0) ≡ (v == 0)
zero_6 v l = ground arith

zero_10 : (v : ℕ) → v < 2 ^ 10 → (signed 10 v == 0) ≡ (v == 0)
zero_10 v l = ground arith

nzuimm_9_2-addi4spn :
    (c : ℕ) (f : ℕ → Instruction)
    → with_imm (nzuimm_9_2 c) f ≡ nonzero (addi4spn c) (some (f (addi4spn c)))
unfolding nzuimm_9_2
nzuimm_9_2-addi4spn c f =
    ap (λ v. with_imm (nz v) f) (raw_addi4spn_lem c) ∙ with_imm-nz (addi4spn c) f

expand0-table0 : (c : ℕ) → expand0 c ≡ table0 c
unfolding expand0 table0
expand0-table0 c =
    let p = places c in
    rw (p.1, p.4, p.5, nzuimm_9_2-addi4spn c, offset_6_2-word_offset c, offset_7_3-double_offset c)
      refl

nzimm_9_4-addi16sp :
    (c : ℕ) (f : ℕ → Instruction)
    → with_imm (nzimm_9_4 c) f ≡ nonzero (addi16sp c) (some (f (signed 10 (addi16sp c))))
unfolding nzimm_9_4 addi16sp
nzimm_9_4-addi16sp c f =
    ap (λ v. with_imm (nz (sext v 10)) f) (raw_addi16sp_lem c)
    ∙ ap (λ v. with_imm (nz v) f) (sext_10_bits (addi16sp c) (omega arith))
    ∙ with_imm-nz (signed 10 (addi16sp c)) f
    ∙ ap (λ (t : Bool). if t then none else some (f (signed 10 (addi16sp c))))
        (zero_10 (addi16sp c) (omega arith))

nzimm_5_0-six :
    (c : ℕ) (f : ℕ → Instruction)
    → with_imm (nzimm_5_0 c) f ≡ nonzero (six c) (some (f (signed 6 (six c))))
unfolding nzimm_5_0 six
nzimm_5_0-six c f =
    ap (λ v. with_imm (nz v) f) (imm_5_0-six c)
    ∙ with_imm-nz (signed 6 (six c)) f
    ∙ ap (λ (t : Bool). if t then none else some (f (signed 6 (six c))))
        (zero_6 (six c) (omega arith))

shamt-six :
    (c : ℕ) (f : ℕ → Instruction) → with_imm (shamt c) f ≡ nonzero (six c) (some (f (six c)))
unfolding shamt
shamt-six c f = ap (λ v. with_imm (nz v) f) (uimm_5_0-six c) ∙ with_imm-nz (six c) f

-- The low bits of funct6, and its third.
funct6-low : (c : ℕ) → bit_and (funct6 c) 0b11 ≡ bits c 10 2
funct6-low c = ap (λ x. bit_and x 3) (places c).8 ∙ bit_and_mask 2 (bits c 10 6) ∙ omega arith

funct6-third : (c : ℕ) → (bit_and (funct6 c) 0b100 == 0) ≡ (bit_at c 12 == 0)
funct6-third c =
    let x = bits c 10 6 in
    ap (λ x. bit_and x 4 == 0) (places c).8
    ∙ ground (arith, bit_and_step x 4, bit_and_step (x / 2) 2, bit_and_mask 1 (x / 2 / 2))

expand_arith-table_arith : (c : ℕ) → expand_arith c ≡ table_arith c
unfolding expand_arith table_arith
expand_arith-table_arith c = let p = places c in rw (funct6-third c, p.4, p.5, p.6) refl

expand_misc-table_misc : (c : ℕ) → expand_misc c ≡ table_misc c
unfolding expand_misc table_misc
expand_misc-table_misc c =
    let p = places c in
    rw
      (
        expand_arith-table_arith c,
        funct6-low c,
        p.4,
        shamt-six c (srli (upper_of c)),
        shamt-six c (srai (upper_of c)),
        imm_5_0-six c,
      )
      refl

pub rs1-rd : (c : ℕ) → rs1 c ≡ rd_of c
unfolding rs1
rs1-rd c = (places c).2

either_none :
    (a b : Bool) (x : Option Instruction)
    → (a ≡ false)
    → (if b || a then none else x) ≡ (if b then none else x)
either_none a true x e = refl
either_none a false x e = rw e refl

expand_lui-table_lui : (c : ℕ) → expand_lui c ≡ table_lui c
unfolding expand_lui table_lui
expand_lui-table_lui c =
    let p = places c in
    rw
      (
        p.2,
        nzimm_9_4-addi16sp c (imm_op 0 2 2),
        nzimm_5_0-six c (λ imm. lui (rd_of c) (imm * 2 ^ 12 % 2 ^ 64)),
      )
      (elim (Bool-cases (rd_of c == 2)) [
        | inl e ↦ rw e refl
        | inr e ↦ rw e (either_none false (rd_of c == 0) _ refl)
      ])

expand1-table1 : (c : ℕ) → expand1 c ≡ table1 c
unfolding expand1 table1
expand1-table1 c =
    let p = places c in
    rw
      (
        expand_lui-table_lui c,
        expand_misc-table_misc c,
        p.1,
        p.2,
        p.4,
        imm_5_0-six c,
        offset_8_1-branch_offset c,
        offset_11_1-jump_offset c,
      )
      refl

expand_add-table_jump : (c : ℕ) → (rs2_of c == 0) ≡ false → expand_add c ≡ table_jump c
unfolding expand_add table_jump
expand_add-table_jump c e =
    let p = places c in
    let other : (rs2_of c != 0) ≡ true = ground (arith, e) in
    rw (p.7, rs1-rd c, p.2, p.3, e, other) refl

pub and_false : (a b : Bool) → (a && b) ≡ false → (a ≡ true) → b ≡ false
and_false true b e t = e
and_false false b e t = absurd (cc t)

expand2-table2 : (c : ℕ) → ((bits c 13 3 == 4) && (rs2_of c == 0)) ≡ false → expand2 c ≡ table2 c
unfolding expand2 table2
expand2-table2 c h =
    let p = places c in
    elim (Bool-cases (bits c 13 3 == 4)) [
      | inl e ↦
          rw
            (
              expand_add-table_jump c (and_false (bits c 13 3 == 4) (rs2_of c == 0) h e),
              p.1,
              p.2,
              p.3,
              shamt-six c (slli (rd_of c)),
              ldsp-ldsp_offset c,
              sdsp-sdsp_offset c,
            )
            refl
      | inr e ↦
          rw
            (p.1, e, p.2, p.3, shamt-six c (slli (rd_of c)), ldsp-ldsp_offset c, sdsp-sdsp_offset c)
            refl
    ]

pub expand-table : (c : ℕ) → is_register_jump c ≡ false → expand c ≡ table c
unfolding expand table
expand-table c h =
    let p = places c in
    elim (Bool-cases (bits c 0 2 == 2)) [
      | inl e ↦
          rw
            (
              expand2-table2 c
                  (and_false (bits c 0 2 == 2) ((bits c 13 3 == 4) && (rs2_of c == 0)) h e),
              expand1-table1 c,
              expand0-table0 c,
              p.0,
            )
            refl
      | inr e ↦ rw (expand1-table1 c, expand0-table0 c, p.0, e) refl
    ]
