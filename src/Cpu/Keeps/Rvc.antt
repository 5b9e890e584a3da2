-- ===== src/Cpu/Keeps/Rvc.antt =====
-- Predicates that the primitive steps keep, across the instructions of rv64rs/src/rvc.rs.
use riscvm.Base.{ℕ, Bool, Bool-cases, inl, inr, ◌==◌, lift, add64}
use riscvm.Cpu.State.{Hart}
use riscvm.Base.Keeps.{Ending, Keeps, pure-Keeps, if-Keeps, bind-Keeps, then-Keeps}
use riscvm.Cpu.Keeps.{Primitives}
use riscvm.Cpu.Keeps.Execute.{error-Keeps, read-Keeps, write-Keeps}
use riscvm.Cpu.Rvc.{quadrant0, quadrant1, quadrant2, c_arith, c_misc, c_lui, c_branch}
use riscvm.Cpu.Rvc.{c_jump, dispatch, execute}
use riscvm.Cpu.Rvc.Fields.{CInstruction, nz, shamt, nzimm_5_0, nzimm_9_4, nzuimm_9_2}

ruleset blocks = (if-Keeps, bind-Keeps, then-Keeps, pure-Keeps)

module _ (P : Ending → Hart → Type 0) (p : Primitives P) where
  open p use {on_reg, on_set_reg}

  nz-Keeps : (v : ℕ) → Keeps P (lift (nz v))
  unfolding nz
  nz-Keeps v = elim (Bool-cases (v == 0)) [
    | inl e ↦ rw e (error-Keeps P p _)
    | inr e ↦ rw e (pure-Keeps P v)
  ]

  shamt-Keeps : (i : CInstruction) → Keeps P (lift (shamt i))
  unfolding shamt
  shamt-Keeps i = nz-Keeps _

  nzimm_5_0-Keeps : (i : CInstruction) → Keeps P (lift (nzimm_5_0 i))
  unfolding nzimm_5_0
  nzimm_5_0-Keeps i = nz-Keeps _

  nzimm_9_4-Keeps : (i : CInstruction) → Keeps P (lift (nzimm_9_4 i))
  unfolding nzimm_9_4
  nzimm_9_4-Keeps i = nz-Keeps _

  nzuimm_9_2-Keeps : (i : CInstruction) → Keeps P (lift (nzuimm_9_2 i))
  unfolding nzuimm_9_2
  nzuimm_9_2-Keeps i = nz-Keeps _

  quadrant0-Keeps : (i : CInstruction) (n : ℕ) → Keeps P (quadrant0 i n)
  unfolding quadrant0
  quadrant0-Keeps i n =
      search
        (
          blocks,
          error-Keeps P p,
          on_reg,
          on_set_reg,
          nzuimm_9_2-Keeps,
          read-Keeps P p,
          write-Keeps P p,
        )
        depth 16

  c_arith-Keeps : (i : CInstruction) (n : ℕ) → Keeps P (c_arith i n)
  unfolding c_arith
  c_arith-Keeps i n = search (blocks, error-Keeps P p, on_reg, on_set_reg) depth 12

  c_misc-Keeps : (i : CInstruction) (n : ℕ) → Keeps P (c_misc i n)
  unfolding c_misc
  c_misc-Keeps i n = search (blocks, on_reg, on_set_reg, shamt-Keeps, c_arith-Keeps) depth 12

  c_lui-Keeps : (i : CInstruction) (n : ℕ) → Keeps P (c_lui i n)
  unfolding c_lui
  c_lui-Keeps i n =
      search (blocks, error-Keeps P p, on_reg, on_set_reg, nzimm_9_4-Keeps, nzimm_5_0-Keeps) depth
        12

  c_branch-Keeps : (i : CInstruction) (t : Bool) (pc n : ℕ) → Keeps P (c_branch i t pc n)
  unfolding c_branch
  c_branch-Keeps i t pc n = search blocks

  quadrant1-Keeps : (i : CInstruction) (pc n : ℕ) → Keeps P (quadrant1 i pc n)
  unfolding quadrant1
  quadrant1-Keeps i pc n =
      search (blocks, error-Keeps P p, on_reg, on_set_reg, c_misc-Keeps, c_lui-Keeps) depth 16

  c_jump-Keeps : (i : CInstruction) (pc n : ℕ) → Keeps P (c_jump i pc n)
  unfolding c_jump
  c_jump-Keeps i pc n = search (blocks, error-Keeps P p, on_reg, on_set_reg) depth 12

  quadrant2-Keeps : (i : CInstruction) (pc n : ℕ) → Keeps P (quadrant2 i pc n)
  unfolding quadrant2
  quadrant2-Keeps i pc n =
      search
        (
          blocks,
          error-Keeps P p,
          on_reg,
          on_set_reg,
          shamt-Keeps,
          c_jump-Keeps,
          read-Keeps P p,
          write-Keeps P p,
        )
        depth 16

  dispatch-Keeps : (i : CInstruction) (pc n : ℕ) → Keeps P (dispatch i pc n)
  unfolding dispatch
  dispatch-Keeps i pc n =
      search (blocks, error-Keeps P p, quadrant0-Keeps, quadrant1-Keeps, quadrant2-Keeps) depth 8

  pub execute-Keeps : (i : CInstruction) → Keeps P (execute i)
  unfolding execute
  execute-Keeps i = record {
    keeps = λ h x. (dispatch-Keeps i h.cpu.pc (add64 h.cpu.pc 2)).keeps h x;
  }
