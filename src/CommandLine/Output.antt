-- ===== src/CommandLine/Output.antt =====
-- What rv64rs/src/main.rs prints of a hart, and the writer that keeps what it passes on.
use Prim.Native.String.{String}
use riscvm.Base.{ℕ, ◌+◌, List, [], ◌∷◌, ◌++◌, length, Bool, if◌then◌else◌, Option, none, some}
use riscvm.Cpu.State.{Cpu, read_reg}

-- `REG_NAMES`
abbrev pub reg_names : List String
reg_names =
    "zero" ∷ "ra" ∷ "sp" ∷ "gp" ∷ "tp" ∷ "t0" ∷ "t1" ∷ "t2" ∷ "s0" ∷ "s1" ∷ "a0" ∷ "a1" ∷ "a2"
    ∷ "a3" ∷ "a4" ∷ "a5" ∷ "a6" ∷ "a7" ∷ "s2" ∷ "s3" ∷ "s4" ∷ "s5" ∷ "s6" ∷ "s7" ∷ "s8" ∷ "s9"
    ∷ "s10" ∷ "s11" ∷ "t3" ∷ "t4" ∷ "t5" ∷ "t6" ∷ []

-- A printed line, with its numbers.
pub data Line : Type 0 where
  register : (name : String) (index value : ℕ) → Line
  counter : (value : ℕ) → Line
  hart : (hartid : ℕ) → Line

-- The lines of the registers from `index` on.
unfoldable pub register_lines : Cpu → ℕ → List String → List Line
unfolding read_reg
register_lines cpu index [] = []
register_lines cpu index (name ∷ names) =
    register name index (read_reg cpu.regs index) ∷ register_lines cpu (index + 1) names

abbrev pub after_first : List String → List String
after_first [] = []
after_first (name ∷ names) = names

-- `skip(1)`: x0 is left out.
unfoldable pub dump_registers : Cpu → List Line
unfolding register_lines
dump_registers cpu = register_lines cpu 1 (after_first reg_names) ++ (counter cpu.pc ∷ [])

-- The lines that `run_xv6_boot` ends with after an error.
unfoldable pub dump_harts : List Cpu → List Line
unfolding dump_registers
dump_harts [] = []
dump_harts (cpu ∷ cpus) = hart cpu.hartid ∷ (dump_registers cpu ++ dump_harts cpus)

-- `Tee::write`, where `passed` says whether standard output took the bytes: `none` is the error.
unfoldable pub tee_write : Bool → List ℕ → List ℕ → Option ℕ × List ℕ
tee_write passed buf output = if passed then (some (length buf), output ++ buf) else (none, output)
