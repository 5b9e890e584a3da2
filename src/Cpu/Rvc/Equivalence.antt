-- ===== src/Cpu/Rvc/Equivalence.antt =====
-- The decoding of rv64rs/src/rvc.rs against the expansions, quadrant by quadrant.
use riscvm.Base.{◌>>=◌}
use riscvm.Cpu.Execute as Execute
use riscvm.Cpu.Rvc.Agree.{none-Agrees, if-Agrees}
use riscvm.Cpu.Rvc.Agree.{imm-Agrees}

ruleset shapes = (if-Agrees, none-Agrees, imm-Agrees)
