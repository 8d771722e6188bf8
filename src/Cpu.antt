-- ===== src/Cpu.antt =====
-- The processor state of `CoreMixin.__init__` (src/z80_python/_core.py).
use z80_python.Base.{ℕ, Bool, false, Option, none}

-- The fields of a CPU object. `f` is the byte `_f`; the shadow pairs `af_`, `bc_`, `de_`, `hl_`
-- have the names of `CPUState`; a leading underscore is dropped.
pub record Cpu : Type 0 where
  pub a : ℕ
  pub f : ℕ
  pub b : ℕ
  pub c : ℕ
  pub d : ℕ
  pub e : ℕ
  pub h : ℕ
  pub l : ℕ
  pub ix : ℕ
  pub iy : ℕ
  pub sp : ℕ
  pub pc : ℕ
  pub wz : ℕ
  pub i : ℕ
  pub r : ℕ
  pub iff1 : Bool
  pub iff2 : Bool
  pub im : ℕ
  pub af_alt : ℕ
  pub bc_alt : ℕ
  pub de_alt : ℕ
  pub hl_alt : ℕ
  pub q : ℕ
  pub io_data : ℕ
  pub halted : Bool
  pub ei_delay : ℕ
  pub ei_nmi_iff2_erratum : Bool
  pub cmos_out_c_zero : Bool
  pub reset_pending : Bool
  pub pending_maskable_interrupt : Option ℕ
  pub non_maskable_interrupt_pending : Bool

unfoldable pub new : Cpu
new = record {
  a = 0;
  f = 0;
  b = 0;
  c = 0;
  d = 0;
  e = 0;
  h = 0;
  l = 0;
  ix = 0;
  iy = 0;
  sp = 0;
  pc = 0;
  wz = 0;
  i = 0;
  r = 0;
  iff1 = false;
  iff2 = false;
  im = 0;
  af_alt = 0;
  bc_alt = 0;
  de_alt = 0;
  hl_alt = 0;
  q = 0;
  io_data = 0;
  halted = false;
  ei_delay = 0;
  ei_nmi_iff2_erratum = false;
  cmos_out_c_zero = false;
  reset_pending = false;
  pending_maskable_interrupt = none;
  non_maskable_interrupt_pending = false;
}
