-- ===== src/State.antt =====
-- `CPUState` (src/z80_python/state.py), `capture_state` and `restore_state`
-- (src/z80_python/cpu.py).
pub mod Laws
use z80_python.Base.{◌&&◌, ◌∷◌, Bool, List, Option, [], if◌then◌else◌, leb, none, some, true, ℕ}
use z80_python.Cpu.{Cpu}

pub record CpuState : Type 0 where
  pub a : ℕ
  pub f : ℕ
  pub b : ℕ
  pub c : ℕ
  pub d : ℕ
  pub e : ℕ
  pub h : ℕ
  pub l : ℕ
  pub ix : ℕ
  pub iy : ℕ
  pub sp : ℕ
  pub pc : ℕ
  pub wz : ℕ
  pub i : ℕ
  pub r : ℕ
  pub iff1 : Bool
  pub iff2 : Bool
  pub im : ℕ
  pub af_alt : ℕ
  pub bc_alt : ℕ
  pub de_alt : ℕ
  pub hl_alt : ℕ
  pub q : ℕ
  pub halted : Bool
  pub ei_delay : ℕ
  pub reset_pending : Bool
  pub maskable_interrupt_vector : Option ℕ
  pub non_maskable_interrupt_pending : Bool

-- Every number is at most `maximum`: `_require_int`.
abbrev pub all_at_most : ℕ → List ℕ → Bool
all_at_most maximum [] = true
all_at_most maximum (v ∷ vs) = leb v maximum && all_at_most maximum vs

abbrev pub vector_at_most : Option ℕ → ℕ → Bool
vector_at_most none maximum = true
vector_at_most (some v) maximum = leb v maximum

-- `__post_init__`: `false` is its `ValueError`. The types hold of a value of this type.
unfoldable pub is_valid : CpuState → Bool
is_valid t =
    all_at_most 0xFF (t.a ∷ t.f ∷ t.b ∷ t.c ∷ t.d ∷ t.e ∷ t.h ∷ t.l ∷ t.i ∷ t.r ∷ t.q ∷ [])
    && (all_at_most 0xFFFF
          (t.ix ∷ t.iy ∷ t.sp ∷ t.pc ∷ t.wz ∷ t.af_alt ∷ t.bc_alt ∷ t.de_alt ∷ t.hl_alt ∷ [])
        && (leb t.im 2 && (leb t.ei_delay 1 && vector_at_most t.maskable_interrupt_vector 0xFF)))

-- The fields that `capture_state` copies.
unfoldable pub snapshot : Cpu → CpuState
snapshot s = record {
  a = s.a;
  f = s.f;
  b = s.b;
  c = s.c;
  d = s.d;
  e = s.e;
  h = s.h;
  l = s.l;
  ix = s.ix;
  iy = s.iy;
  sp = s.sp;
  pc = s.pc;
  wz = s.wz;
  i = s.i;
  r = s.r;
  iff1 = s.iff1;
  iff2 = s.iff2;
  im = s.im;
  af_alt = s.af_alt;
  bc_alt = s.bc_alt;
  de_alt = s.de_alt;
  hl_alt = s.hl_alt;
  q = s.q;
  halted = s.halted;
  ei_delay = s.ei_delay;
  reset_pending = s.reset_pending;
  maskable_interrupt_vector = s.pending_maskable_interrupt;
  non_maskable_interrupt_pending = s.non_maskable_interrupt_pending;
}

-- `none` is the `ValueError` that the construction of the `CPUState` raises.
unfoldable pub capture_state : Cpu → Option CpuState
capture_state s = let t = snapshot s in if is_valid t then some t else none

unfoldable pub restore_state : CpuState → Cpu → Cpu
restore_state t s = record s {
  a = t.a;
  f = t.f;
  b = t.b;
  c = t.c;
  d = t.d;
  e = t.e;
  h = t.h;
  l = t.l;
  ix = t.ix;
  iy = t.iy;
  sp = t.sp;
  pc = t.pc;
  wz = t.wz;
  i = t.i;
  r = t.r;
  iff1 = t.iff1;
  iff2 = t.iff2;
  im = t.im;
  af_alt = t.af_alt;
  bc_alt = t.bc_alt;
  de_alt = t.de_alt;
  hl_alt = t.hl_alt;
  q = t.q;
  halted = t.halted;
  ei_delay = t.ei_delay;
  reset_pending = t.reset_pending;
  pending_maskable_interrupt = t.maskable_interrupt_vector;
  non_maskable_interrupt_pending = t.non_maskable_interrupt_pending;
}
