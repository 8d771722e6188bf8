-- ===== src/Contract.antt =====
-- The contract between core and host: "the core always passes a 16-bit address and an 8-bit value"
-- (src/z80_python/cpu.py), and the registers keep their widths.
pub mod Numbers
pub mod Parts
pub mod Arithmetic
pub mod Bitwise
pub mod Transfer
pub mod Jumps
pub mod Repeats
pub mod Indexed
pub mod IndexedMemory
pub mod Calls
pub mod Pages
pub mod Execute
pub mod Step
pub mod Interrupt
use z80_python.Base.{◌<◌, ◌≤◌, Option, none, some, ℕ}
use z80_python.Cpu.{Cpu}
use z80_python.Prog.{
  Error, Prog, out_of_fuel, raise, read_byte, read_port, ret, write_byte, write_port,
}

-- Every access of the program is within its width; for every byte that the host may answer the
-- program goes on so; it ends in a result with `P`, raises only what `E` allows, and runs out of
-- fuel only if `F` allows it.
abbrev pub Safe : {A : Type 0} → Type 0 → (Error → Type 0) → (A → Type 0) → Prog A → Type 0
Safe F E P (ret a) = P a
Safe F E P (raise e) = E e
Safe F E P out_of_fuel = F
Safe F E P (read_byte a k) = (a < 65536) × ((v : ℕ) → v < 256 → Safe F E P (k v))
Safe F E P (write_byte a v p) = (a < 65536) × (v < 256) × Safe F E P p
Safe F E P (read_port a k) = (a < 65536) × ((v : ℕ) → v < 256 → Safe F E P (k v))
Safe F E P (write_port a v p) = (a < 65536) × (v < 256) × Safe F E P p

-- Safe, with no exception and enough fuel.
abbrev pub Total : {A : Type 0} → (A → Type 0) → Prog A → Type 0
Total P p = Safe ⊥ (λ e. ⊥) P p

-- A pending vector, or 0.
abbrev pub vector_value : Option ℕ → ℕ
vector_value none = 0
vector_value (some v) = v

-- The registers within their widths, as `CPUState` demands of a captured state.
pub record IsWf (s : Cpu) : Type 0 where
  pub a-lt : s.a < 256
  pub f-lt : s.f < 256
  pub b-lt : s.b < 256
  pub c-lt : s.c < 256
  pub d-lt : s.d < 256
  pub e-lt : s.e < 256
  pub h-lt : s.h < 256
  pub l-lt : s.l < 256
  pub ix-lt : s.ix < 65536
  pub iy-lt : s.iy < 65536
  pub sp-lt : s.sp < 65536
  pub pc-lt : s.pc < 65536
  pub wz-lt : s.wz < 65536
  pub i-lt : s.i < 256
  pub r-lt : s.r < 256
  pub im-lt : s.im < 3
  pub af_alt-lt : s.af_alt < 65536
  pub bc_alt-lt : s.bc_alt < 65536
  pub de_alt-lt : s.de_alt < 65536
  pub hl_alt-lt : s.hl_alt < 65536
  pub q-lt : s.q < 256
  pub io_data-lt : s.io_data < 256
  pub ei_delay-lt : s.ei_delay < 2
  pub vector-lt : vector_value s.pending_maskable_interrupt < 256

-- A handler's result: a positive count of T-states, at most 23, and registers within their widths.
abbrev pub Stepped : ℕ × Cpu → Type 0
Stepped r = (0 < r.0) × (r.0 ≤ 23) × IsWf r.1
