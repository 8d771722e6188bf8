-- ===== src/Timing.antt =====
-- Where the accesses of an instruction fall (src/z80_python/timing.py).
pub mod Values
pub mod MainLow
pub mod MainHigh
pub mod CbLow
pub mod CbHigh
pub mod Ed
pub mod IndexLow
pub mod IndexHigh
pub mod IndexCbLow
pub mod IndexCbHigh
pub mod Lookup
pub mod Fits
pub mod Total
use z80_python.Base.{List, ℕ}
use z80_python.Debug.{AccessKind}

pub record AccessTiming : Type 0 where
  pub kind : AccessKind
  pub t : ℕ

pub record InstructionTiming : Type 0 where
  pub accesses : List AccessTiming
  pub shapes : List (ℕ × ℕ)

abbrev pub at : AccessKind → ℕ → AccessTiming
at kind t = record { kind = kind; t = t }

abbrev pub timed : List AccessTiming → List (ℕ × ℕ) → InstructionTiming
timed accesses shapes = record { accesses = accesses; shapes = shapes }
