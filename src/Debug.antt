-- ===== src/Debug.antt =====
-- The debugger's view of a core (src/z80_python/debug.py): the boundary that the next step comes
-- to, and the bus that records its accesses.
pub mod Boundary
pub mod Tracked
pub mod Points
pub mod Stepping
pub mod Running
use z80_python.Base.{◌&&◌, ◌==◌, ◌∷◌, List, [], if◌then◌else◌, ℕ}
use z80_python.Host.{Bus}
use z80_python.State.{CpuState}
use z80_python.Step.{is_some}

pub data BoundaryKind : Type 0 where
  reset : BoundaryKind
  non_maskable_interrupt : BoundaryKind
  maskable_interrupt : BoundaryKind
  halt_idle : BoundaryKind
  instruction : BoundaryKind

unfoldable pub next_boundary : CpuState → BoundaryKind
next_boundary t =
    if t.reset_pending
    then reset
    else if t.non_maskable_interrupt_pending
    then non_maskable_interrupt
    else if is_some t.maskable_interrupt_vector && (t.iff1 && t.ei_delay == 0)
    then maskable_interrupt
    else if t.halted
    then halt_idle
    else instruction

-- `Access`: what was done ("r", "w", "in" or "out" in the source), where, and the byte.
pub data AccessKind : Type 0 where
  read write input output : AccessKind

pub record Access : Type 0 where
  pub kind : AccessKind
  pub address : ℕ
  pub value : ℕ

-- `log.append`.
abbrev pub append : List Access → Access → List Access
append [] x = x ∷ []
append (y ∷ log) x = y ∷ append log x

-- `_wrap_bus`: a read is logged after it, a write before it.
unfoldable pub wrap_bus : {State : Type 0} → Bus State → Bus (State × List Access)
wrap_bus bus = record {
  on_read_byte = λ address m.
      let answer = bus.on_read_byte address m.0 in
      (
        answer.0,
        (answer.1, append m.1 (record { kind = read; address = address; value = answer.0 })),
      );
  on_write_byte = λ address value m. (
    bus.on_write_byte address value m.0,
    append m.1 (record { kind = write; address = address; value = value }),
  );
  on_read_port = λ port m.
      let answer = bus.on_read_port port m.0 in
      (
        answer.0,
        (answer.1, append m.1 (record { kind = input; address = port; value = answer.0 })),
      );
  on_write_port = λ port value m. (
    bus.on_write_port port value m.0,
    append m.1 (record { kind = output; address = port; value = value }),
  );
}
