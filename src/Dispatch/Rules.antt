-- ===== src/Dispatch/Rules.antt =====
-- The words in which the tables write their rules (src/z80_python/_dispatch.py,
-- src/z80_python/_index_dispatch.py).
pub mod Main
pub mod Ed
pub mod Index
use z80_python.Base.{
  ◌&&◌, ◌+◌, ◌-◌, ◌/◌, ◌>>>◌, ◌∷◌, Bool, List, [], if◌then◌else◌, suc, true, u3, zero, ℕ,
}
use z80_python.Dispatch.Method.{Method}
use z80_python.Dispatch.Page.{Argument, Rule, contains}

abbrev pub rule : {C : Type 0} → List ℕ → Method → Argument → C → Rule C
rule opcodes method argument columns = record {
  opcodes = opcodes;
  method = method;
  argument = argument;
  columns = columns;
}

-- `count` numbers from `first` in steps of `by`.
abbrev steps : ℕ → ℕ → ℕ → List ℕ
steps zero first by = []
steps (suc count) first by = first ∷ steps count (first + by) by

-- `range(first, stop)` and `range(first, stop, 8)`.
abbrev pub range : ℕ → ℕ → List ℕ
range first stop = steps (stop - first) first 1

abbrev pub range8 : ℕ → ℕ → List ℕ
range8 first stop = steps ((stop - first + 7) / 8) first 8

abbrev pub every8 : ℕ → List ℕ
every8 first = range8 first (first + 0x40)

-- `[op for op in opcodes if test(op)]`.
abbrev pub keep : (ℕ → Bool) → List ℕ → List ℕ
keep test [] = []
keep test (op ∷ ops) = if test op then op ∷ keep test ops else keep test ops

-- `_PLAIN`: the registers that a prefix leaves alone.
abbrev plain_registers : List ℕ
plain_registers = 0 ∷ 1 ∷ 2 ∷ 3 ∷ 7 ∷ []

abbrev all_plain : List ℕ → ℕ → Bool
all_plain [] op = true
all_plain (shift ∷ shifts) op = contains (u3 (op >>> shift)) plain_registers && all_plain shifts op

abbrev pub plain_opcodes : List ℕ → List ℕ → List ℕ
plain_opcodes register_fields opcodes = keep (all_plain register_fields) opcodes
