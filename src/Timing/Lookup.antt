-- ===== src/Timing/Lookup.antt =====
-- `instruction_timing` (src/z80_python/timing.py).
use z80_python.Base.{
  ◌+◌, ◌-◌, ◌==◌, ◌||◌, ◌∷◌, List, Option, [], get_elem?, if◌then◌else◌, lookup, ltb, none, some,
  suc, ℕ,
}
use z80_python.Debug.{read}
use z80_python.Debug.Tracked.{accesses}
use z80_python.Dispatch.Execute.{is_prefix}
use z80_python.Timing.{AccessTiming, InstructionTiming, at, timed}
use z80_python.Timing.CbHigh.{cb_high}
use z80_python.Timing.CbLow.{cb_low}
use z80_python.Timing.Ed.{ed_entries}
use z80_python.Timing.IndexCbHigh.{index_cb_high}
use z80_python.Timing.IndexCbLow.{index_cb_low}
use z80_python.Timing.IndexHigh.{index_high}
use z80_python.Timing.IndexLow.{index_low}
use z80_python.Timing.MainHigh.{main_high}
use z80_python.Timing.MainLow.{main_low}

-- `TABLE[key]`; `none` is its `KeyError`, and the `IndexError` of data that end too early.
abbrev entry :
    List (Option InstructionTiming) → List (Option InstructionTiming) → ℕ → Option InstructionTiming
entry low high op = elim (if ltb op 0x80 then get_elem? low op else get_elem? high (op - 0x80)) [
  | none ↦ none
  | some found ↦ found
]

unfoldable pub main_entry : ℕ → Option InstructionTiming
main_entry op = entry main_low main_high op

unfoldable pub cb_entry : ℕ → Option InstructionTiming
cb_entry op = entry cb_low cb_high op

-- `_ED_NOP` stands for an opcode that is not in the table.
unfoldable pub ed_nop : InstructionTiming
ed_nop = timed (at read 1 ∷ at read 5 ∷ []) ((8, 2) ∷ [])

unfoldable pub ed_entry : ℕ → InstructionTiming
ed_entry op = elim (lookup {V = InstructionTiming} op ed_entries) [
  | none ↦ ed_nop
  | some found ↦ found
]

-- The entries of FD are those of DD.
unfoldable pub index_entry : ℕ → Option InstructionTiming
index_entry op = entry index_low index_high op

unfoldable pub index_cb_entry : ℕ → Option InstructionTiming
index_cb_entry op = entry index_cb_low index_cb_high op

-- What a stray prefix does to the timing of the instruction after it.
abbrev pub delayed : List AccessTiming → List AccessTiming
delayed [] = []
delayed (a ∷ accesses) = at a.kind (a.t + 4) ∷ delayed accesses

abbrev pub longer : List (ℕ × ℕ) → List (ℕ × ℕ)
longer [] = []
longer ((t_states, made) ∷ shapes) = (t_states + 4, suc made) ∷ longer shapes

abbrev pub behind_prefix : Option InstructionTiming → Option InstructionTiming
behind_prefix none = none
behind_prefix (some timing) =
    some (timed (at read 1 ∷ delayed timing.accesses) (longer timing.shapes))

abbrev pub index_cb_at : Option ℕ → Option InstructionTiming
index_cb_at none = none
index_cb_at (some op) = index_cb_entry op

unfoldable pub instruction_timing : List ℕ → Option InstructionTiming
instruction_timing [] = none
instruction_timing (first ∷ []) =
    if first == 0xCB || (first == 0xED || is_prefix first) then none else main_entry first
instruction_timing (first ∷ (second ∷ more)) =
    let rest = instruction_timing (second ∷ more) in
    if first == 0xCB
    then cb_entry second
    else if first == 0xED
    then some (ed_entry second)
    else if is_prefix first
    then if is_prefix second || second == 0xED
      then behind_prefix rest
      else if second == 0xCB
      then index_cb_at (get_elem? more 1)
      else index_entry second
    else main_entry first
