-- ===== src/Debug/Points.antt =====
-- Records, breakpoints and watchpoints of a debug session (src/z80_python/debug.py).
pub mod Laws
use z80_python.Base.{
  ◌&&◌, ◌==◌, ◌||◌, ◌∷◌, Bool, List, Option, [], false, if◌then◌else◌, leb, lookup, ltb, none, not,
  some, true, ℕ,
}
use z80_python.Debug.{Access, AccessKind, BoundaryKind, input, instruction, output, read, write}
use z80_python.Disasm.{Instruction}
use z80_python.Dispatch.Page.{contains}
use z80_python.Prog.{Result, err, ok, value_error}
use z80_python.State.{CpuState}
use z80_python.Step.{is_some}

-- `StepRecord`; `instruction` is `shown` here, and `accesses` is `none` without tracking.
pub record StepRecord : Type 0 where
  pub sequence : ℕ
  pub kind : BoundaryKind
  pub before : CpuState
  pub after : CpuState
  pub t_states : ℕ
  pub shown : Option Instruction
  pub accesses : Option (List Access)

-- `_valid_access`: the ranges; a kind of another name cannot be written here.
abbrev pub valid_access : Access → Bool
valid_access x = leb x.address 0xFFFF && leb x.value 0xFF

abbrev pub valid_accesses : List Access → Bool
valid_accesses [] = true
valid_accesses (x ∷ log) = valid_access x && valid_accesses log

-- `kind is BoundaryKind.INSTRUCTION`.
abbrev pub starts_instruction : BoundaryKind → Bool
starts_instruction BoundaryKind.instruction = true
starts_instruction kind = false

abbrev pub accesses_fit : Option (List Access) → Bool
accesses_fit none = true
accesses_fit (some log) = valid_accesses log

-- `StepRecord.__post_init__`: `false` is its `ValueError`.
unfoldable pub valid_record : StepRecord → Bool
valid_record step_record =
    ltb 0 step_record.t_states
    && ((starts_instruction step_record.kind || not (is_some step_record.shown))
        && accesses_fit step_record.accesses)

-- "r", "w" and "rw".
pub data WatchKind : Type 0 where
  reads writes both : WatchKind

-- `access[0] in ("r", "w")` and `access[0] in kind`.
unfoldable pub watches : WatchKind → AccessKind → Bool
watches reads read = true
watches reads write = false
watches writes read = false
watches writes write = true
watches both read = true
watches both write = true
watches kind input = false
watches kind output = false

-- What the session keeps; `tracking` says whether the bus is wrapped.
pub record Session : Type 0 where
  pub history_limit : ℕ
  pub breakpoints : List ℕ
  pub watchpoints : List (ℕ × WatchKind)
  pub total_steps : ℕ
  pub total_instructions : ℕ
  pub total_t_states : ℕ
  pub history : List StepRecord
  pub tracking : Bool

-- `DebugSession.__init__`.
unfoldable pub new_session : ℕ → Bool → Session
new_session history_limit track_accesses = record {
  history_limit = history_limit;
  breakpoints = [];
  watchpoints = [];
  total_steps = 0;
  total_instructions = 0;
  total_t_states = 0;
  history = [];
  tracking = track_accesses;
}

-- `close`: the bus has its own callables again.
unfoldable pub close : Session → Session
close session = record session { tracking = false }

-- `set.discard` and `dict.pop(address, None)`.
abbrev pub discard : ℕ → List ℕ → List ℕ
discard x [] = []
discard x (y ∷ ys) = if x == y then discard x ys else y ∷ discard x ys

abbrev pub removed : ℕ → List (ℕ × WatchKind) → List (ℕ × WatchKind)
removed x [] = []
removed x ((y, kind) ∷ points) = if x == y then removed x points else (y, kind) ∷ removed x points

-- The four operations that begin with `_validate_address`.
unfoldable pub add_breakpoint : ℕ → Session → Result Session
add_breakpoint address session =
    if leb address 0xFFFF
    then ok (record session {
      breakpoints =
          if contains address session.breakpoints
          then session.breakpoints
          else address ∷ session.breakpoints;
    })
    else err value_error

unfoldable pub remove_breakpoint : ℕ → Session → Result Session
remove_breakpoint address session =
    if leb address 0xFFFF
    then ok (record session { breakpoints = discard address session.breakpoints })
    else err value_error

unfoldable pub add_watchpoint : ℕ → WatchKind → Session → Result Session
add_watchpoint address kind session =
    if not session.tracking
    then err value_error
    else if leb address 0xFFFF
    then ok (record session { watchpoints = (address, kind) ∷ removed address session.watchpoints })
    else err value_error

unfoldable pub remove_watchpoint : ℕ → Session → Result Session
remove_watchpoint address session =
    if leb address 0xFFFF
    then ok (record session { watchpoints = removed address session.watchpoints })
    else err value_error

unfoldable pub clear_history : Session → Session
clear_history session = record session { history = [] }

-- `iter_history`.
abbrev pub backwards : List StepRecord → List StepRecord → List StepRecord
backwards [] ys = ys
backwards (x ∷ xs) ys = backwards xs (x ∷ ys)

unfoldable pub iter_history : Bool → Session → List StepRecord
iter_history newest_first session =
    if newest_first then backwards session.history [] else session.history

-- `_watch_hits`.
abbrev pub is_hit : List (ℕ × WatchKind) → Access → Bool
is_hit points x = elim (lookup {V = WatchKind} x.address points) [
  | none ↦ false
  | some kind ↦ watches kind x.kind
]

abbrev pub hits : List (ℕ × WatchKind) → List Access → List Access
hits points [] = []
hits points (x ∷ log) = if is_hit points x then x ∷ hits points log else hits points log

unfoldable pub watch_hits : Session → StepRecord → List Access
watch_hits session step_record = elim step_record.accesses [
  | none ↦ []
  | some log ↦ hits session.watchpoints log
]
