-- ===== src/Trace/Record.antt =====
-- `step_record_from_dict` (src/z80_python/trace.py).
use Prim.Native.String.{String}
use package.text.Mathlib.Text
use z80_python.Base.{◌==◌, ◌∷◌, List, Option, [], if◌then◌else◌, ltb, none, some, ℕ}
use z80_python.Debug.{
  Access, AccessKind, BoundaryKind, halt_idle, input, maskable_interrupt, non_maskable_interrupt,
  output, read, reset, write,
}
use z80_python.Debug.Points.{StepRecord, valid_record}
use z80_python.Debug.Tracked.{accesses}
use z80_python.Host.{Outcome, done, raised}
use z80_python.Prog.{value_error}
use z80_python.Trace.{Items, Json, Members, array, empty_array, item}
use z80_python.Trace.Decode.{
  ◌>>=◌, as_number, as_text, field, has_key, instruction_from_dict, keys_match, number_at, require,
  require_object, state_from_dict,
}

abbrev kind_named : String → List (String × AccessKind) → Outcome AccessKind
kind_named t [] = raised value_error
kind_named t ((name, kind) ∷ kinds) = if Text.◌==◌ name t then done kind else kind_named t kinds

-- A kind that is none of these is refused with the record.
unfoldable pub as_access_kind : Json → Outcome AccessKind
as_access_kind value = as_text value >>= λ t.
    kind_named t (("r", read) ∷ ("w", write) ∷ ("in", input) ∷ ("out", output) ∷ [])

unfoldable pub as_access : Json → Outcome Access
as_access (array (item k (item a (item v empty_array)))) = do
  kind ← as_access_kind k
  address ← as_number a
  value ← as_number v
  done (record { kind = kind; address = address; value = value })
as_access value = raised value_error

abbrev pub as_accesses : Items → Outcome (List Access)
as_accesses empty_array = done []
as_accesses (item v items) = do x ← as_access v; log ← as_accesses items; done (x ∷ log)

-- `_accesses_from_list`.
abbrev pub accesses_from_list : Json → Outcome (List Access)
accesses_from_list (array items) = as_accesses items
accesses_from_list value = raised value_error

abbrev boundary_named : String → List (String × BoundaryKind) → Outcome BoundaryKind
boundary_named t [] = raised value_error
boundary_named t ((name, kind) ∷ kinds) =
    if Text.◌==◌ name t then done kind else boundary_named t kinds

-- `BoundaryKind(kind_value)`.
unfoldable pub as_boundary : Json → Outcome BoundaryKind
as_boundary value = as_text value >>= λ t. boundary_named t (
    ("instruction", BoundaryKind.instruction)
    ∷ ("halt_idle", halt_idle)
    ∷ ("reset", reset)
    ∷ ("non_maskable_interrupt", non_maskable_interrupt)
    ∷ ("maskable_interrupt", maskable_interrupt)
    ∷ [])

abbrev pub record_keys : List String
record_keys = "version" ∷ "sequence" ∷ "kind" ∷ "t_states" ∷ "instruction" ∷ "before" ∷ "after" ∷ []

abbrev pub accesses_at : Members → Outcome (Option (List Access))
accesses_at members =
    if has_key members "accesses"
    then (do log ← field "accesses" members >>= accesses_from_list; done (some log))
    else done none

unfoldable pub make_record : ℕ → Members → Outcome StepRecord
make_record fuel members = do
  version ← number_at "version" members
  _ ← require (version == 1)
  sequence ← number_at "sequence" members
  t_states ← number_at "t_states" members
  _ ← require (ltb 0 t_states)
  kind ← field "kind" members >>= as_boundary
  before ← field "before" members >>= state_from_dict
  after ← field "after" members >>= state_from_dict
  shown ← field "instruction" members >>= instruction_from_dict fuel
  accesses ← accesses_at members
  let step_record : StepRecord = record {
    sequence = sequence;
    kind = kind;
    before = before;
    after = after;
    t_states = t_states;
    shown = shown;
    accesses = accesses;
  }
  _ ← require (valid_record step_record)
  done step_record

unfoldable pub step_record_from_dict : ℕ → Json → Outcome StepRecord
step_record_from_dict fuel value = do
  members ← require_object value
  _ ← require (
      keys_match (if has_key members "accesses" then "accesses" ∷ record_keys else record_keys)
        members)
  make_record fuel members
