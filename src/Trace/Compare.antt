-- ===== src/Trace/Compare.antt =====
-- The comparison of traces (src/z80_python/trace.py). The accesses of two records are compared when
-- both have them, as the code and docs/trace-schema.md say; docs/trace-comparison.md leaves them out
-- of what the comparison covers.
pub mod Equal
pub mod Alike
pub mod Aligned
use Prim.Native.String.{String}
use Prim.Native.String
use package.text.Mathlib.Text
use z80_python.Base.{
  ◌%◌, ◌&&◌, ◌++◌, ◌+◌, ◌/◌, ◌==◌, ◌∷◌, Bool, List, Option, [], false, if◌then◌else◌, map, none,
  not, some, true, ℕ,
}
use z80_python.Debug.{Access, instruction}
use z80_python.Debug.Points.{StepRecord}
use z80_python.Debug.Running.{halted}
use z80_python.Debug.Tracked.{accesses}
use z80_python.Disasm.{Instruction, two_digits}
use z80_python.State.{CpuState}
use z80_python.Trace.{hex}
use z80_python.Trace.Encode.{access_text, boundary_text}

-- `TraceValue`; `none_value` is `None`.
pub data TraceValue : Type 0 where
  none_value : TraceValue
  int_value : ℕ → TraceValue
  bool_value : Bool → TraceValue
  str_value : String → TraceValue
  tuple_value : List String → TraceValue

pub record TraceDifference : Type 0 where
  pub path : String
  pub left : TraceValue
  pub right : TraceValue

pub record TraceDivergence : Type 0 where
  pub position : ℕ
  pub left : Option StepRecord
  pub right : Option StepRecord
  pub differences : List TraceDifference

abbrev pub same_flag : Bool → Bool → Bool
same_flag true b = b
same_flag false b = not b

abbrev pub same_tuples : List String → List String → Bool
same_tuples [] [] = true
same_tuples (t ∷ ts) (u ∷ us) = Text.◌==◌ t u && same_tuples ts us
same_tuples ts us = false

abbrev pub same_value : TraceValue → TraceValue → Bool
same_value none_value none_value = true
same_value (int_value n) (int_value m) = n == m
same_value (bool_value a) (bool_value b) = same_flag a b
same_value (str_value t) (str_value u) = Text.◌==◌ t u
same_value (tuple_value ts) (tuple_value us) = same_tuples ts us
same_value v w = false

-- `_append`, as the differences that it adds in front of later ones.
abbrev pub compared : String → TraceValue → TraceValue → List TraceDifference
compared path left right =
    if same_value left right then [] else record { path = path; left = left; right = right } ∷ []

abbrev pub vector_seen : Option ℕ → TraceValue
vector_seen none = none_value
vector_seen (some v) = int_value v

-- The fields of a state, by name.
unfoldable pub state_values : CpuState → List (String × TraceValue)
state_values t =
    ("a", int_value t.a)
    ∷ ("f", int_value t.f)
    ∷ ("b", int_value t.b)
    ∷ ("c", int_value t.c)
    ∷ ("d", int_value t.d)
    ∷ ("e", int_value t.e)
    ∷ ("h", int_value t.h)
    ∷ ("l", int_value t.l)
    ∷ ("ix", int_value t.ix)
    ∷ ("iy", int_value t.iy)
    ∷ ("sp", int_value t.sp)
    ∷ ("pc", int_value t.pc)
    ∷ ("wz", int_value t.wz)
    ∷ ("i", int_value t.i)
    ∷ ("r", int_value t.r)
    ∷ ("iff1", bool_value t.iff1)
    ∷ ("iff2", bool_value t.iff2)
    ∷ ("im", int_value t.im)
    ∷ ("af_alt", int_value t.af_alt)
    ∷ ("bc_alt", int_value t.bc_alt)
    ∷ ("de_alt", int_value t.de_alt)
    ∷ ("hl_alt", int_value t.hl_alt)
    ∷ ("q", int_value t.q)
    ∷ ("halted", bool_value t.halted)
    ∷ ("ei_delay", int_value t.ei_delay)
    ∷ ("reset_pending", bool_value t.reset_pending)
    ∷ ("maskable_interrupt_vector", vector_seen t.maskable_interrupt_vector)
    ∷ ("non_maskable_interrupt_pending", bool_value t.non_maskable_interrupt_pending)
    ∷ []

abbrev pub same_values : List (String × TraceValue) → List (String × TraceValue) → Bool
same_values [] [] = true
same_values ((name, v) ∷ vs) ((other_name, w) ∷ ws) = same_value v w && same_values vs ws
same_values vs ws = false

abbrev pub compare_fields :
    String → List (String × TraceValue) → List (String × TraceValue) → List TraceDifference
compare_fields prefix ((name, v) ∷ vs) ((other_name, w) ∷ ws) =
    compared (String.◌++◌ prefix (String.◌++◌ "." name)) v w ++ compare_fields prefix vs ws
compare_fields prefix vs ws = []

-- `_compare_state`.
unfoldable pub compare_state : String → CpuState → CpuState → List TraceDifference
compare_state prefix left right =
    if same_values (state_values left) (state_values right)
    then []
    else compare_fields prefix (state_values left) (state_values right)

abbrev presence : Option Instruction → TraceValue
presence none = none_value
presence (some i) = str_value "present"

-- `_compare_instruction`.
unfoldable pub compare_instruction : Option Instruction → Option Instruction → List TraceDifference
compare_instruction (some left) (some right) =
    compared "instruction.address" (int_value left.address) (int_value right.address)
    ++ (compared "instruction.data" (str_value (hex left.bytes)) (str_value (hex right.bytes))
        ++ (compared "instruction.mnemonic" (str_value left.mnemonic) (str_value right.mnemonic)
            ++ compared "instruction.operands" (tuple_value left.operands)
                (tuple_value right.operands)))
compare_instruction left right = compared "instruction" (presence left) (presence right)

-- `_access_texts`; an access of a record has a 16-bit address and a byte.
unfoldable pub access_line : Access → String
access_line x = String.◌++◌ (access_text x.kind) (
    String.◌++◌ " " (
      String.◌++◌ (two_digits (x.address / 256))
        (String.◌++◌ (two_digits (x.address % 256)) (String.◌++◌ "=" (two_digits x.value)))))

unfoldable pub compare_accesses : Option (List Access) → Option (List Access) → List TraceDifference
compare_accesses (some left) (some right) =
    compared "accesses" (tuple_value (map access_line left)) (tuple_value (map access_line right))
compare_accesses left right = []

unfoldable pub compare_step_records : StepRecord → StepRecord → List TraceDifference
compare_step_records left right =
    compared "kind" (str_value (boundary_text left.kind)) (str_value (boundary_text right.kind))
    ++ (compare_instruction left.shown right.shown
        ++ (compared "t_states" (int_value left.t_states) (int_value right.t_states)
            ++ (compare_state "before" left.before right.before
                ++ (compare_state "after" left.after right.after
                    ++ compare_accesses left.accesses right.accesses))))

-- A trace that ends before the other.
abbrev pub one_sided : ℕ → Option StepRecord → Option StepRecord → TraceDivergence
one_sided position left right = record {
  position = position;
  left = left;
  right = right;
  differences = record { path = "record"; left = shown left; right = shown right } ∷ [];
}
  where
    shown : Option StepRecord → TraceValue
    shown none = none_value
    shown (some r) = str_value "present"

-- `iter_trace_divergences` from a position on, and its first one.
abbrev pub divergence : ℕ → StepRecord → StepRecord → List TraceDivergence → List TraceDivergence
divergence position left right rest = elim (compare_step_records left right) [
  | [] ↦ rest
  | d ∷ ds ↦
      record { position = position; left = some left; right = some right; differences = d ∷ ds }
      ∷ rest
]

unfoldable pub divergences_from : ℕ → List StepRecord → List StepRecord → List TraceDivergence
divergences_from position [] [] = []
divergences_from position [] (r ∷ right) =
    one_sided position none (some r) ∷ divergences_from (position + 1) [] right
divergences_from position (l ∷ left) [] =
    one_sided position (some l) none ∷ divergences_from (position + 1) left []
divergences_from position (l ∷ left) (r ∷ right) =
    divergence position l r (divergences_from (position + 1) left right)

unfoldable pub iter_trace_divergences : List StepRecord → List StepRecord → List TraceDivergence
unfolding divergences_from
iter_trace_divergences left right = divergences_from 0 left right

unfoldable pub first_trace_divergence : List StepRecord → List StepRecord → Option TraceDivergence
unfolding iter_trace_divergences
first_trace_divergence left right = elim (iter_trace_divergences left right) [
  | [] ↦ none
  | d ∷ ds ↦ some d
]
