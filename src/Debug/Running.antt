-- ===== src/Debug/Running.antt =====
-- `DebugSession.run` (src/z80_python/debug.py).
pub mod Tally
pub mod Reasons
pub mod Ends
use z80_python.Base.{
  ◌&&◌, ◌+◌, ◌∷◌, ◌⊎◌, Bool, List, Option, [], false, if◌then◌else◌, inl, inr, leb, ltb, none, not,
  some, suc, true, zero, ℕ,
}
use z80_python.Debug.{Access, BoundaryKind, halt_idle, next_boundary}
use z80_python.Debug.Points.{Session, StepRecord, starts_instruction, valid_accesses, watch_hits}
use z80_python.Debug.Stepping.{◌>>=◌, Action, DebugTarget, capture, give, session_step, throw}
use z80_python.Disasm.Entry.{Reader}
use z80_python.Dispatch.Page.{contains}
use z80_python.Host.{done, raised}
use z80_python.Prog.{value_error}
use z80_python.State.{CpuState}

pub data StopReason : Type 0 where
  breakpoint watchpoint halted step_limit t_state_limit : StopReason

pub record RunResult : Type 0 where
  pub reason : StopReason
  pub steps : ℕ
  pub instructions : ℕ
  pub t_states : ℕ
  pub state : CpuState
  pub last_record : Option StepRecord
  pub hits : List Access

-- The counts of a run in progress.
pub record Counts : Type 0 where
  pub steps : ℕ
  pub instructions : ℕ
  pub t_states : ℕ
  pub last_record : Option StepRecord

abbrev pub stopped : StopReason → Counts → CpuState → List Access → RunResult
stopped reason counts state hits = record {
  reason = reason;
  steps = counts.steps;
  instructions = counts.instructions;
  t_states = counts.t_states;
  state = state;
  last_record = counts.last_record;
  hits = hits;
}

abbrev pub no_counts : Counts
no_counts = record { steps = 0; instructions = 0; t_states = 0; last_record = none }

abbrev pub counted : StepRecord → Counts → Counts
counted step_record counts = record {
  steps = counts.steps + 1;
  instructions =
      if starts_instruction step_record.kind then counts.instructions + 1 else counts.instructions;
  t_states = counts.t_states + step_record.t_states;
  last_record = some step_record;
}

abbrev pub is_halt_idle : BoundaryKind → Bool
is_halt_idle BoundaryKind.halt_idle = true
is_halt_idle kind = false

-- `max_t_states is not None and t_states >= max_t_states`.
abbrev pub reached : Option ℕ → ℕ → Bool
reached none t_states = false
reached (some limit) t_states = leb limit t_states

-- What stops a run before its next step, and after one.
unfoldable pub stop_before : Bool → Session → Counts → CpuState → Option RunResult
stop_before stop_on_halt session counts state =
    let kind = next_boundary state in
    if starts_instruction kind && contains state.pc session.breakpoints
    then some (stopped breakpoint counts state [])
    else if stop_on_halt && is_halt_idle kind
    then some (stopped halted counts state [])
    else none

unfoldable pub stop_after : Option ℕ → Session → Counts → StepRecord → Option RunResult
stop_after max_t_states session counts step_record = elim (watch_hits session step_record) [
  | x ∷ xs ↦ some (stopped watchpoint counts step_record.after (x ∷ xs))
  | [] ↦
      if reached max_t_states counts.t_states
      then some (stopped t_state_limit counts step_record.after [])
      else none
]

abbrev pub is_limit : Option ℕ → Bool
is_limit none = true
is_limit (some limit) = ltb 0 limit

-- `RunResult.__post_init__`: `false` is its `ValueError`.
unfoldable pub valid_result : RunResult → Bool
valid_result result = leb result.instructions result.steps && valid_accesses result.hits

unfoldable pub conclude : {S : Type 0} → RunResult → Action S RunResult
conclude result w = if valid_result result then (done result, w) else (raised value_error, w)

-- A stop, if there is one, or else what comes next.
unfoldable pub settle :
    {S : Type 0} → Option RunResult → Action S (RunResult ⊎ Counts) → Action S (RunResult ⊎ Counts)
settle none m w = m w
settle (some result) m w = (conclude result >>= λ r. give (inl r)) w

module _ {S : Type 0} (machine : DebugTarget S) (peek_byte : Option Reader) (fuel : ℕ) where
  -- After the last round.
  pub out_of_steps : Counts → Action S RunResult
  out_of_steps counts = elim counts.last_record [
    | some step_record ↦ conclude (stopped step_limit counts step_record.after [])
    | none ↦ do state ← capture machine; conclude (stopped step_limit counts state [])
  ]

  -- The step of a round, and what stops the run after it.
  pub judge : Option ℕ → Counts → StepRecord → Action S (RunResult ⊎ Counts)
  judge max_t_states counts step_record w =
      settle (stop_after max_t_states w.session (counted step_record counts) step_record)
        (give (inr (counted step_record counts))) w

  pub advance : Option ℕ → Counts → Action S (RunResult ⊎ Counts)
  unfolding judge
  advance max_t_states counts = session_step machine peek_byte fuel >>= judge max_t_states counts

  pub visit : Option ℕ → Bool → Counts → CpuState → Action S (RunResult ⊎ Counts)
  unfolding advance
  visit max_t_states stop_on_halt counts state w =
      settle (stop_before stop_on_halt w.session counts state) (advance max_t_states counts) w

  -- One round: a stop, or the counts after one more step.
  pub round : Option ℕ → Bool → Counts → Action S (RunResult ⊎ Counts)
  unfolding visit
  round max_t_states stop_on_halt counts =
      capture machine >>= visit max_t_states stop_on_halt counts

  -- The `while` loop, on the steps that are left.
  pub run_loop : ℕ → Option ℕ → Bool → Counts → Action S RunResult
  unfolding out_of_steps round
  run_loop zero max_t_states stop_on_halt counts = out_of_steps counts
  run_loop (suc left) max_t_states stop_on_halt counts =
      round max_t_states stop_on_halt counts >>= λ r. elim r [
        | inl result ↦ give result
        | inr counts ↦ run_loop left max_t_states stop_on_halt counts
      ]

  unfoldable pub session_run : ℕ → Option ℕ → Bool → Action S RunResult
  unfolding run_loop
  session_run max_steps max_t_states stop_on_halt =
      if not (ltb 0 max_steps)
      then throw value_error
      else if not (is_limit max_t_states)
      then throw value_error
      else run_loop max_steps max_t_states stop_on_halt no_counts
