-- ===== src/Debug/Stepping.antt =====
-- `DebugSession.step` (src/z80_python/debug.py).
pub mod Core
pub mod History
pub mod Endings
pub mod Recorded
pub mod Refused
use z80_python.Base.{◌+◌, ◌==◌, ◌∷◌, List, Option, [], if◌then◌else◌, length, ltb, none, some, ℕ}
use z80_python.Debug.{Access, BoundaryKind, next_boundary}
use z80_python.Debug.Points.{Session, StepRecord, starts_instruction, valid_record}
use z80_python.Disasm.{Instruction}
use z80_python.Disasm.Entry.{Reader, disassemble}
use z80_python.Host.{Outcome, done, no_fuel, raised}
use z80_python.Prog.{Error, value_error}
use z80_python.State.{CpuState}

-- What a session asks of its target, `S` being what the target owns: `step`, `capture_state`, and
-- the log of the wrapped bus.
pub record DebugTarget (S : Type 0) : Type 0 where
  pub step : S → Outcome ℕ × S
  pub capture_state : S → Outcome CpuState
  pub accesses : S → List Access
  pub clear_accesses : S → S

-- A session with its target; an operation may raise, and keeps what it has changed before.
pub record World (S : Type 0) : Type 0 where
  pub session : Session
  pub target : S

abbrev pub Action : Type 0 → Type 0 → Type 0
Action S A = World S → Outcome A × World S

abbrev pub after_outcome :
    {S A B : Type 0} → Outcome A × World S → (A → Action S B) → Outcome B × World S
after_outcome (done a, w) f = f a w
after_outcome (raised e, w) f = (raised e, w)
after_outcome (no_fuel, w) f = (no_fuel, w)

infixl 5 ◌>>=◌
abbrev pub ◌>>=◌ : {S A B : Type 0} → Action S A → (A → Action S B) → Action S B
◌>>=◌ m f w = after_outcome (m w) f

abbrev pub give : {S A : Type 0} → A → Action S A
give a w = (done a, w)

abbrev pub throw : {S A : Type 0} → Error → Action S A
throw e w = (raised e, w)

-- The deque of `history_limit` records: the oldest one goes when it is full.
abbrev pub appended : {A : Type 0} → List A → A → List A
appended [] x = x ∷ []
appended (y ∷ ys) x = y ∷ appended ys x

abbrev pub tail : {A : Type 0} → List A → List A
tail [] = []
tail (y ∷ ys) = ys

unfoldable pub remember : ℕ → StepRecord → List StepRecord → List StepRecord
remember limit step_record history =
    if limit == 0
    then history
    else if ltb (length history) limit
    then appended history step_record
    else tail (appended history step_record)

-- The totals after a record.
unfoldable pub count_step : StepRecord → Session → Session
count_step step_record session = record session {
  total_steps = session.total_steps + 1;
  total_t_states = session.total_t_states + step_record.t_states;
  total_instructions =
      if starts_instruction step_record.kind
      then session.total_instructions + 1
      else session.total_instructions;
  history = remember session.history_limit step_record session.history;
}

-- The record, refused if it is not valid, and the totals.
pub keep_record : {S : Type 0} → StepRecord → Action S StepRecord
keep_record step_record w =
    if valid_record step_record
    then (done step_record, record w { session = count_step step_record w.session })
    else (raised value_error, w)

-- The instruction at PC, if one is next and a reader is there.
pub preview :
    {S : Type 0} → Option Reader → ℕ → BoundaryKind → CpuState → Action S (Option Instruction)
preview peek_byte fuel kind before w =
    if starts_instruction kind
    then elim peek_byte [
      | none ↦ (done none, w)
      | some reader ↦ elim (disassemble fuel reader before.pc) [
        | done i ↦ (done (some i), w)
        | raised e ↦ (raised e, w)
        | no_fuel ↦ (no_fuel, w)
      ]
    ]
    else (done none, w)

module _ {S : Type 0} (machine : DebugTarget S) where
  unfoldable pub capture : Action S CpuState
  capture w = (machine.capture_state w.target, w)

  pub clear_log : Action S (Unit {0})
  clear_log w = (
    done tt,
    if w.session.tracking then record w { target = machine.clear_accesses w.target } else w,
  )

  pub step_target : Action S ℕ
  step_target w = let r = machine.step w.target in (r.0, record w { target = r.1 })

  pub logged : Session → S → Option (List Access)
  logged session target = if session.tracking then some (machine.accesses target) else none

  pub finish : BoundaryKind → CpuState → Option Instruction → ℕ → CpuState → Action S StepRecord
  unfolding logged
  finish kind before shown t_states after w =
      keep_record
        (record {
          sequence = w.session.total_steps;
          kind = kind;
          before = before;
          after = after;
          t_states = t_states;
          shown = shown;
          accesses = logged w.session w.target;
        })
        w

  -- From the check of the count of T-states on.
  pub weigh : CpuState → Option Instruction → ℕ → Action S StepRecord
  weigh before shown t_states =
      if t_states == 0
      then throw value_error
      else (do after ← capture; finish (next_boundary before) before shown t_states after)

  -- From the call of the target's `step` on.
  pub take_step : CpuState → Option Instruction → Action S StepRecord
  take_step before shown = do _ ← clear_log; t_states ← step_target; weigh before shown t_states

  unfoldable pub session_step : Option Reader → ℕ → Action S StepRecord
  unfolding capture clear_log step_target preview finish weigh take_step keep_record
  session_step peek_byte fuel = do
    before ← capture
    shown ← preview peek_byte fuel (next_boundary before) before
    take_step before shown
