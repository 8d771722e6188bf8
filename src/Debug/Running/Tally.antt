-- ===== src/Debug/Running/Tally.antt =====
-- The steps that a run has completed, and what they come to.
use mathlib.Core.Path.{subst}
use z80_python.Base.{
  ◌+◌, ◌∙◌, ◌∷◌, ◌≡◌, ◌≢◌, ◌≤◌, List, Option, [], ap, arith, if◌then◌else◌, length, none, refl,
  some, sym, ℕ,
}
use z80_python.Debug.Points.{Session, StepRecord, starts_instruction}
use z80_python.Debug.Running.{Counts, RunResult, counted}
use z80_python.Debug.Stepping.{DebugTarget, World, session_step}
use z80_python.Debug.Stepping.Recorded.{session_step-done}
use z80_python.Disasm.Entry.{Reader}
use z80_python.Host.{done}
use z80_python.State.{CpuState}

-- What a run has counted since `start`, whose points are still there.
pub record Accounted (start : Session) (steps instructions t_states : ℕ) (now : Session)
    : Type 0 where
  pub total_steps : now.total_steps ≡ start.total_steps + steps
  pub total_instructions : now.total_instructions ≡ start.total_instructions + instructions
  pub total_t_states : now.total_t_states ≡ start.total_t_states + t_states
  pub same_breakpoints : now.breakpoints ≡ start.breakpoints
  pub same_watchpoints : now.watchpoints ≡ start.watchpoints
  pub some_steps : instructions ≤ steps

-- A result has the numbers of the counts.
abbrev pub OfCounts : Counts → RunResult → Type 0
OfCounts counts result =
    (result.steps ≡ counts.steps)
    × (result.instructions ≡ counts.instructions)
    × (result.t_states ≡ counts.t_states)
    × (result.last_record ≡ counts.last_record)

-- Calls of `session_step` in a row, each giving a record; the newest record stands first.
pub data Stepped {S : Type 0} (machine : DebugTarget S) (peek_byte : Option Reader) (fuel : ℕ)
    (w : World S) : List StepRecord → World S → Type 0 where
  no_step : Stepped machine peek_byte fuel w [] w
  one_step :
      {records : List StepRecord} {u : World S} {r : StepRecord} {v : World S}
      → Stepped machine peek_byte fuel w records u
      → session_step machine peek_byte fuel u ≡ (done r, v)
      → Stepped machine peek_byte fuel w (r ∷ records) v

abbrev pub instructions_in : List StepRecord → ℕ
instructions_in [] = 0
instructions_in (r ∷ records) =
    if starts_instruction r.kind then instructions_in records + 1 else instructions_in records

abbrev pub t_states_in : List StepRecord → ℕ
t_states_in [] = 0
t_states_in (r ∷ records) = t_states_in records + r.t_states

abbrev pub newest : List StepRecord → Option StepRecord
newest [] = none
newest (r ∷ records) = some r

module _ {S : Type 0} (machine : DebugTarget S) (peek_byte : Option Reader) (fuel : ℕ)
    (origin : World S) where
  -- The numbers of a run are those of the steps from `origin` to `v`.
  pub record Tallied (steps instructions t_states : ℕ) (last_record : Option StepRecord)
      (v : World S) : Type 0 where
    pub taken : List StepRecord
    pub stepped : Stepped machine peek_byte fuel origin taken v
    pub steps_of : steps ≡ length taken
    pub instructions_of : instructions ≡ instructions_in taken
    pub t_states_of : t_states ≡ t_states_in taken
    pub last_of : last_record ≡ newest taken

  -- Where an exception leaves the session: some steps within the budget were completed, up to a
  -- world `u` whose session is still there and from which a step gives no record.
  pub record Partway (max_steps : ℕ) (v : World S) : Type 0 where
    pub taken : List StepRecord
    pub u : World S
    pub stepped : Stepped machine peek_byte fuel origin taken u
    pub within : length taken ≤ max_steps
    pub session : v.session ≡ u.session
    pub accounted :
        Accounted origin.session
          (length taken)
          (instructions_in taken)
          (t_states_in taken)
          v.session
    pub no_record :
        (r : StepRecord) (x : World S) → session_step machine peek_byte fuel u ≢ (done r, x)

  pub start_Tallied : Tallied 0 0 0 none origin
  start_Tallied = record {
    taken = [];
    stepped = no_step;
    steps_of = refl;
    instructions_of = refl;
    t_states_of = refl;
    last_of = refl;
  }

  pub counted-Tallied :
      (counts : Counts) (r : StepRecord) (w v : World S)
      → Tallied counts.steps counts.instructions counts.t_states counts.last_record w
      → session_step machine peek_byte fuel w ≡ (done r, v)
      → let after = counted r counts in
        Tallied after.steps after.instructions after.t_states after.last_record v
  counted-Tallied counts r w v h e = record {
    taken = r ∷ h.taken;
    stepped = one_step h.stepped e;
    steps_of = let k = h.steps_of in omega arith;
    instructions_of = ap (λ n. if starts_instruction r.kind then n + 1 else n) h.instructions_of;
    t_states_of = ap (λ n. n + r.t_states) h.t_states_of;
    last_of = refl;
  }

  pub stopped-Tallied :
      (counts : Counts) (result : RunResult) (v : World S)
      → OfCounts counts result
      → Tallied counts.steps counts.instructions counts.t_states counts.last_record v
      → Tallied result.steps result.instructions result.t_states result.last_record v
  stopped-Tallied counts result v same h = record {
    taken = h.taken;
    stepped = h.stepped;
    steps_of = same.0 ∙ h.steps_of;
    instructions_of = same.1 ∙ h.instructions_of;
    t_states_of = same.2 ∙ h.t_states_of;
    last_of = same.3 ∙ h.last_of;
  }

  pub partway :
      (max_steps : ℕ) (counts : Counts) (u v : World S)
      → Tallied counts.steps counts.instructions counts.t_states counts.last_record u
      → Accounted origin.session counts.steps counts.instructions counts.t_states u.session
      → counts.steps ≤ max_steps
      → v.session ≡ u.session
      → ((r : StepRecord) (x : World S) → session_step machine peek_byte fuel u ≢ (done r, x))
      → Partway max_steps v
  partway max_steps counts u v h k le same none_next = record {
    taken = h.taken;
    u = u;
    stepped = h.stepped;
    within = let e = h.steps_of in omega arith;
    session = same;
    accounted =
        subst
          (Accounted origin.session (length h.taken) (instructions_in h.taken)
            (t_states_in h.taken))
          (sym same) (moved h.steps_of h.instructions_of h.t_states_of k);
    no_record = none_next;
  }
    where
      moved :
          {a b c x y z : ℕ}
          → a ≡ x
          → b ≡ y
          → c ≡ z
          → Accounted origin.session a b c u.session
          → Accounted origin.session x y z u.session
      moved {a} {b} {c} {x} {y} {z} e f g k =
          subst (λ n. Accounted origin.session n y z u.session) e
            (subst (λ n. Accounted origin.session a n z u.session) f
              (subst (λ n. Accounted origin.session a b n u.session) g k))

  -- A step that gives a record has captured the state first.
  pub no_capture :
      (u : World S)
      → ((state : CpuState) → machine.capture_state u.target ≢ done state)
      → (r : StepRecord) (x : World S) → session_step machine peek_byte fuel u ≢ (done r, x)
  no_capture u none_there r x e =
      none_there r.before (session_step-done machine peek_byte fuel u x r e).before
