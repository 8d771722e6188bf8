-- ===== src/Debug/Running/Ends.antt =====
-- How a run of a session ends.
use z80_python.Base.{◌≡◌, ◌⊎◌, Bool, Option, inl, inr, ℕ}
use z80_python.Debug.Points.{StepRecord}
use z80_python.Debug.Running.{Counts, RunResult}
use z80_python.Debug.Running.Reasons.{Ended, Going}
use z80_python.Debug.Running.Tally.{Partway, Tallied}
use z80_python.Debug.Stepping.{◌>>=◌, DebugTarget, World, session_step}
use z80_python.Debug.Stepping.Core.{Counted, Ensures}
use z80_python.Disasm.Entry.{Reader}
use z80_python.Host.{Outcome, done}

module _ {S : Type 0} (machine : DebugTarget S) (peek_byte : Option Reader) (fuel max_steps : ℕ)
    (max_t_states : Option ℕ) (stop_on_halt : Bool) (origin : World S) where
  -- A result at the end of a run from `origin`.
  abbrev pub EndAt : RunResult → World S → Type 0
  EndAt result v =
      Ended max_steps max_t_states stop_on_halt origin.session result v.session
      × Tallied machine peek_byte fuel origin result.steps result.instructions result.t_states
          result.last_record v

  abbrev GoingAt : ℕ → Counts → World S → Type 0
  GoingAt left counts v =
      Going max_steps left origin.session counts v.session
      × Tallied machine peek_byte fuel origin counts.steps counts.instructions counts.t_states
          counts.last_record v

  abbrev Broken : World S → Type 0
  Broken = Partway machine peek_byte fuel origin max_steps

  abbrev Next : ℕ → (RunResult ⊎ Counts) → World S → Type 0
  Next left (inl result) v = EndAt result v
  Next left (inr counts) v = GoingAt left counts v

  abbrev Rounds : ℕ → Outcome (RunResult ⊎ Counts) × World S → Type 0
  Rounds left = Ensures (Next left) Broken

  abbrev Done : World S → StepRecord → World S → Type 0
  Done w r v = Counted w r v × (session_step machine peek_byte fuel w ≡ (done r, v))
