-- ===== src/Debug/Running/Reasons.antt =====
-- Why a run of a session stops, and what it has counted by then.
use z80_python.Base.{
  ◌&&◌, ◌+◌, ◌∙◌, ◌∷◌, ◌≡◌, ◌≢◌, ◌≤◌, Bool, List, Option, [], and_intro, and_left, and_right, ap,
  arith, false, if-cases, if◌then◌else◌, leb, le→leb, ltb, none, refl, some, true, ℕ,
}
use z80_python.Debug.{
  Access, BoundaryKind, halt_idle, maskable_interrupt, next_boundary, non_maskable_interrupt, reset,
}
use z80_python.Debug.Points.{
  Session, StepRecord, WatchKind, accesses_fit, hits, is_hit, starts_instruction, valid_access,
  valid_accesses, valid_record, watch_hits,
}
use z80_python.Debug.Running.{
  Counts, RunResult, StopReason, breakpoint, counted, halted, is_halt_idle, reached, step_limit,
  stop_after, stop_before, stopped, t_state_limit, valid_result, watchpoint,
}
use z80_python.Debug.Running.Tally.{Accounted, OfCounts}
use z80_python.Debug.Stepping.{count_step}
use z80_python.Dispatch.Page.{contains}
use z80_python.State.{CpuState}

-- What each reason says of the result and of the session.
abbrev pub Explained : ℕ → Option ℕ → Bool → Session → RunResult → StopReason → Type 0
Explained max_steps max_t_states stop_on_halt session result breakpoint =
    (next_boundary result.state ≡ BoundaryKind.instruction)
    × (contains result.state.pc session.breakpoints ≡ true)
Explained max_steps max_t_states stop_on_halt session result halted =
    (next_boundary result.state ≡ BoundaryKind.halt_idle) × (stop_on_halt ≡ true)
Explained max_steps max_t_states stop_on_halt session result watchpoint =
    (result.hits ≢ [])
    × (step_record : StepRecord) × (result.last_record ≡ some step_record)
    × (result.hits ≡ watch_hits session step_record)
Explained max_steps max_t_states stop_on_halt session result t_state_limit =
    reached max_t_states result.t_states ≡ true
Explained max_steps max_t_states stop_on_halt session result step_limit = result.steps ≡ max_steps

-- The end of a run from `start`.
pub record Ended (max_steps : ℕ) (max_t_states : Option ℕ) (stop_on_halt : Bool) (start : Session)
    (result : RunResult) (now : Session) : Type 0 where
  pub accounted : Accounted start result.steps result.instructions result.t_states now
  pub explained : Explained max_steps max_t_states stop_on_halt now result result.reason
  pub within : result.steps ≤ max_steps
  pub valid : valid_result result ≡ true

-- The loop with `left` steps to go.
abbrev pub Going : ℕ → ℕ → Session → Counts → Session → Type 0
Going max_steps left start counts now =
    Accounted start counts.steps counts.instructions counts.t_states now
    × (counts.steps + left ≡ max_steps)

starts_instruction-instruction :
    (kind : BoundaryKind) → starts_instruction kind ≡ true → kind ≡ BoundaryKind.instruction
starts_instruction-instruction reset h = cc
starts_instruction-instruction non_maskable_interrupt h = cc
starts_instruction-instruction maskable_interrupt h = cc
starts_instruction-instruction halt_idle h = cc
starts_instruction-instruction BoundaryKind.instruction h = refl

is_halt_idle-halt_idle :
    (kind : BoundaryKind) → is_halt_idle kind ≡ true → kind ≡ BoundaryKind.halt_idle
is_halt_idle-halt_idle reset h = cc
is_halt_idle-halt_idle non_maskable_interrupt h = cc
is_halt_idle-halt_idle maskable_interrupt h = cc
is_halt_idle-halt_idle halt_idle h = refl
is_halt_idle-halt_idle BoundaryKind.instruction h = cc

pub counted-Accounted :
    (start now later : Session) (counts : Counts) (step_record : StepRecord)
    → Accounted start counts.steps counts.instructions counts.t_states now
    → later ≡ count_step step_record now
    → let after = counted step_record counts in
      Accounted start after.steps after.instructions after.t_states later
unfolding count_step
counted-Accounted start now later counts step_record h e = record {
  total_steps = ap (λ s. s.total_steps) e ∙ one_on _ _ _ h.total_steps;
  total_instructions =
      ap (λ s. s.total_instructions) e ∙ one_more (starts_instruction step_record.kind);
  total_t_states = ap (λ s. s.total_t_states) e ∙ more _ _ _ _ h.total_t_states;
  same_breakpoints = ap (λ s. s.breakpoints) e ∙ h.same_breakpoints;
  same_watchpoints = ap (λ s. s.watchpoints) e ∙ h.same_watchpoints;
  some_steps = at_most (starts_instruction step_record.kind);
}
  where
    one_on : (a b n : ℕ) → a ≡ b + n → a + 1 ≡ b + (n + 1)
    one_on a b n p = omega arith

    more : (a b n t : ℕ) → a ≡ b + n → a + t ≡ b + (n + t)
    more a b n t p = omega arith

    one_more :
        (t : Bool)
        → (if t then now.total_instructions + 1 else now.total_instructions)
          ≡ start.total_instructions + (if t then counts.instructions + 1 else counts.instructions)
    one_more true = one_on _ _ _ h.total_instructions
    one_more false = h.total_instructions

    at_most :
        (t : Bool) → (if t then counts.instructions + 1 else counts.instructions) ≤ counts.steps + 1
    at_most true = let p = h.some_steps in omega arith
    at_most false = let p = h.some_steps in omega arith

-- What is known of a stop, if there is one.
abbrev pub Given : (RunResult → Type 0) → Option RunResult → Type 0
Given P none = Unit
Given P (some result) = P result

pub no_hits :
    (start now : Session) (counts : Counts) (reason : StopReason) (state : CpuState)
    → Accounted start counts.steps counts.instructions counts.t_states now
    → valid_result (stopped reason counts state []) ≡ true
unfolding valid_result
no_hits start now counts reason state h =
    and_intro (leb counts.instructions counts.steps) true (le→leb _ _ h.some_steps) refl

hits_valid :
    (points : List (ℕ × WatchKind)) (log : List Access)
    → valid_accesses log ≡ true
    → valid_accesses (hits points log) ≡ true
hits_valid points [] h = refl
hits_valid points (x ∷ log) h =
    let rest = hits_valid points log (and_right (valid_access x) _ h) in
    if-cases (λ l. valid_accesses l ≡ true) (is_hit points x)
      (λ _. and_intro (valid_access x) _ (and_left _ _ h) rest) (λ _. rest)

watch_hits_valid :
    (session : Session) (step_record : StepRecord)
    → valid_record step_record ≡ true
    → valid_accesses (watch_hits session step_record) ≡ true
unfolding watch_hits valid_record
watch_hits_valid session step_record h =
    go step_record.accesses (and_right _ _ (and_right (ltb 0 step_record.t_states) _ h))
  where
    go :
        (o : Option (List Access))
        → accesses_fit o ≡ true
        → valid_accesses
            (elim o as (λ _. List Access) [ none ↦ [] | some log ↦ hits session.watchpoints log ])
          ≡ true
    go none k = refl
    go (some log) k = hits_valid session.watchpoints log k

module _ (max_steps : ℕ) (max_t_states : Option ℕ) (stop_on_halt : Bool) (start : Session) where
  abbrev pub End : RunResult → Session → Type 0
  End = Ended max_steps max_t_states stop_on_halt start

  pub stop_before-Ended :
      (left : ℕ) (counts : Counts) (now : Session) (state : CpuState)
      → Going max_steps left start counts now
      → Given (λ r. End r now × OfCounts counts r) (stop_before stop_on_halt now counts state)
  unfolding stop_before
  stop_before-Ended left counts now state h =
      if-cases (Given (λ r. End r now × OfCounts counts r))
        (starts_instruction (next_boundary state) && contains state.pc now.breakpoints)
        (λ p. (
          record {
            accounted = h.0;
            explained = (
              starts_instruction-instruction (next_boundary state) (and_left _ _ p),
              and_right _ _ p,
            );
            within = omega arith;
            valid = no_hits start now counts _ state h.0;
          },
          (refl, refl, refl, refl),
        ))
        (λ _.
          if-cases (Given (λ r. End r now × OfCounts counts r))
            (stop_on_halt && is_halt_idle (next_boundary state))
            (λ p. (
              record {
                accounted = h.0;
                explained = (
                  is_halt_idle-halt_idle (next_boundary state) (and_right stop_on_halt _ p),
                  and_left stop_on_halt _ p,
                );
                within = omega arith;
                valid = no_hits start now counts _ state h.0;
              },
              (refl, refl, refl, refl),
            ))
            (λ _. tt))

  pub stop_after-Ended :
      (left : ℕ) (counts : Counts) (now : Session) (step_record : StepRecord)
      → Going max_steps left start counts now
      → counts.last_record ≡ some step_record
      → valid_record step_record ≡ true
      → Given (λ r. End r now × OfCounts counts r) (stop_after max_t_states now counts step_record)
  unfolding stop_after valid_result
  stop_after-Ended left counts now step_record h last sound = go (watch_hits now step_record) refl
    where
      go :
          (log : List Access)
          → log ≡ watch_hits now step_record
          → Given
              (λ r. End r now × OfCounts counts r)
              (elim log [
                | x ∷ xs ↦ some (stopped watchpoint counts step_record.after (x ∷ xs))
                | [] ↦
                    if reached max_t_states counts.t_states
                    then some (stopped t_state_limit counts step_record.after [])
                    else none
              ])
      go (x ∷ xs) e = (
        record {
          accounted = h.0;
          explained = (λ p. cc, step_record, last, e);
          within = omega arith;
          valid =
              and_intro (leb counts.instructions counts.steps) (valid_accesses (x ∷ xs))
                (le→leb counts.instructions counts.steps h.0.some_steps)
                (ap valid_accesses e ∙ watch_hits_valid now step_record sound);
        },
        (refl, refl, refl, refl),
      )
      go [] e =
          if-cases (Given (λ r. End r now × OfCounts counts r))
            (reached max_t_states counts.t_states)
            (λ p. (
              record {
                accounted = h.0;
                explained = p;
                within = omega arith;
                valid = no_hits start now counts t_state_limit step_record.after h.0;
              },
              (refl, refl, refl, refl),
            ))
            (λ _. tt)
