-- ===== src/Debug/Stepping/Core.antt =====
-- What an operation of a session leaves behind.
use z80_python.Base.{◌==◌, ◌∙◌, ◌≡◌, ◌≢◌, Option, ap, if-cases, if-keeps, none, refl, some, true, ℕ}
use z80_python.Debug.{BoundaryKind, next_boundary}
use z80_python.Debug.Points.{StepRecord, starts_instruction, valid_record}
use z80_python.Debug.Stepping.{
  ◌>>=◌, Action, DebugTarget, World, after_outcome, capture, clear_log, count_step, finish,
  keep_record, preview, session_step, step_target, take_step, throw, weigh,
}
use z80_python.Disasm.{Instruction}
use z80_python.Disasm.Entry.{Reader, disassemble}
use z80_python.Host.{Outcome, done, no_fuel, raised}
use z80_python.Prog.{value_error}
use z80_python.State.{CpuState}

-- The outcome is a value with `P`, or an exception or a lack of fuel with `E`, each of the world
-- after it.
abbrev pub Ensures :
    {S A : Type 0} → (A → World S → Type 0) → (World S → Type 0) → Outcome A × World S → Type 0
Ensures P E (done a, w) = P a w
Ensures P E (raised e, w) = E w
Ensures P E (no_fuel, w) = E w

module _ {S A B : Type 0} (P : A → World S → Type 0) (Q : B → World S → Type 0)
    (E : World S → Type 0) where
  pub Ensures-bind :
      (m : Action S A) (f : A → Action S B) (w : World S)
      → Ensures P E (m w)
      → ((a : A) (w' : World S) → P a w' → Ensures Q E (f a w'))
      → Ensures Q E ((m >>= f) w)
  Ensures-bind m f w h k = go (m w) h
    where
      go : (o : Outcome A × World S) → Ensures P E o → Ensures Q E (after_outcome o f)
      go (done a, w') h = k a w' h
      go (raised e, w') h = h
      go (no_fuel, w') h = h

-- The session is still that of `w`.
abbrev pub Same : {S : Type 0} → World S → World S → Type 0
Same w w' = w'.session ≡ w.session

-- One step is counted and remembered: a valid record of the boundary that was next, with the next
-- sequence number.
abbrev pub Counted : {S : Type 0} → World S → StepRecord → World S → Type 0
Counted w step_record w' =
    (w'.session ≡ count_step step_record w.session)
    × (valid_record step_record ≡ true)
    × (step_record.kind ≡ next_boundary step_record.before)
    × (step_record.sequence ≡ w.session.total_steps)

preview-Same :
    {S : Type 0} (peek_byte : Option Reader) (fuel : ℕ) (kind : BoundaryKind) (before : CpuState)
    (w v : World S)
    → Same w v
    → Ensures (λ _. Same w) (Same w) (preview peek_byte fuel kind before v)
unfolding preview
preview-Same {S} peek_byte fuel kind before w v h =
    if-cases (Ensures {S = S} {A = Option Instruction} (λ _. Same w) (Same w))
      (starts_instruction kind) (λ _. look peek_byte) (λ _. h)
  where
    seen :
        (o : Outcome Instruction)
        → Ensures {S = S} {A = Option Instruction}
            (λ _. Same w)
            (Same w)
            (elim o [
              | done i ↦ (done (some i), v)
              | raised e ↦ (raised e, v)
              | no_fuel ↦ (no_fuel, v)
            ])
    seen (done i) = h
    seen (raised e) = h
    seen no_fuel = h

    look :
        (o : Option Reader)
        → Ensures {S = S} {A = Option Instruction}
            (λ _. Same w)
            (Same w)
            (elim o [
              | none ↦ (done none, v)
              | some reader ↦ elim (disassemble fuel reader before.pc) [
                | done i ↦ (done (some i), v)
                | raised e ↦ (raised e, v)
                | no_fuel ↦ (no_fuel, v)
              ]
            ])
    look none = h
    look (some reader) = seen (disassemble fuel reader before.pc)

keep_record-Counted :
    {S : Type 0} (step_record : StepRecord) (w v : World S)
    → Same w v
    → step_record.kind ≡ next_boundary step_record.before
    → step_record.sequence ≡ v.session.total_steps
    → Ensures (Counted w) (Same w) (keep_record step_record v)
unfolding keep_record
keep_record-Counted {S} step_record w v h kind sequence =
    if-cases (Ensures {S = S} {A = StepRecord} (Counted w) (Same w)) (valid_record step_record)
      (λ e. (ap (count_step step_record) h, e, kind, sequence ∙ ap (λ s. s.total_steps) h)) (λ _. h)

module _ {S : Type 0} (machine : DebugTarget S) where
  pub capture-Same : (w v : World S) → Same w v → Ensures (λ _. Same w) (Same w) (capture machine v)
  unfolding capture
  capture-Same w v h = go (machine.capture_state v.target)
    where
      go : (o : Outcome CpuState) → Ensures {S = S} {A = CpuState} (λ _. Same w) (Same w) (o, v)
      go (done a) = h
      go (raised e) = h
      go no_fuel = h

  pub Ensures-capture :
      {B : Type 0} (Q : B → World S → Type 0) (E : World S → Type 0) (f : CpuState → Action S B)
      (w : World S)
      → (((state : CpuState) → machine.capture_state w.target ≢ done state) → E w)
      → ((state : CpuState) → Ensures Q E (f state w))
      → Ensures Q E ((capture machine >>= f) w)
  unfolding capture
  Ensures-capture {B} Q E f w h k = go (machine.capture_state w.target) refl
    where
      go :
          (o : Outcome CpuState)
          → machine.capture_state w.target ≡ o
          → Ensures Q E (after_outcome (o, w) f)
      go (done a) e = k a
      go (raised x) e = h (λ state c. cc)
      go no_fuel e = h (λ state c. cc)

  finish-Counted :
      (before : CpuState) (shown : Option Instruction) (t_states : ℕ) (after : CpuState)
      (w v : World S)
      → Same w v
      → Ensures
          (Counted w)
          (Same w)
          (finish machine (next_boundary before) before shown t_states after v)
  unfolding finish
  finish-Counted before shown t_states after w v h = keep_record-Counted _ w v h refl refl

  weigh-Counted :
      (before : CpuState) (shown : Option Instruction) (t_states : ℕ) (w v : World S)
      → Same w v
      → Ensures (Counted w) (Same w) (weigh machine before shown t_states v)
  unfolding weigh
  weigh-Counted before shown t_states w v h =
      if-cases {A = Action S StepRecord}
        (λ (m : Action S StepRecord). Ensures (Counted w) (Same w) (m v)) (t_states == 0)
        {x = throw value_error} {y = capture machine >>= rest} (λ _. h)
        (λ _.
          Ensures-bind (λ _. Same w) (Counted w) (Same w) (capture machine) rest v
            (capture-Same w v h) (λ after u k. finish-Counted before shown t_states after w u k))
    where
      rest : CpuState → Action S StepRecord
      rest = finish machine (next_boundary before) before shown t_states

  take_step-Counted :
      (before : CpuState) (shown : Option Instruction) (w v : World S)
      → Same w v
      → Ensures (Counted w) (Same w) (take_step machine before shown v)
  unfolding take_step clear_log step_target
  take_step-Counted before shown w v h =
      Ensures-bind (λ _. Same w) (Counted w) (Same w) (clear_log machine)
        (λ _. step_target machine >>= weigh machine before shown) v
        (if-keeps (λ u. Same w u) v.session.tracking h h)
        (λ _ u k.
          Ensures-bind (λ _. Same w) (Counted w) (Same w) (step_target machine)
            (weigh machine before shown) u (stepped u (machine.step u.target).0 k)
            (λ t x l. weigh-Counted before shown t w x l))
    where
      stepped :
          (u : World S) (o : Outcome ℕ)
          → Same w u
          → Ensures {S = S} {A = ℕ}
              (λ t. Same w)
              (Same w)
              (o, record u { target = (machine.step u.target).1 })
      stepped u (done t) k = k
      stepped u (raised e) k = k
      stepped u no_fuel k = k

  pub session_step-Counted :
      (peek_byte : Option Reader) (fuel : ℕ) (w : World S)
      → Ensures (Counted w) (Same w) (session_step machine peek_byte fuel w)
  unfolding session_step
  session_step-Counted peek_byte fuel w =
      Ensures-bind (λ a. Same w) (Counted w) (Same w) (capture machine) _ w (capture-Same w w refl)
        (λ before v h.
          let kind = next_boundary before in
          Ensures-bind (λ a. Same w) (Counted w) (Same w) (preview peek_byte fuel kind before) _ v
            (preview-Same peek_byte fuel kind before w v h)
            (λ shown u k. take_step-Counted before shown w u k))
