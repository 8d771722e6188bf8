-- ===== src/Debug/Stepping/Recorded.antt =====
-- What a step of a session records, against its target.
use mathlib.Core.Path.{subst}
use z80_python.Base.{
  ◌+◌, ◌==◌, ◌∙◌, ◌≡◌, Bool, Option, ap, arith, false, if◌then◌else◌, none, refl, some, sym, true,
  ℕ,
}
use z80_python.Debug.{next_boundary}
use z80_python.Debug.Points.{StepRecord, starts_instruction, valid_record}
use z80_python.Debug.Stepping.{
  ◌>>=◌, Action, DebugTarget, World, after_outcome, capture, count_step, finish, logged, preview,
  remember, session_step, step_target, take_step, throw, weigh,
}
use z80_python.Debug.Stepping.Core.{Counted, Ensures, Same, session_step-Counted}
use z80_python.Debug.Stepping.Endings.{
  Failed, Previewed, bind-done, clear_log-cleared, cleared, keep_record-done, preview-done,
}
use z80_python.Debug.Stepping.Refused.{Refused, session_step-Refused}
use z80_python.Disasm.{Instruction}
use z80_python.Disasm.Entry.{Reader}
use z80_python.Flags.Bits.{taken}
use z80_python.Host.{Outcome, done, no_fuel, raised}
use z80_python.Prog.{value_error}
use z80_python.State.{CpuState}

module _ {S : Type 0} (machine : DebugTarget S) (peek_byte : Option Reader) (fuel : ℕ) where
  -- The step from `w` to `v`, and its record.
  pub record Recorded (w : World S) (r : StepRecord) (v : World S) : Type 0 where
    pub before : machine.capture_state w.target ≡ done r.before
    pub kind : r.kind ≡ next_boundary r.before
    pub shown : Previewed (starts_instruction r.kind) peek_byte fuel r.before.pc r.shown
    pub stepped : machine.step (cleared machine w) ≡ (done r.t_states, v.target)
    pub after : machine.capture_state v.target ≡ done r.after
    pub accesses :
        r.accesses ≡ (if w.session.tracking then some (machine.accesses v.target) else none)
    pub valid : valid_record r ≡ true
    pub sequence : r.sequence ≡ w.session.total_steps
    pub total_steps : v.session.total_steps ≡ w.session.total_steps + 1
    pub total_t_states : v.session.total_t_states ≡ w.session.total_t_states + r.t_states
    pub total_instructions :
        v.session.total_instructions
        ≡ w.session.total_instructions + (if starts_instruction r.kind then 1 else 0)
    pub history : v.session.history ≡ remember w.session.history_limit r w.session.history
    pub same_points :
        (v.session.breakpoints ≡ w.session.breakpoints)
        × (v.session.watchpoints ≡ w.session.watchpoints)
        × (v.session.history_limit ≡ w.session.history_limit)
        × (v.session.tracking ≡ w.session.tracking)

module _ {S : Type 0} (machine : DebugTarget S) where
  -- The end of a step that gives a record.
  weigh-done :
      (before : CpuState) (shown : Option Instruction) (t_states : ℕ) (w v : World S)
      (r : StepRecord)
      → weigh machine before shown t_states w ≡ (done r, v)
      → (after : CpuState) × (machine.capture_state w.target ≡ done after)
        × (finish machine (next_boundary before) before shown t_states after w ≡ (done r, v))
  unfolding weigh capture
  weigh-done before shown t_states w v r = go (t_states == 0)
    where
      rest : CpuState → Action S StepRecord
      rest = finish machine (next_boundary before) before shown t_states

      go :
          (t : Bool)
          → (if t then throw value_error else (capture machine >>= rest)) w ≡ (done r, v)
          → (after : CpuState) × (machine.capture_state w.target ≡ done after)
            × (rest after w ≡ (done r, v))
      go true k = cc
      go false k =
          let parts = bind-done (capture machine) rest w v r k in
          let taken : machine.capture_state w.target ≡ done parts.0 = ap (λ p. p.0) parts.2 in
          let same : w ≡ parts.1 = ap (λ p. p.1) parts.2 in
          (parts.0, taken, subst (λ u. rest parts.0 u ≡ (done r, v)) (sym same) parts.3)

  finish-done :
      (peek_byte : Option Reader) (fuel t_states : ℕ) (before after : CpuState)
      (shown : Option Instruction) (w u v : World S) (r : StepRecord)
      → machine.capture_state w.target ≡ done before
      → Previewed (starts_instruction (next_boundary before)) peek_byte fuel before.pc shown
      → u.session ≡ w.session
      → machine.step (cleared machine w) ≡ (done t_states, u.target)
      → machine.capture_state u.target ≡ done after
      → finish machine (next_boundary before) before shown t_states after u ≡ (done r, v)
      → Recorded machine peek_byte fuel w r v
  unfolding finish logged count_step
  finish-done peek_byte fuel t_states before after shown w u v r taken seen same stepped later h =
      let parts = keep_record-done _ r u v h in
      let e = parts.0 in
      let target : u.target ≡ v.target = ap (λ x. x.target) parts.1 in
      let session : v.session ≡ count_step r w.session =
        sym (ap (λ x. x.session) parts.1) ∙ (λ i. count_step (e i) (same i)) in
      record {
        before = taken ∙ ap (λ x. done x.before) e;
        kind = sym (ap (λ x. x.kind) e) ∙ ap (λ x. next_boundary x.before) e;
        shown =
            subst (λ x. Previewed (starts_instruction x.kind) peek_byte fuel x.before.pc x.shown) e
              seen;
        stepped = stepped ∙ (λ i. (done (e i).t_states, target i));
        after = ap machine.capture_state (sym target) ∙ (later ∙ ap (λ x. done x.after) e);
        accesses = sym (ap (λ x. x.accesses) e) ∙ (λ i. logged machine (same i) (target i));
        valid = sym (ap valid_record e) ∙ parts.2;
        sequence = sym (ap (λ x. x.sequence) e) ∙ ap (λ x. x.total_steps) same;
        total_steps = ap (λ x. x.total_steps) session;
        total_t_states = ap (λ x. x.total_t_states) session;
        total_instructions =
            ap (λ x. x.total_instructions) session
            ∙ one_more (starts_instruction r.kind) w.session.total_instructions;
        history = ap (λ x. x.history) session;
        same_points = (
          ap (λ x. x.breakpoints) session,
          ap (λ x. x.watchpoints) session,
          ap (λ x. x.history_limit) session,
          ap (λ x. x.tracking) session,
        );
      }
    where
      one_more : (t : Bool) (n : ℕ) → (if t then n + 1 else n) ≡ n + (if t then 1 else 0)
      one_more true n = refl
      one_more false n = omega arith

  take_step-done :
      (peek_byte : Option Reader) (fuel : ℕ) (before : CpuState) (shown : Option Instruction)
      (w v : World S) (r : StepRecord)
      → machine.capture_state w.target ≡ done before
      → Previewed (starts_instruction (next_boundary before)) peek_byte fuel before.pc shown
      → take_step machine before shown w ≡ (done r, v)
      → Recorded machine peek_byte fuel w r v
  unfolding take_step step_target
  take_step-done peek_byte fuel before shown w v r taken seen h =
      let w1 : World S = record w { target = cleared machine w } in
      let go_on : Action S StepRecord = step_target machine >>= weigh machine before shown in
      let k1 : go_on w1 ≡ (done r, v) =
        ap (λ o. after_outcome o (λ _. go_on)) (sym (clear_log-cleared machine w)) ∙ h in
      let p = bind-done (step_target machine) (weigh machine before shown) w1 v r k1 in
      let u : World S = p.1 in
      let moved = ap (λ x. x.1) p.2 in
      let same : u.session ≡ w.session = sym (ap (λ x. x.session) moved) in
      let stepped : machine.step (cleared machine w) ≡ (done p.0, u.target) =
        λ i. ((p.2 i).0, (p.2 i).1.target) in
      let end = weigh-done before shown p.0 u v r p.3 in
      finish-done peek_byte fuel p.0 before end.0 shown w u v r taken seen same stepped end.1 end.2

  pub session_step-done :
      (peek_byte : Option Reader) (fuel : ℕ) (w v : World S) (r : StepRecord)
      → session_step machine peek_byte fuel w ≡ (done r, v)
      → Recorded machine peek_byte fuel w r v
  unfolding session_step capture
  session_step-done peek_byte fuel w v r h =
      let p =
        bind-done (capture machine) (λ before. look before >>= take_step machine before) w v r h in
      let before : CpuState = p.0 in
      let taken : machine.capture_state w.target ≡ done before = ap (λ x. x.0) p.2 in
      let k : (look before >>= take_step machine before) w ≡ (done r, v) =
        ap (look before >>= take_step machine before) (ap (λ x. x.1) p.2) ∙ p.3 in
      let q = bind-done (look before) (take_step machine before) w v r k in
      let seen = preview-done peek_byte fuel (next_boundary before) before q.0 w q.1 q.2 in
      let l : take_step machine before q.0 w ≡ (done r, v) =
        ap (take_step machine before q.0) seen.1 ∙ q.3 in
      take_step-done peek_byte fuel before q.0 w v r taken seen.0 l
    where
      look : CpuState → Action S (Option Instruction)
      look before = preview peek_byte fuel (next_boundary before) before

  -- A step of the session either gives a record, or raises or runs out of fuel for a reason that
  -- `Refused` lists and leaves totals, history, breakpoints and watchpoints as they were. The
  -- reasons are: the target shows no state before or after its `step`, the disassembler fails at
  -- PC where the record needs it, `step` fails or returns 0, or the record does not pass the
  -- checks of `StepRecord`. A record that is given passes these checks; it has the states that the
  -- target shows before and after its `step`, the T-states that `step` returned, the boundary that
  -- was next, the instruction that the disassembler shows at PC if that is an instruction and
  -- there is a reader, and the accesses logged from the call of `step` on if the session tracks
  -- them; its number is the steps counted before. The totals have grown by one step, the T-states
  -- of the record, and one instruction if it is one; the record is remembered; breakpoints,
  -- watchpoints, the history limit and the tracking are as before.
  pub session_step-Recorded :
      (peek_byte : Option Reader) (fuel : ℕ) (w : World S)
      → Ensures
          (Recorded machine peek_byte fuel w)
          (λ v. Same w v × Refused machine peek_byte fuel w)
          (session_step machine peek_byte fuel w)
  session_step-Recorded peek_byte fuel w =
      split (session_step machine peek_byte fuel w) refl
        (session_step-Counted machine peek_byte fuel w)
    where
      refused :
          (o : Outcome StepRecord × World S)
          → session_step machine peek_byte fuel w ≡ o
          → Failed o.0
          → Refused machine peek_byte fuel w
      refused o e h =
          session_step-Refused machine peek_byte fuel w (subst (λ x. Failed x.0) (sym e) h)

      split :
          (o : Outcome StepRecord × World S)
          → session_step machine peek_byte fuel w ≡ o
          → Ensures (Counted w) (Same w) o
          → Ensures
              (Recorded machine peek_byte fuel w)
              (λ v. Same w v × Refused machine peek_byte fuel w)
              o
      split (done r, v) e h = session_step-done peek_byte fuel w v r e
      split (raised x, v) e h = (h, refused (raised x, v) e tt)
      split (no_fuel, v) e h = (h, refused (no_fuel, v) e tt)
