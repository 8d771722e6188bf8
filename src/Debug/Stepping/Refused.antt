-- ===== src/Debug/Stepping/Refused.antt =====
-- What refuses a step of a session.
use mathlib.Core.Path.{subst}
use z80_python.Base.{
  ◌==◌, ◌∙◌, ◌≡◌, ◌⊎◌, Bool, Option, ap, arith, false, if◌then◌else◌, inl, inr, none, refl, some,
  sym, true, ℕ,
}
use z80_python.Debug.{BoundaryKind, next_boundary}
use z80_python.Debug.Points.{StepRecord, starts_instruction, valid_record}
use z80_python.Debug.Stepping.{
  ◌>>=◌, Action, DebugTarget, World, after_outcome, capture, count_step, finish, keep_record,
  logged, preview, session_step, step_target, take_step, throw, weigh,
}
use z80_python.Debug.Stepping.Endings.{
  Failed, Previewed, bind-Failed, clear_log-cleared, cleared, preview-done,
}
use z80_python.Disasm.{Instruction}
use z80_python.Disasm.Entry.{Reader, disassemble}
use z80_python.Host.{Outcome, done, no_fuel, raised}
use z80_python.Prog.{value_error}
use z80_python.State.{CpuState}

module _ {S : Type 0} (machine : DebugTarget S) (peek_byte : Option Reader) (fuel : ℕ)
    (w : World S) where
  -- Why a step from `w` gives no record: the target shows no state before its `step`, the
  -- disassembler fails at PC, `step` fails or returns 0, the target shows no state after it, or the
  -- record is not valid.
  pub data Refused : Type 0 where
    no_before : Failed (machine.capture_state w.target) → Refused
    no_instruction :
        (before : CpuState) (reader : Reader)
        → machine.capture_state w.target ≡ done before
        → starts_instruction (next_boundary before) ≡ true
        → peek_byte ≡ some reader
        → Failed (disassemble fuel reader before.pc)
        → Refused
    no_count : Failed (machine.step (cleared machine w)).0 → Refused
    no_time : (machine.step (cleared machine w)).0 ≡ done 0 → Refused
    no_after : Failed (machine.capture_state (machine.step (cleared machine w)).1) → Refused
    no_valid_record :
        (r : StepRecord) (target : S)
        → machine.capture_state w.target ≡ done r.before
        → machine.step (cleared machine w) ≡ (done r.t_states, target)
        → machine.capture_state target ≡ done r.after
        → r.kind ≡ next_boundary r.before
        → Previewed (starts_instruction r.kind) peek_byte fuel r.before.pc r.shown
        → r.accesses ≡ (if w.session.tracking then some (machine.accesses target) else none)
        → valid_record r ≡ false
        → Refused

keep_record-Failed :
    {S : Type 0} (s : StepRecord) (w : World S)
    → Failed (keep_record s w).0
    → valid_record s ≡ false
unfolding keep_record
keep_record-Failed {S} s w = go (valid_record s)
  where
    kept : Outcome StepRecord × World S
    kept = (done s, record w { session = count_step s w.session })

    go : (t : Bool) → Failed (if t then kept else (raised value_error, w)).0 → t ≡ false
    go true h = absurd h
    go false h = refl

preview-Failed :
    {S : Type 0} (peek_byte : Option Reader) (fuel : ℕ) (kind : BoundaryKind) (before : CpuState)
    (w : World S)
    → Failed (preview peek_byte fuel kind before w).0
    → (starts_instruction kind ≡ true)
      × (reader : Reader) × (peek_byte ≡ some reader)
      × Failed (disassemble fuel reader before.pc)
unfolding preview
preview-Failed {S} peek_byte fuel kind before w = go (starts_instruction kind) peek_byte
  where
    seen :
        (o : Outcome Instruction)
        → Failed
            (elim o as (λ _. Outcome (Option Instruction) × World S) [
              | done i ↦ (done (some i), w)
              | raised e ↦ (raised e, w)
              | no_fuel ↦ (no_fuel, w)
            ]).0
        → Failed o
    seen (done i) h = h
    seen (raised e) h = tt
    seen no_fuel h = tt

    go :
        (t : Bool) (o : Option Reader)
        → Failed
            (if t
              then elim o as (λ _. Outcome (Option Instruction) × World S) [
                | none ↦ (done none, w)
                | some reader ↦ elim (disassemble fuel reader before.pc) [
                  | done i ↦ (done (some i), w)
                  | raised e ↦ (raised e, w)
                  | no_fuel ↦ (no_fuel, w)
                ]
              ]
              else (done none, w)).0
        → (t ≡ true)
          × (reader : Reader) × (o ≡ some reader)
          × Failed (disassemble fuel reader before.pc)
    go true none h = absurd h
    go true (some reader) h = (refl, reader, refl, seen (disassemble fuel reader before.pc) h)
    go false none h = absurd h
    go false (some reader) h = absurd h

module _ {S : Type 0} (machine : DebugTarget S) (peek_byte : Option Reader) (fuel : ℕ) (w : World S)
    (before : CpuState) (shown : Option Instruction)
    (captured : machine.capture_state w.target ≡ done before)
    (seen : Previewed
      (starts_instruction (next_boundary before))
      peek_byte
      fuel
      before.pc
      shown) where
  abbrev Reasons : Type 0
  Reasons = Refused machine peek_byte fuel w

  finish-Refused :
      (t_states : ℕ) (after : CpuState) (u : World S)
      → machine.step (cleared machine w) ≡ (done t_states, u.target)
      → u.session ≡ w.session
      → machine.capture_state u.target ≡ done after
      → Failed (finish machine (next_boundary before) before shown t_states after u).0
      → Reasons
  unfolding finish logged
  finish-Refused t_states after u stepped same later h =
      no_valid_record _ u.target captured stepped later refl seen
        (λ i. logged machine (same i) u.target) (keep_record-Failed _ u h)

  weigh-Refused :
      (t_states : ℕ) (u : World S)
      → machine.step (cleared machine w) ≡ (done t_states, u.target)
      → u.session ≡ w.session
      → Failed (weigh machine before shown t_states u).0
      → Reasons
  unfolding weigh capture
  weigh-Refused t_states u stepped same = go (t_states == 0) refl
    where
      rest : CpuState → Action S StepRecord
      rest = finish machine (next_boundary before) before shown t_states

      captured_after :
          Failed (machine.capture_state u.target)
            ⊎ ((a : CpuState) × (x : World S) × (capture machine u ≡ (done a, x))
                × Failed (rest a x).0)
          → Reasons
      captured_after (inl f) =
          no_after (
            subst (λ target. Failed (machine.capture_state target)) (sym (ap (λ x. x.1) stepped)) f)
      captured_after (inr (a, x, e, k)) =
          finish-Refused t_states a u stepped same (ap (λ o. o.0) e)
            (subst (λ v. Failed (rest a v).0) (sym (ap (λ o. o.1) e)) k)

      go :
          (t : Bool)
          → (t_states == 0) ≡ t
          → Failed ((if t then throw value_error else (capture machine >>= rest)) u).0
          → Reasons
      go true e h = no_time (ap (λ x. x.0) stepped ∙ ap done (ground arith))
      go false e h = captured_after (bind-Failed (capture machine) rest u h)

  take_step-Refused : Failed (take_step machine before shown w).0 → Reasons
  unfolding take_step step_target
  take_step-Refused h = stepped_on (
      bind-Failed (step_target machine) (weigh machine before shown) w1
        (subst (λ o. Failed (after_outcome o (λ _. go_on)).0) (clear_log-cleared machine w) h))
    where
      w1 : World S
      w1 = record w { target = cleared machine w }

      go_on : Action S StepRecord
      go_on = step_target machine >>= weigh machine before shown

      stepped_on :
          Failed (machine.step (cleared machine w)).0
            ⊎ ((t : ℕ) × (u : World S) × (step_target machine w1 ≡ (done t, u))
                × Failed (weigh machine before shown t u).0)
          → Reasons
      stepped_on (inl f) = no_count f
      stepped_on (inr (t, u, e, k)) =
          weigh-Refused t u (λ i. ((e i).0, (e i).1.target)) (sym (ap (λ x. x.1.session) e)) k

module _ {S : Type 0} (machine : DebugTarget S) (peek_byte : Option Reader) (fuel : ℕ)
    (w : World S) where
  pub session_step-Refused :
      Failed (session_step machine peek_byte fuel w).0 → Refused machine peek_byte fuel w
  unfolding session_step capture
  session_step-Refused h = first (bind-Failed (capture machine) after_capture w h)
    where
      look : CpuState → Action S (Option Instruction)
      look before = preview peek_byte fuel (next_boundary before) before

      after_capture : CpuState → Action S StepRecord
      after_capture before = look before >>= take_step machine before

      second :
          (before : CpuState)
          → machine.capture_state w.target ≡ done before
          → Failed (look before w).0
            ⊎ ((shown : Option Instruction) × (u : World S) × (look before w ≡ (done shown, u))
                × Failed (take_step machine before shown u).0)
          → Refused machine peek_byte fuel w
      second before e (inl f) =
          let p = preview-Failed peek_byte fuel (next_boundary before) before w f in
          no_instruction before p.1 e p.0 p.2 p.3
      second before e (inr (shown, u, k, f)) =
          let seen = preview-done peek_byte fuel (next_boundary before) before shown w u k in
          take_step-Refused machine peek_byte fuel w before shown e seen.0
            (subst (λ v. Failed (take_step machine before shown v).0) (sym seen.1) f)

      first :
          Failed (machine.capture_state w.target)
            ⊎ ((before : CpuState) × (u : World S) × (capture machine w ≡ (done before, u))
                × Failed (after_capture before u).0)
          → Refused machine peek_byte fuel w
      first (inl f) = no_before f
      first (inr (before, u, e, k)) = second before (ap (λ x. x.0) e) (
          bind-Failed (look before) (take_step machine before) w
            (subst (λ v. Failed (after_capture before v).0) (sym (ap (λ x. x.1) e)) k))
