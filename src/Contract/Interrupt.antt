-- ===== src/Contract/Interrupt.antt =====
-- RESET, NMI and the maskable interrupt keep the contract, and so does `step`.
use z80_python.Base.{
  ◌&&◌, ◌*◌, ◌+◌, ◌<◌, ◌==◌, ◌||◌, ◌≡◌, ◌≢◌, Option, ap, arith, bit_and, false, if-cases, if-keeps,
  if◌then◌else◌, ltb, none, not, refl, some, true, ℕ,
}
use z80_python.Base.Bits.{bit_bounds}
use z80_python.Contract.{IsWf, Safe, Total, vector_value}
use z80_python.Contract.Execute.{Within}
use z80_python.Contract.Parts.{Safe-mono, Total-bind, inc_r-IsWf, push_word-Total}
use z80_python.Contract.Step.{Fueled, Unsupported, decode_and_execute-Fueled}
use z80_python.Core.{inc_r, push_word}
use z80_python.Core.Lifecycle.{
  accept_maskable_interrupt, accept_non_maskable_interrupt, accept_reset, accept_vector,
  enter_maskable_interrupt,
}
use z80_python.Cpu.{Cpu}
use z80_python.Prog.{◌>>=◌, Prog, raise, runtime_error}
use z80_python.Step.{is_some, run_instruction, step}

module _ (s : Cpu) (w : IsWf s) where
  accept_reset-Total : s.reset_pending ≡ true → Total (Within 27) (accept_reset s)
  unfolding accept_reset
  accept_reset-Total e = rw e (omega arith)

  accept_non_maskable_interrupt-Total :
      s.non_maskable_interrupt_pending ≡ true → Total (Within 27) (accept_non_maskable_interrupt s)
  unfolding accept_non_maskable_interrupt push_word inc_r
  accept_non_maskable_interrupt-Total e = rw (e, accept_non_maskable_interrupt) (omega bit_bounds)

  enter_maskable_interrupt-Total :
      (v : ℕ) → v < 256 → Total (Within 27) (enter_maskable_interrupt v s)
  unfolding enter_maskable_interrupt
  enter_maskable_interrupt-Total v h =
      let masked : bit_and v 0x38 < 256 = omega bit_bounds in
      if-cases (Total (Within 27)) (s.im == 0) (λ e. omega arith)
        (λ e. if-cases (Total (Within 27)) (s.im == 1) (λ e. omega arith) (λ e. omega bit_bounds))

module _ (s : Cpu) (w : IsWf s) where
  accept_vector-Safe :
      (v : ℕ)
      → v ≡ vector_value s.pending_maskable_interrupt
      → s.iff1 ≡ true
      → ltb 0 s.ei_delay ≡ false
      → Safe (Unit {0}) (Unsupported s) (Within 27) (accept_vector v s)
  unfolding accept_vector
  accept_vector-Safe v same on ready =
      let Goal = Safe (Unit {0}) (Unsupported s) (Within 27) in
      let t = record s {
        pending_maskable_interrupt = none;
        halted = false;
        iff1 = false;
        iff2 = false;
      } in
      let byte : v < 256 = rw same w.vector-lt in
      let u : IsWf t = omega arith in
      let pushed = push_word-Total (inc_r t) (inc_r-IsWf t u) (inc_r t).pc in
      let entered : Total (Within 27)
          (push_word (inc_r t).pc (inc_r t) >>= enter_maskable_interrupt v) =
        Total-bind IsWf (Within 27) (push_word (inc_r t).pc (inc_r t)) (enter_maskable_interrupt v)
          pushed (λ x y. enter_maskable_interrupt-Total x y v byte) in
      if-cases Goal (not s.iff1 || not (s.ei_delay == 0)) (λ e. absurd (ground arith))
        (λ e.
          if-cases Goal (s.im == 0 && not (bit_and v 0xC7 == 0xC7))
            (λ e'. rw (← same) (unsupported e')) (λ e'. Total-Safe _ entered))
    where
      unsupported :
          (s.im == 0 && not (bit_and v 0xC7 == 0xC7)) ≡ true → (s.im ≡ 0) × (bit_and v 0xC7 ≢ 0xC7)
      unsupported e = ground arith

      Total-Safe :
          (p : Prog (ℕ × Cpu)) → Total (Within 27) p → Safe (Unit {0}) (Unsupported s) (Within 27) p
      Total-Safe p =
          Safe-mono ⊥ (Unit {0}) (λ e. ⊥) (Unsupported s) (Within 27) (Within 27) (λ x. tt)
            (λ e x. absurd x) (λ a x. x) p

  accept_maskable_interrupt-Safe :
      s.iff1 ≡ true
      → ltb 0 s.ei_delay ≡ false
      → is_some s.pending_maskable_interrupt ≡ true
      → Safe (Unit {0}) (Unsupported s) (Within 27) (accept_maskable_interrupt s)
  unfolding accept_maskable_interrupt
  accept_maskable_interrupt-Safe on ready here = go s.pending_maskable_interrupt refl
    where
      go :
          (o : Option ℕ)
          → s.pending_maskable_interrupt ≡ o
          → Safe
              (Unit {0})
              (Unsupported s)
              (Within 27)
              (elim o [ none ↦ raise runtime_error | some v ↦ accept_vector v s ])
      go none e = cc
      go (some v) e = accept_vector-Safe v (cc (ap vector_value e)) on ready

module _ (fuel : ℕ) (s : Cpu) (w : IsWf s) where
  run_instruction-Fueled : Fueled (Within (27 + 4 * fuel)) (run_instruction fuel s)
  unfolding run_instruction
  run_instruction-Fueled =
      let t = if ltb 0 s.ei_delay then record s { ei_delay = 0 } else s in
      let ended : IsWf (record s { ei_delay = 0 }) = omega arith in
      let u : IsWf t = if-keeps IsWf (ltb 0 s.ei_delay) ended w in
      let v = inc_r-IsWf t u in
      if-cases (Fueled (Within (27 + 4 * fuel))) t.halted (λ e. omega arith)
        (λ e. decode_and_execute-Fueled fuel t u)

  -- From registers within their widths `step` passes 16-bit addresses and 8-bit values only;
  -- whatever bytes the host answers, it raises nothing but the `NotImplementedError` of IM 0 with
  -- a vector that is no RST opcode, and unless it runs out of fuel it takes from 1 to 27 + 4 *
  -- fuel T-states and leaves registers within their widths.
  pub step-Safe : Safe (Unit {0}) (Unsupported s) (Within (27 + 4 * fuel)) (step fuel s)
  unfolding step
  step-Safe =
      let Goal = Safe (Unit {0}) (Unsupported s) (Within (27 + 4 * fuel)) in
      if-cases Goal s.reset_pending (λ e. wider _ (accept_reset-Total s w e))
        (λ _.
          if-cases Goal s.non_maskable_interrupt_pending
            (λ e. wider _ (accept_non_maskable_interrupt-Total s w e))
            (λ _.
              if-cases Goal
                (s.iff1 && (not (ltb 0 s.ei_delay) && is_some s.pending_maskable_interrupt))
                (λ e.
                  Safe-mono (Unit {0}) (Unit {0}) (Unsupported s) (Unsupported s) (Within 27)
                    (Within (27 + 4 * fuel)) (λ x. x) (λ e x. x) (λ a x. omega arith)
                    (accept_maskable_interrupt s)
                    (accept_maskable_interrupt-Safe s w (ground arith) (ground arith)
                      (ground arith)))
                (λ _.
                  Safe-mono (Unit {0}) (Unit {0}) (λ e. ⊥) (Unsupported s) (Within (27 + 4 * fuel))
                    (Within (27 + 4 * fuel)) (λ x. x) (λ e x. absurd x) (λ a x. x)
                    (run_instruction fuel s) run_instruction-Fueled)))
    where
      wider :
          (p : Prog (ℕ × Cpu))
          → Total (Within 27) p
          → Safe (Unit {0}) (Unsupported s) (Within (27 + 4 * fuel)) p
      wider p =
          Safe-mono ⊥ (Unit {0}) (λ e. ⊥) (Unsupported s) (Within 27) (Within (27 + 4 * fuel))
            (λ x. tt) (λ e x. absurd x) (λ a x. omega arith) p
