-- ===== src/Debug/Boundary.antt =====
-- What `next_boundary` says is what `step` does.
use z80_python.Base.{
  ◌&&◌, ◌==◌, ◌≡◌, Bool, Bool-cases, ap, arith, false, if◌then◌else◌, inl, inr, ltb, not, refl,
  true, ℕ,
}
use z80_python.Core.{inc_r}
use z80_python.Core.Lifecycle.{
  accept_maskable_interrupt, accept_non_maskable_interrupt, accept_reset,
}
use z80_python.Cpu.{Cpu}
use z80_python.Debug.{
  BoundaryKind, halt_idle, instruction, maskable_interrupt, next_boundary, non_maskable_interrupt,
  reset,
}
use z80_python.Dispatch.Execute.{decode_and_execute}
use z80_python.Prog.{Prog, ret}
use z80_python.State.{snapshot}
use z80_python.Step.{is_some, run_instruction, step}

-- What `step` does at a boundary of each kind, an ended EI delay left aside.
abbrev pub carry_out : ℕ → BoundaryKind → Cpu → Prog (ℕ × Cpu)
carry_out fuel reset s = accept_reset s
carry_out fuel non_maskable_interrupt s = accept_non_maskable_interrupt s
carry_out fuel maskable_interrupt s = accept_maskable_interrupt s
carry_out fuel halt_idle s = ret (4, record (inc_r s) { q = 0; ei_delay = 0 })
carry_out fuel instruction s = decode_and_execute fuel (record s { ei_delay = 0 })

no_delay :
    (s : Cpu)
    → (if ltb 0 s.ei_delay then record s { ei_delay = 0 } else s) ≡ record s { ei_delay = 0 }
no_delay s = elim (Bool-cases (ltb 0 s.ei_delay)) [
  | inl e ↦ rw e refl
  | inr e ↦
      let none_left : s.ei_delay ≡ 0 = ground arith in
      rw e (ap (λ n. record s { ei_delay = n }) none_left)
]

same_test :
    (enabled requested : Bool) (delay : ℕ)
    → (enabled && (not (ltb 0 delay) && requested)) ≡ (requested && (enabled && delay == 0))
same_test true true delay = ground arith
same_test true false delay = ground arith
same_test false true delay = refl
same_test false false delay = refl

chosen :
    (fuel : ℕ) (s : Cpu) (first second third fourth : Bool)
    → (if first
        then accept_reset s
        else if second
        then accept_non_maskable_interrupt s
        else if third
        then accept_maskable_interrupt s
        else if fourth
        then ret (4, record (inc_r s) { q = 0; ei_delay = 0 })
        else decode_and_execute fuel (record s { ei_delay = 0 }))
      ≡ carry_out fuel
          (if first
            then reset
            else if second
            then non_maskable_interrupt
            else if third
            then maskable_interrupt
            else if fourth
            then halt_idle
            else instruction)
          s
chosen fuel s true second third fourth = refl
chosen fuel s false true third fourth = refl
chosen fuel s false false true fourth = refl
chosen fuel s false false false true = refl
chosen fuel s false false false false = refl

-- `step` does what `next_boundary` says of the state captured before it: RESET before NMI before
-- the maskable interrupt, which waits for an EI delay to end; then a halted CPU idles for 4
-- T-states, and any other decodes an instruction with the EI delay over.
pub step-next_boundary :
    (fuel : ℕ) (s : Cpu) → step fuel s ≡ carry_out fuel (next_boundary (snapshot s)) s
unfolding step next_boundary snapshot run_instruction inc_r
step-next_boundary fuel s =
    let vector = s.pending_maskable_interrupt in
    rw (no_delay s, same_test s.iff1 (is_some vector) s.ei_delay)
      (chosen fuel s s.reset_pending s.non_maskable_interrupt_pending
        (is_some vector && (s.iff1 && s.ei_delay == 0)) s.halted)
