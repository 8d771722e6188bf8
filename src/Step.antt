-- ===== src/Step.antt =====
-- `Z80CPU.step` and the request lines (src/z80_python/cpu.py).
use z80_python.Base.{◌&&◌, Bool, Option, false, if◌then◌else◌, leb, ltb, none, not, some, true, ℕ}
use z80_python.Core.{inc_r}
use z80_python.Core.Lifecycle.{
  accept_maskable_interrupt, accept_non_maskable_interrupt, accept_reset,
}
use z80_python.Cpu.{Cpu}
use z80_python.Dispatch.Execute.{decode_and_execute}
use z80_python.Prog.{Prog, ret}

-- `step` after the pending requests: the EI delay ends, and a halted CPU idles.
unfoldable pub run_instruction : ℕ → Cpu → Prog (ℕ × Cpu)
run_instruction fuel s =
    let s = if ltb 0 s.ei_delay then record s { ei_delay = 0 } else s in
    if s.halted then ret (4, record (inc_r s) { q = 0 }) else decode_and_execute fuel s

abbrev pub is_some {ℓ} : {A : Type ℓ} → Option A → Bool
is_some none = false
is_some (some x) = true

unfoldable pub step : ℕ → Cpu → Prog (ℕ × Cpu)
step fuel s =
    if s.reset_pending
    then accept_reset s
    else if s.non_maskable_interrupt_pending
    then accept_non_maskable_interrupt s
    else if s.iff1 && (not (ltb 0 s.ei_delay) && is_some s.pending_maskable_interrupt)
    then accept_maskable_interrupt s
    else run_instruction fuel s

unfoldable pub request_reset : Cpu → Cpu
request_reset s = record s { reset_pending = true }

unfoldable pub clear_reset : Cpu → Cpu
clear_reset s = record s { reset_pending = false }

-- `none` is the `ValueError` of a vector that is no byte.
unfoldable pub request_maskable_interrupt : ℕ → Cpu → Option Cpu
request_maskable_interrupt vector_byte s =
    if leb vector_byte 0xFF
    then some (record s { pending_maskable_interrupt = some vector_byte })
    else none

unfoldable pub clear_maskable_interrupt : Cpu → Cpu
clear_maskable_interrupt s = record s { pending_maskable_interrupt = none }

unfoldable pub request_non_maskable_interrupt : Cpu → Cpu
request_non_maskable_interrupt s = record s { non_maskable_interrupt_pending = true }

unfoldable pub clear_non_maskable_interrupt : Cpu → Cpu
clear_non_maskable_interrupt s = record s { non_maskable_interrupt_pending = false }
