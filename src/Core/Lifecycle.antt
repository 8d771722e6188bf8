-- ===== src/Core/Lifecycle.antt =====
-- RESET and interrupt acceptance (`CoreMixin._accept_*`, src/z80_python/_core.py). Each returns the
-- T-states with the new state; an exception is raised before anything is changed.
use z80_python.Base.{
  ◌&&◌, ◌<<<◌, ◌==◌, ◌||◌, bit_and, bit_or, false, if◌then◌else◌, inc16, ltb, none, not, some, u8,
  ℕ,
}
use z80_python.Core.{inc_r, push_word}
use z80_python.Cpu.{Cpu}
use z80_python.Prog.{◌>>=◌, Prog, not_implemented, raise, read_byte, ret, runtime_error}

unfoldable pub accept_reset : Cpu → Prog (ℕ × Cpu)
accept_reset s =
    if not s.reset_pending
    then raise runtime_error
    else ret (
      3,
      record s {
        pc = 0;
        im = 0;
        i = 0;
        r = 0;
        iff1 = false;
        iff2 = false;
        halted = false;
        ei_delay = 0;
        q = 0;
      },
    )

unfoldable pub accept_non_maskable_interrupt : Cpu → Prog (ℕ × Cpu)
accept_non_maskable_interrupt s =
    if not s.non_maskable_interrupt_pending then raise runtime_error else (do
      let s = record s { non_maskable_interrupt_pending = false; halted = false }
      let erratum = s.ei_nmi_iff2_erratum && ltb 0 s.ei_delay
      let s = record s { iff2 = if erratum then false else s.iff1 }
      let s = record s { iff1 = false }
      let s = inc_r s
      s ← push_word s.pc s
      ret (11, record s { wz = 0x0066; pc = 0x0066; q = 0 }))

-- IM 0 with an RST opcode, IM 1, and the vector table of IM 2.
unfoldable pub enter_maskable_interrupt : ℕ → Cpu → Prog (ℕ × Cpu)
enter_maskable_interrupt vector_byte s =
    if s.im == 0
    then ret (13, record s { wz = bit_and vector_byte 0x38; pc = bit_and vector_byte 0x38; q = 0 })
    else if s.im == 1
    then ret (13, record s { wz = 0x0038; pc = 0x0038; q = 0 })
    else (do
      let vector_address = bit_or (u8 s.i <<< 8) vector_byte
      low ← read_byte vector_address ret
      high ← read_byte (inc16 vector_address) ret
      let target = bit_or (high <<< 8) low
      ret (19, record s { wz = target; pc = target; q = 0 }))

unfoldable pub accept_vector : ℕ → Cpu → Prog (ℕ × Cpu)
accept_vector vector_byte s =
    if not s.iff1 || not (s.ei_delay == 0)
    then raise runtime_error
    else if s.im == 0 && not (bit_and vector_byte 0xC7 == 0xC7)
    then raise not_implemented
    else (do
      let s = record s { pending_maskable_interrupt = none; halted = false }
      let s = record s { iff1 = false; iff2 = false }
      let s = inc_r s
      s ← push_word s.pc s
      enter_maskable_interrupt vector_byte s)

unfoldable pub accept_maskable_interrupt : Cpu → Prog (ℕ × Cpu)
accept_maskable_interrupt s = elim s.pending_maskable_interrupt [
  | none ↦ raise runtime_error
  | some vector_byte ↦ accept_vector vector_byte s
]
