-- ===== src/Control/Misc.antt =====
-- Exchanges and CPU control (src/z80_python/_control.py).
use z80_python.Base.{◌<<<◌, ◌>>>◌, Bool, bit_or, if◌then◌else◌, inc16, true, u8, ℕ}
use z80_python.Core.{bc, de, hl, unflagged, write_pair}
use z80_python.Cpu.{Cpu}
use z80_python.Prog.{◌>>=◌, Prog, read_byte, ret, write_byte}

unfoldable pub op_ex_de_hl : Cpu → Prog (ℕ × Cpu)
op_ex_de_hl s =
    let old = de s in unflagged 4 (record s { d = s.h; e = s.l; h = u8 (old >>> 8); l = u8 old })

unfoldable pub op_interrupt_enable : Bool → Cpu → Prog (ℕ × Cpu)
op_interrupt_enable enabled s =
    unflagged 4 (record s { iff1 = enabled; iff2 = enabled; ei_delay = if enabled then 1 else 0 })

unfoldable pub op_im : ℕ → Cpu → Prog (ℕ × Cpu)
op_im mode s = unflagged 8 (record s { im = mode })

unfoldable pub op_ed_nop : Cpu → Prog (ℕ × Cpu)
op_ed_nop s = unflagged 8 s

unfoldable pub op_exx : Cpu → Prog (ℕ × Cpu)
op_exx s =
    let old_bc = bc s in
    let old_de = de s in
    let old_hl = hl s in
    let s = write_pair 0 s.bc_alt s in
    let s = write_pair 1 s.de_alt s in
    let s = write_pair 2 s.hl_alt s in
    unflagged 4 (record s { bc_alt = old_bc; de_alt = old_de; hl_alt = old_hl })

unfoldable pub op_ex_sp_hl : Cpu → Prog (ℕ × Cpu)
op_ex_sp_hl s = do
  low ← read_byte s.sp ret
  high ← read_byte (inc16 s.sp) ret
  let value = bit_or low (high <<< 8)
  let old = hl s
  write_byte (inc16 s.sp) (old >>> 8) (
      write_byte s.sp (u8 old)
        (unflagged 19 (record s { h = u8 (value >>> 8); l = u8 value; wz = value })))

unfoldable pub op_halt : Cpu → Prog (ℕ × Cpu)
op_halt s = unflagged 4 (record s { halted = true })

unfoldable pub op_nop : Cpu → Prog (ℕ × Cpu)
op_nop s = unflagged 4 s

unfoldable pub op_ex_af_af : Cpu → Prog (ℕ × Cpu)
op_ex_af_af s =
    let af = bit_or (s.a <<< 8) s.f in
    unflagged 4 (record s { a = u8 (s.af_alt >>> 8); f = u8 s.af_alt; af_alt = af })
