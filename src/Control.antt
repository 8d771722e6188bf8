-- ===== src/Control.antt =====
-- Jumps, calls, returns and restarts (src/z80_python/_control.py).
pub mod Misc
pub mod Exchange
use z80_python.Base.{
  ◌&&◌, ◌+◌, ◌<<<◌, ◌==◌, ◌>>>◌, ◌||◌, Bool, bit_and, dec8, if◌then◌else◌, not, u16, u2, u3, ℕ,
}
use z80_python.Core.{
  hl, pop_word, push_word, read_operand_byte, read_operand_word, signed8, unflagged,
}
use z80_python.Cpu.{Cpu}
use z80_python.Flags.{flag_c, flag_pv, flag_s, flag_z}
use z80_python.Prog.{◌>>=◌, Prog}

-- `_CONDITIONS[cond]`: a flag and whether it must be set; the callers' numbers are below 8.
abbrev conditions : ℕ → ℕ × ℕ
conditions cond =
    if cond == 0
    then (flag_z, 0)
    else if cond == 1
    then (flag_z, flag_z)
    else if cond == 2
    then (flag_c, 0)
    else if cond == 3
    then (flag_c, flag_c)
    else if cond == 4
    then (flag_pv, 0)
    else if cond == 5
    then (flag_pv, flag_pv)
    else if cond == 6
    then (flag_s, 0)
    else (flag_s, flag_s)

unfoldable pub cond_true : ℕ → Cpu → Bool
cond_true cond s = let (mask, wanted) = conditions cond in bit_and s.f mask == wanted

unfoldable pub op_jr : ℕ → Cpu → Prog (ℕ × Cpu)
op_jr opcode s = do
  (byte, s) ← read_operand_byte s
  let displacement = signed8 byte
  let taken = opcode == 0x18 || cond_true (u2 (opcode >>> 3)) s
  let target = u16 (s.pc + displacement)
  if taken then unflagged 12 (record s { wz = target; pc = target }) else unflagged 7 s

unfoldable pub op_jp : ℕ → Cpu → Prog (ℕ × Cpu)
op_jp opcode s = do
  (wz, s) ← read_operand_word s
  let s = record s { wz = wz }
  let taken = opcode == 0xC3 || cond_true (u3 (opcode >>> 3)) s
  unflagged 10 (if taken then record s { pc = s.wz } else s)

unfoldable pub op_jp_hl : Cpu → Prog (ℕ × Cpu)
op_jp_hl s = unflagged 4 (record s { pc = hl s })

unfoldable pub op_call : ℕ → Cpu → Prog (ℕ × Cpu)
op_call opcode s = do
  (wz, s) ← read_operand_word s
  let s = record s { wz = wz }
  if not (opcode == 0xCD) && not (cond_true (u3 (opcode >>> 3)) s)
      then unflagged 10 s
      else (do s ← push_word s.pc s; unflagged 17 (record s { pc = s.wz }))

unfoldable pub op_ret : Cpu → Prog (ℕ × Cpu)
op_ret s = do (wz, s) ← pop_word s; unflagged 10 (record s { wz = wz; pc = wz })

unfoldable pub op_ret_cc : ℕ → Cpu → Prog (ℕ × Cpu)
op_ret_cc opcode s =
    if cond_true (u3 (opcode >>> 3)) s
    then (do (wz, s) ← pop_word s; unflagged 11 (record s { wz = wz; pc = wz }))
    else unflagged 5 s

unfoldable pub ret_iff : Cpu → Prog (ℕ × Cpu)
ret_iff s = do (wz, s) ← pop_word s; unflagged 14 (record s { wz = wz; pc = wz; iff1 = s.iff2 })

unfoldable pub op_retn : Cpu → Prog (ℕ × Cpu)
op_retn s = ret_iff s

unfoldable pub op_reti : Cpu → Prog (ℕ × Cpu)
op_reti s = ret_iff s

unfoldable pub op_rst : ℕ → Cpu → Prog (ℕ × Cpu)
op_rst opcode s = do
  s ← push_word s.pc s
  let target = u3 (opcode >>> 3) <<< 3
  unflagged 11 (record s { wz = target; pc = target })

unfoldable pub op_djnz : Cpu → Prog (ℕ × Cpu)
op_djnz s = do
  (byte, s) ← read_operand_byte s
  let displacement = signed8 byte
  let s = record s { b = dec8 s.b }
  let target = u16 (s.pc + displacement)
  if s.b == 0 then unflagged 8 s else unflagged 13 (record s { wz = target; pc = target })
