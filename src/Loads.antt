-- ===== src/Loads.antt =====
-- The 8-bit load handlers and PUSH and POP (src/z80_python/_loads.py).
pub mod Words
use z80_python.Base.{
  ◌+◌, ◌<<<◌, ◌==◌, ◌>>>◌, Bool, bit_and, bit_or, if◌then◌else◌, inc16, u16, u3, u8, ℕ,
}
use z80_python.Core.{
  bc, de, flagged, hl, read_operand_byte, read_operand_word, read_reg, unflagged, write_reg,
}
use z80_python.Cpu.{Cpu}
use z80_python.Flags.{flag_c, flag_pv, szxy}
use z80_python.Prog.{◌>>=◌, Prog, read_byte, ret, write_byte}

unfoldable pub op_ld_r_r : ℕ → Cpu → Prog (ℕ × Cpu)
op_ld_r_r opcode s = do
  let dest = u3 (opcode >>> 3)
  let src = u3 opcode
  value ← (if src == 6 then read_byte (hl s) ret else read_reg src s)
  let t_states = if src == 6 then 7 else 4
  if dest == 6
      then write_byte (hl s) value (unflagged 7 s)
      else (do s ← write_reg dest value s; unflagged t_states s)

unfoldable pub op_ld_r_n : ℕ → Cpu → Prog (ℕ × Cpu)
op_ld_r_n opcode s = do
  (value, s) ← read_operand_byte s
  let dest = u3 (opcode >>> 3)
  if dest == 6
      then write_byte (hl s) value (unflagged 10 s)
      else (do s ← write_reg dest value s; unflagged 7 s)

unfoldable pub op_ld_a_irr : ℕ → Cpu → Prog (ℕ × Cpu)
op_ld_a_irr opcode s = do
  let wz = if opcode == 0x0A then bc s else de s
  a ← read_byte wz ret
  unflagged 7 (record s { a = a; wz = inc16 wz })

-- WZ after a write of A to `wz`: the low byte goes on, the high byte is A.
unfoldable pub latch_a : ℕ → ℕ → ℕ
latch_a a wz = u16 (bit_or (a <<< 8) (u8 (wz + 1)))

unfoldable pub op_ld_irr_a : ℕ → Cpu → Prog (ℕ × Cpu)
op_ld_irr_a opcode s =
    let wz = if opcode == 0x02 then bc s else de s in
    write_byte wz s.a (unflagged 7 (record s { wz = latch_a s.a wz }))

unfoldable pub op_ld_a_inn : Cpu → Prog (ℕ × Cpu)
op_ld_a_inn s = do
  (wz, s) ← read_operand_word s
  a ← read_byte wz ret
  unflagged 13 (record s { a = a; wz = inc16 wz })

unfoldable pub op_ld_inn_a : Cpu → Prog (ℕ × Cpu)
op_ld_inn_a s = do
  (wz, s) ← read_operand_word s
  write_byte wz s.a (unflagged 13 (record s { wz = latch_a s.a wz }))

unfoldable pub op_ld_i_a : Cpu → Prog (ℕ × Cpu)
op_ld_i_a s = unflagged 9 (record s { i = s.a })

unfoldable pub op_ld_r_a : Cpu → Prog (ℕ × Cpu)
op_ld_r_a s = unflagged 9 (record s { r = s.a })

-- F of LD A,I and LD A,R: PV reports IFF2.
unfoldable pub ld_a_flags : ℕ → ℕ → Bool → ℕ
ld_a_flags f a iff2 = bit_or (bit_or (bit_and f flag_c) (szxy a)) (if iff2 then flag_pv else 0)

unfoldable pub op_ld_a_i : Cpu → Prog (ℕ × Cpu)
op_ld_a_i s = flagged 9 (record s { a = s.i; f = ld_a_flags s.f s.i s.iff2 })

unfoldable pub op_ld_a_r : Cpu → Prog (ℕ × Cpu)
op_ld_a_r s = flagged 9 (record s { a = s.r; f = ld_a_flags s.f s.r s.iff2 })
