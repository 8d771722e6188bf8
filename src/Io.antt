-- ===== src/Io.antt =====
-- Input and output of a byte (src/z80_python/_io.py).
pub mod Block
use z80_python.Base.{◌+◌, ◌<<<◌, ◌==◌, ◌>>>◌, bit_and, bit_or, if◌then◌else◌, inc16, u3, u8, ℕ}
use z80_python.Core.{bc, flagged, read_operand_byte, read_reg, unflagged, write_reg}
use z80_python.Cpu.{Cpu}
use z80_python.Flags.{flag_c, szxyp}
use z80_python.Prog.{◌>>=◌, Prog, read_port, ret, write_port}

unfoldable pub op_in_a_n : Cpu → Prog (ℕ × Cpu)
op_in_a_n s = do
  (n, s) ← read_operand_byte s
  let wz = bit_or (s.a <<< 8) n
  a ← read_port wz ret
  unflagged 11 (record s { a = a; wz = inc16 wz })

unfoldable pub op_out_n_a : Cpu → Prog (ℕ × Cpu)
op_out_n_a s = do
  (n, s) ← read_operand_byte s
  let wz = bit_or (s.a <<< 8) n
  let latched = bit_or (bit_and wz 0xFF00) (u8 (wz + 1))
  write_port wz s.a (unflagged 11 (record s { wz = latched }))

unfoldable pub op_in_r_c : ℕ → Cpu → Prog (ℕ × Cpu)
op_in_r_c opcode s = do
  let dest = u3 (opcode >>> 3)
  let s = record s { wz = inc16 (bc s) }
  value ← read_port (bc s) ret
  let s = record s { f = bit_or (bit_and s.f flag_c) (szxyp value) }
  s ← (if dest == 6 then ret s else write_reg dest value s)
  flagged 12 s

unfoldable pub op_out_c_r : ℕ → Cpu → Prog (ℕ × Cpu)
op_out_c_r opcode s = do
  let src = u3 (opcode >>> 3)
  let addr = bc s
  let slot_zero = if s.cmos_out_c_zero then 0xFF else 0
  value ← (if src == 6 then ret slot_zero else read_reg src s)
  write_port addr value (unflagged 12 (record s { wz = inc16 addr }))
