-- ===== src/Index/Memory.antt =====
-- Indexed memory, (IX+d) and (IY+d) (src/z80_python/_index.py).
use z80_python.Base.{◌+◌, ◌<<<◌, ◌==◌, ◌>>>◌, and_not, bit_and, bit_or, if◌then◌else◌, u16, u3, ℕ}
use z80_python.Alu.{alu_a, dec, inc}
use z80_python.Core.{flagged, read_operand_byte, read_reg, signed8, unflagged, write_reg}
use z80_python.Cpu.{Cpu}
use z80_python.Index.{get_index}
use z80_python.Prog.{◌>>=◌, Prog, read_byte, ret, write_byte}
use z80_python.Rotate.{bit_flags, rot_apply}

unfoldable pub index_displacement_addr : ℕ → Cpu → Prog (ℕ × Cpu)
index_displacement_addr prefix s = do
  let base = get_index prefix s
  (displacement, s) ← read_operand_byte s
  let addr = u16 (base + signed8 displacement)
  ret (addr, record s { wz = addr })

unfoldable pub op_alu_index_mem : ℕ → ℕ → Cpu → Prog (ℕ × Cpu)
op_alu_index_mem prefix sub_opcode s = do
  (addr, s) ← index_displacement_addr prefix s
  value ← read_byte addr ret
  flagged 19 (alu_a (u3 (sub_opcode >>> 3)) value s)

-- The DD CB and FD CB handlers are given the displacement byte.
abbrev pub indexed : ℕ → ℕ → Cpu → Cpu
indexed prefix displacement s = record s { wz = u16 (get_index prefix s + signed8 displacement) }

unfoldable pub op_index_bit : ℕ → ℕ → ℕ → Cpu → Prog (ℕ × Cpu)
op_index_bit prefix displacement sub_opcode s = do
  let s = indexed prefix displacement s
  value ← read_byte s.wz ret
  flagged 20 (record s { f = bit_flags s.f value (u3 (sub_opcode >>> 3)) (s.wz >>> 8) })

-- `if dest != 6: self._write_reg(dest, value)`.
abbrev pub copy_to : ℕ → ℕ → Cpu → Prog Cpu
copy_to dest value s = if dest == 6 then ret s else write_reg dest value s

unfoldable pub op_index_rot : ℕ → ℕ → ℕ → Cpu → Prog (ℕ × Cpu)
op_index_rot prefix displacement sub_opcode s = do
  let s = indexed prefix displacement s
  x ← read_byte s.wz ret
  let (value, s) = rot_apply (u3 (sub_opcode >>> 3)) x s
  write_byte s.wz value (do s ← copy_to (u3 sub_opcode) value s; flagged 23 s)

unfoldable pub op_index_res_set : ℕ → ℕ → ℕ → Cpu → Prog (ℕ × Cpu)
op_index_res_set prefix displacement sub_opcode s = do
  let s = indexed prefix displacement s
  let mask = 1 <<< u3 (sub_opcode >>> 3)
  x ← read_byte s.wz ret
  let value = if bit_and sub_opcode 0x40 == 0 then and_not x mask else bit_or x mask
  write_byte s.wz value (do s ← copy_to (u3 sub_opcode) value s; unflagged 23 s)

unfoldable pub op_inc_index_mem : ℕ → Cpu → Prog (ℕ × Cpu)
op_inc_index_mem prefix s = do
  (addr, s) ← index_displacement_addr prefix s
  x ← read_byte addr ret
  let (r, s) = inc x s
  write_byte addr r (flagged 23 s)

unfoldable pub op_dec_index_mem : ℕ → Cpu → Prog (ℕ × Cpu)
op_dec_index_mem prefix s = do
  (addr, s) ← index_displacement_addr prefix s
  x ← read_byte addr ret
  let (r, s) = dec x s
  write_byte addr r (flagged 23 s)

unfoldable pub op_ld_r_index_mem : ℕ → ℕ → Cpu → Prog (ℕ × Cpu)
op_ld_r_index_mem prefix sub_opcode s = do
  let dest = u3 (sub_opcode >>> 3)
  (addr, s) ← index_displacement_addr prefix s
  value ← read_byte addr ret
  s ← write_reg dest value s
  unflagged 19 s

unfoldable pub op_ld_index_mem_r : ℕ → ℕ → Cpu → Prog (ℕ × Cpu)
op_ld_index_mem_r prefix sub_opcode s = do
  let src = u3 sub_opcode
  (addr, s) ← index_displacement_addr prefix s
  value ← read_reg src s
  write_byte addr value (unflagged 19 s)

unfoldable pub op_ld_index_mem_n : ℕ → Cpu → Prog (ℕ × Cpu)
op_ld_index_mem_n prefix s = do
  (addr, s) ← index_displacement_addr prefix s
  (value, s) ← read_operand_byte s
  write_byte addr value (unflagged 19 s)
