-- ===== src/Index/Byte.antt =====
-- The halves of IX and IY as 8-bit operands (src/z80_python/_index.py).
use z80_python.Base.{◌==◌, ◌>>>◌, Bool, if◌then◌else◌, u3, ℕ}
use z80_python.Alu.{alu_a, dec, inc}
use z80_python.Core.{flagged, read_operand_byte, read_reg, unflagged, write_reg}
use z80_python.Cpu.{Cpu}
use z80_python.Index.{index_high_byte, index_low_byte, set_index_high_byte, set_index_low_byte}
use z80_python.Prog.{◌>>=◌, Prog}

-- The half that bits 2-0 (a source) or bits 5-3 (a destination) name: 4 is the high one.
abbrev pub half : Bool → ℕ → Cpu → ℕ
half high prefix s = if high then index_high_byte prefix s else index_low_byte prefix s

abbrev pub set_half : Bool → ℕ → ℕ → Cpu → Cpu
set_half high prefix value s =
    if high then set_index_high_byte prefix value s else set_index_low_byte prefix value s

unfoldable pub op_ld_r_index_byte : ℕ → ℕ → Cpu → Prog (ℕ × Cpu)
op_ld_r_index_byte prefix sub_opcode s = do
  let value = half (u3 sub_opcode == 4) prefix s
  s ← write_reg (u3 (sub_opcode >>> 3)) value s
  unflagged 8 s

unfoldable pub op_ld_index_byte_index_byte : ℕ → ℕ → Cpu → Prog (ℕ × Cpu)
op_ld_index_byte_index_byte prefix sub_opcode s =
    let value = half (u3 sub_opcode == 4) prefix s in
    unflagged 8 (set_half (u3 (sub_opcode >>> 3) == 4) prefix value s)

unfoldable pub op_ld_index_byte_r : ℕ → ℕ → Cpu → Prog (ℕ × Cpu)
op_ld_index_byte_r prefix sub_opcode s = do
  value ← read_reg (u3 sub_opcode) s
  unflagged 8 (set_half (u3 (sub_opcode >>> 3) == 4) prefix value s)

unfoldable pub op_ld_index_byte_n : ℕ → ℕ → Cpu → Prog (ℕ × Cpu)
op_ld_index_byte_n prefix sub_opcode s = do
  (value, s) ← read_operand_byte s
  unflagged 11 (set_half (u3 (sub_opcode >>> 3) == 4) prefix value s)

unfoldable pub op_inc_dec_index_byte : ℕ → ℕ → Cpu → Prog (ℕ × Cpu)
op_inc_dec_index_byte prefix sub_opcode s =
    let is_high_byte = u3 (sub_opcode >>> 3) == 4 in
    let value = half is_high_byte prefix s in
    let (result, s) = if u3 sub_opcode == 4 then inc value s else dec value s in
    flagged 8 (set_half is_high_byte prefix result s)

unfoldable pub op_alu_index_byte : ℕ → ℕ → Cpu → Prog (ℕ × Cpu)
op_alu_index_byte prefix sub_opcode s =
    let value = half (u3 sub_opcode == 4) prefix s in
    flagged 8 (alu_a (u3 (sub_opcode >>> 3)) value s)
