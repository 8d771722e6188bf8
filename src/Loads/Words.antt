-- ===== src/Loads/Words.antt =====
-- The 16-bit load handlers and the stack transfers (src/z80_python/_loads.py).
use z80_python.Base.{◌<<<◌, ◌>>>◌, bit_or, inc16, u2, u8, ℕ}
use z80_python.Core.{hl, pop_word, push_word, read_operand_word, read_pair, unflagged, write_pair}
use z80_python.Cpu.{Cpu}
use z80_python.Prog.{◌>>=◌, Prog, read_byte, ret, write_byte}

unfoldable pub op_ld_nn_hl : Cpu → Prog (ℕ × Cpu)
op_ld_nn_hl s = do
  (addr, s) ← read_operand_word s
  write_byte addr s.l (let s = record s { wz = inc16 addr } in write_byte s.wz s.h (unflagged 16 s))

unfoldable pub op_ld_hl_nn_from_mem : Cpu → Prog (ℕ × Cpu)
op_ld_hl_nn_from_mem s = do
  (addr, s) ← read_operand_word s
  l ← read_byte addr ret
  let s = record s { l = l; wz = inc16 addr }
  h ← read_byte s.wz ret
  unflagged 16 (record s { h = h })

unfoldable pub op_ld_nn_rr : ℕ → Cpu → Prog (ℕ × Cpu)
op_ld_nn_rr pair_index s = do
  (addr, s) ← read_operand_word s
  let value = read_pair pair_index s
  write_byte addr (u8 value)
      (let s = record s { wz = inc16 addr } in write_byte s.wz (value >>> 8) (unflagged 20 s))

unfoldable pub op_ld_rr_nn_from_mem : ℕ → Cpu → Prog (ℕ × Cpu)
op_ld_rr_nn_from_mem pair_index s = do
  (addr, s) ← read_operand_word s
  low ← read_byte addr ret
  let s = record s { wz = inc16 addr }
  high ← read_byte s.wz ret
  unflagged 20 (write_pair pair_index (bit_or low (high <<< 8)) s)

unfoldable pub op_ld_sp_hl : Cpu → Prog (ℕ × Cpu)
op_ld_sp_hl s = unflagged 6 (record s { sp = hl s })

unfoldable pub op_pop_rr : ℕ → Cpu → Prog (ℕ × Cpu)
op_pop_rr sub_opcode s = do
  (value, s) ← pop_word s
  unflagged 10 (write_pair (u2 (sub_opcode >>> 4)) value s)

unfoldable pub op_push_rr : ℕ → Cpu → Prog (ℕ × Cpu)
op_push_rr sub_opcode s = do s ← push_word (read_pair (u2 (sub_opcode >>> 4)) s) s; unflagged 11 s

unfoldable pub op_pop_af : Cpu → Prog (ℕ × Cpu)
op_pop_af s = do
  (value, s) ← pop_word s
  unflagged 10 (record s { a = u8 (value >>> 8); f = u8 value })

unfoldable pub op_push_af : Cpu → Prog (ℕ × Cpu)
op_push_af s = do s ← push_word (bit_or (s.a <<< 8) s.f) s; unflagged 11 s

unfoldable pub op_ld_rr_nn : ℕ → Cpu → Prog (ℕ × Cpu)
op_ld_rr_nn opcode s = do
  (value, s) ← read_operand_word s
  unflagged 10 (write_pair (u2 (opcode >>> 4)) value s)
