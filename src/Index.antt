-- ===== src/Index.antt =====
-- IX and IY: selection by prefix, halves, and the 16-bit handlers (src/z80_python/_index.py).
pub mod Byte
pub mod Memory
use z80_python.Base.{◌+◌, ◌-◌, ◌<<<◌, ◌==◌, ◌>>>◌, bit_or, if◌then◌else◌, inc16, u16, u2, u8, ℕ}
use z80_python.Alu.Ops16.{add16_keep_szpv}
use z80_python.Core.{flagged, pop_word, push_word, read_operand_word, read_pair, unflagged}
use z80_python.Cpu.{Cpu}
use z80_python.Prog.{◌>>=◌, Prog, read_byte, ret, write_byte}

unfoldable pub get_index : ℕ → Cpu → ℕ
get_index prefix s = if prefix == 0xDD then s.ix else s.iy

unfoldable pub set_index : ℕ → ℕ → Cpu → Cpu
set_index prefix value s =
    let value = u16 value in
    if prefix == 0xDD then record s { ix = value } else record s { iy = value }

unfoldable pub index_high_byte : ℕ → Cpu → ℕ
index_high_byte prefix s = u8 (get_index prefix s >>> 8)

unfoldable pub index_low_byte : ℕ → Cpu → ℕ
index_low_byte prefix s = u8 (get_index prefix s)

unfoldable pub set_index_high_byte : ℕ → ℕ → Cpu → Cpu
set_index_high_byte prefix value s =
    set_index prefix (bit_or (u8 value <<< 8) (index_low_byte prefix s)) s

unfoldable pub set_index_low_byte : ℕ → ℕ → Cpu → Cpu
set_index_low_byte prefix value s =
    set_index prefix (bit_or (index_high_byte prefix s <<< 8) (u8 value)) s

unfoldable pub op_add_index_rr : ℕ → ℕ → Cpu → Prog (ℕ × Cpu)
op_add_index_rr prefix sub_opcode s =
    let pair_index = u2 (sub_opcode >>> 4) in
    let index = get_index prefix s in
    let value = if pair_index == 2 then index else read_pair pair_index s in
    let s = record s { wz = inc16 index } in
    let (r, s) = add16_keep_szpv index value s in flagged 15 (set_index prefix r s)

unfoldable pub op_ld_index_nn : ℕ → Cpu → Prog (ℕ × Cpu)
op_ld_index_nn prefix s = do
  (value, s) ← read_operand_word s
  unflagged 14 (set_index prefix value s)

unfoldable pub op_ld_nn_index : ℕ → Cpu → Prog (ℕ × Cpu)
op_ld_nn_index prefix s = do
  (addr, s) ← read_operand_word s
  let index = get_index prefix s
  write_byte addr (u8 index)
      (let s = record s { wz = inc16 addr } in write_byte s.wz (index >>> 8) (unflagged 20 s))

unfoldable pub op_ld_index_nn_from_mem : ℕ → Cpu → Prog (ℕ × Cpu)
op_ld_index_nn_from_mem prefix s = do
  (addr, s) ← read_operand_word s
  low ← read_byte addr ret
  let s = record s { wz = inc16 addr }
  high ← read_byte s.wz ret
  unflagged 20 (set_index prefix (bit_or low (high <<< 8)) s)

unfoldable pub op_inc_index : ℕ → Cpu → Prog (ℕ × Cpu)
op_inc_index prefix s = unflagged 10 (set_index prefix (get_index prefix s + 1) s)

-- The difference is -1 at 0: 2 ^ 16 is added, and `set_index` wraps.
unfoldable pub op_dec_index : ℕ → Cpu → Prog (ℕ × Cpu)
op_dec_index prefix s = unflagged 10 (set_index prefix (get_index prefix s + 0x10000 - 1) s)

unfoldable pub op_pop_index : ℕ → Cpu → Prog (ℕ × Cpu)
op_pop_index prefix s = do (value, s) ← pop_word s; unflagged 14 (set_index prefix value s)

unfoldable pub op_push_index : ℕ → Cpu → Prog (ℕ × Cpu)
op_push_index prefix s = do s ← push_word (get_index prefix s) s; unflagged 15 s

unfoldable pub op_ex_sp_index : ℕ → Cpu → Prog (ℕ × Cpu)
op_ex_sp_index prefix s = do
  low ← read_byte s.sp ret
  high ← read_byte (inc16 s.sp) ret
  let value = bit_or low (high <<< 8)
  let index = get_index prefix s
  write_byte (inc16 s.sp) (index >>> 8) (
      write_byte s.sp (u8 index)
        (let s = set_index prefix value s in unflagged 23 (record s { wz = value })))

unfoldable pub op_jp_index : ℕ → Cpu → Prog (ℕ × Cpu)
op_jp_index prefix s = unflagged 8 (record s { pc = get_index prefix s })

unfoldable pub op_ld_sp_index : ℕ → Cpu → Prog (ℕ × Cpu)
op_ld_sp_index prefix s = unflagged 10 (record s { sp = get_index prefix s })
