-- ===== src/Io/Block.antt =====
-- Block input and output (src/z80_python/_io.py).
use z80_python.Base.{
  ◌%◌, ◌+◌, ◌-◌, ◌==◌, ◌>>>◌, Bool, and_not, bit_and, bit_or, bit_xor, dec16, dec8, false,
  if◌then◌else◌, inc16, ltb, not, true, u3, u8, ℕ,
}
use z80_python.Blocks.{block_repeat, move16, once, put_hl}
use z80_python.Core.{bc, flagged, hl}
use z80_python.Cpu.{Cpu}
use z80_python.Flags.{flag_c, flag_h, flag_n, flag_pv, flag_xy, parity, szxy}
use z80_python.Prog.{◌>>=◌, Prog, read_byte, read_port, ret, write_byte, write_port}

unfoldable pub block_io_flags : ℕ → ℕ → ℕ → ℕ
block_io_flags total value b =
    let carry = if ltb 0xFF total then bit_or flag_h flag_c else 0 in
    bit_or (bit_or (bit_or (szxy b) (bit_and (value >>> 6) flag_n)) (parity (bit_xor (u3 total) b)))
      carry

-- INI and IND. The port is BC before B goes down: `self.wz ∓ 1` of `self.wz = BC ± 1`.
unfoldable pub block_ini : Bool → Cpu → Prog (Bool × Cpu)
block_ini increment s = do
  let s = record s { wz = move16 increment (bc s) }
  let port = if increment then dec16 s.wz else inc16 s.wz
  value ← read_port port ret
  let adj = if increment then u8 (s.c + 1) else dec8 s.c
  let s = record s { io_data = value; b = dec8 s.b }
  write_byte (hl s) value (
      let s = put_hl (move16 increment (hl s)) s in
      let s = record s { f = block_io_flags (adj + value) value s.b } in ret (not (s.b == 0), s))

unfoldable pub block_outi : Bool → Cpu → Prog (Bool × Cpu)
block_outi increment s = do
  let src = hl s
  value ← read_byte src ret
  let s = put_hl (move16 increment src) (record s { io_data = value })
  let s = record s { b = dec8 s.b }
  let addr = bc s
  write_port addr value (
      let s = record s { wz = move16 increment addr } in
      let s = record s { f = block_io_flags (s.l + value) value s.b } in ret (not (s.b == 0), s))

-- `f ^= PARITY[x] ^ FLAG_PV`.
unfoldable pub flip_pv : ℕ → ℕ → ℕ
flip_pv f x = bit_xor f (bit_xor (parity x) flag_pv)

-- `(f & ~FLAG_H) | (FLAG_H if test else 0)`.
unfoldable pub put_h : Bool → ℕ → ℕ
put_h test f = bit_or (and_not f flag_h) (if test then flag_h else 0)

-- The flags of a repeat, from the rewound PC, B and the byte moved.
unfoldable pub post_flags : ℕ → ℕ → ℕ → ℕ → ℕ
post_flags f pc b io_data =
    let f = bit_or (and_not f flag_xy) (bit_and (pc >>> 8) flag_xy) in
    if bit_and f flag_c == 0
    then flip_pv f (u3 b)
    else if bit_and io_data 0x80 == 0
    then put_h (b % 16 == 0x0F) (flip_pv f (u3 (b + 1)))
    else put_h (b % 16 == 0) (flip_pv f (u3 (b + 8 - 1)))

unfoldable pub post_in_o_r : Cpu → Cpu
post_in_o_r s = record s { f = post_flags s.f s.pc s.b s.io_data }

unfoldable pub op_ini : Cpu → Prog (ℕ × Cpu)
op_ini s = once (block_ini true s)

unfoldable pub op_ind : Cpu → Prog (ℕ × Cpu)
op_ind s = once (block_ini false s)

unfoldable pub op_outi : Cpu → Prog (ℕ × Cpu)
op_outi s = once (block_outi true s)

unfoldable pub op_outd : Cpu → Prog (ℕ × Cpu)
op_outd s = once (block_outi false s)

-- INIR, INDR, OTIR and OTDR.
abbrev pub rewind_io : Prog (Bool × Cpu) → Prog (ℕ × Cpu)
rewind_io round = do
  (repeat, s) ← round
  let s = if repeat then post_in_o_r (block_repeat s) else s
  flagged (if repeat then 21 else 16) s

unfoldable pub op_inir : Cpu → Prog (ℕ × Cpu)
op_inir s = rewind_io (block_ini true s)

unfoldable pub op_indr : Cpu → Prog (ℕ × Cpu)
op_indr s = rewind_io (block_ini false s)

unfoldable pub op_otir : Cpu → Prog (ℕ × Cpu)
op_otir s = rewind_io (block_outi true s)

unfoldable pub op_otdr : Cpu → Prog (ℕ × Cpu)
op_otdr s = rewind_io (block_outi false s)
