-- ===== src/Rotate/Ops.antt =====
-- The rotate, shift and bit handlers (src/z80_python/_rotate.py).
use z80_python.Base.{◌%◌, ◌-◌, ◌<<<◌, ◌==◌, ◌>>>◌, bit_and, bit_or, if◌then◌else◌, inc16, u3, u8, ℕ}
use z80_python.Core.{flagged, hl, read_reg, unflagged, write_reg}
use z80_python.Cpu.{Cpu}
use z80_python.Flags.{flag_c, flag_pv, flag_s, flag_xy, flag_z, szxyp}
use z80_python.Prog.{◌>>=◌, Prog, read_byte, ret, write_byte}
use z80_python.Rotate.{bit_flags, rot_apply}

unfoldable pub op_rot : ℕ → Cpu → Prog (ℕ × Cpu)
op_rot sub_opcode s =
    let group = u3 (sub_opcode >>> 3) in
    let dest = u3 sub_opcode in
    if dest == 6
    then (do
      let addr = hl s
      x ← read_byte addr ret
      let (r, s) = rot_apply group x s
      write_byte addr r (flagged 15 s))
    else (do
      x ← read_reg dest s
      let (r, s) = rot_apply group x s
      s ← write_reg dest r s
      flagged 8 s)

-- F of the accumulator rotates: S, Z and PV are kept.
unfoldable pub acc_flags : ℕ → ℕ → ℕ → ℕ
acc_flags f a carry =
    bit_or (bit_or (bit_and f (bit_or (bit_or flag_s flag_z) flag_pv)) (bit_and a flag_xy)) carry

unfoldable pub op_rlca : Cpu → Prog (ℕ × Cpu)
op_rlca s =
    let a = u8 (bit_or (s.a <<< 1) (s.a >>> 7)) in
    let kept = bit_and s.f (bit_or (bit_or flag_s flag_z) flag_pv) in
    flagged 4 (record s { a = a; f = bit_or kept (bit_and a (bit_or flag_xy flag_c)) })

unfoldable pub op_rrca : Cpu → Prog (ℕ × Cpu)
op_rrca s =
    let carry = bit_and s.a 1 in
    let a = u8 (bit_or (s.a >>> 1) (s.a <<< 7)) in
    flagged 4 (record s { a = a; f = acc_flags s.f a carry })

unfoldable pub op_rla : Cpu → Prog (ℕ × Cpu)
op_rla s =
    let carry = s.a >>> 7 in
    let a = u8 (bit_or (s.a <<< 1) (bit_and s.f flag_c)) in
    flagged 4 (record s { a = a; f = acc_flags s.f a carry })

unfoldable pub op_rra : Cpu → Prog (ℕ × Cpu)
op_rra s =
    let carry = bit_and s.a 1 in
    let a = bit_or (s.a >>> 1) (bit_and s.f flag_c <<< 7) in
    flagged 4 (record s { a = a; f = acc_flags s.f a carry })

unfoldable pub op_bit : ℕ → Cpu → Prog (ℕ × Cpu)
op_bit sub_opcode s =
    let bit_index = u3 (sub_opcode >>> 3) in
    let src = u3 sub_opcode in
    if src == 6
    then (do
      value ← read_byte (hl s) ret
      flagged 12 (record s { f = bit_flags s.f value bit_index (u8 (s.wz >>> 8)) }))
    else (do
      value ← read_reg src s
      flagged 8 (record s { f = bit_flags s.f value bit_index value }))

-- `mask = ~(1 << bit_index) & 0xFF`.
unfoldable pub res_mask : ℕ → ℕ
res_mask bit_index = 0xFF - 1 <<< bit_index

unfoldable pub op_res : ℕ → Cpu → Prog (ℕ × Cpu)
op_res sub_opcode s =
    let bit_index = u3 (sub_opcode >>> 3) in
    let dest = u3 sub_opcode in
    let mask = res_mask bit_index in
    if dest == 6
    then (do
      let addr = hl s
      x ← read_byte addr ret
      write_byte addr (bit_and x mask) (unflagged 15 s))
    else (do x ← read_reg dest s; s ← write_reg dest (bit_and x mask) s; unflagged 8 s)

unfoldable pub op_set : ℕ → Cpu → Prog (ℕ × Cpu)
op_set sub_opcode s =
    let bit_index = u3 (sub_opcode >>> 3) in
    let dest = u3 sub_opcode in
    let mask = 1 <<< bit_index in
    if dest == 6
    then (do
      let addr = hl s
      x ← read_byte addr ret
      write_byte addr (bit_or x mask) (unflagged 15 s))
    else (do x ← read_reg dest s; s ← write_reg dest (bit_or x mask) s; unflagged 8 s)

unfoldable pub op_rrd : Cpu → Prog (ℕ × Cpu)
op_rrd s = do
  let addr = hl s
  let s = record s { wz = inc16 addr }
  x ← read_byte addr ret
  let a = bit_or (bit_and s.a 0xF0) (x % 16)
  let f = bit_or (bit_and s.f flag_c) (szxyp a)
  write_byte addr (u8 (bit_or (x >>> 4) (s.a <<< 4))) (flagged 18 (record s { a = a; f = f }))

unfoldable pub op_rld : Cpu → Prog (ℕ × Cpu)
op_rld s = do
  let addr = hl s
  let s = record s { wz = inc16 addr }
  x ← read_byte addr ret
  let a = bit_or (bit_and s.a 0xF0) (x >>> 4)
  let f = bit_or (bit_and s.f flag_c) (szxyp a)
  write_byte addr (u8 (bit_or (x <<< 4) (s.a % 16))) (flagged 18 (record s { a = a; f = f }))
