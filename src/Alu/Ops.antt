-- ===== src/Alu/Ops.antt =====
-- The 8-bit handlers of `ALUMixin` (src/z80_python/_alu.py).
use z80_python.Base.{
  ◌%◌, ◌+◌, ◌-◌, ◌==◌, ◌>>>◌, ◌||◌, bit_and, bit_or, bit_xor, if◌then◌else◌, ltb, not, u3, u8, ℕ,
}
use z80_python.Alu.{alu_a, dec, inc, sub}
use z80_python.Core.{flagged, hl, read_operand_byte, read_reg, write_reg}
use z80_python.Cpu.{Cpu}
use z80_python.Flags.{flag_c, flag_h, flag_n, flag_pv, flag_s, flag_xy, flag_z, szxyp}
use z80_python.Prog.{◌>>=◌, Prog, read_byte, ret, write_byte}

unfoldable pub op_alu_r : ℕ → Cpu → Prog (ℕ × Cpu)
op_alu_r opcode s =
    let group = u3 (opcode >>> 3) in
    let src = u3 opcode in
    if src == 6
    then (do value ← read_byte (hl s) ret; flagged 7 (alu_a group value s))
    else (do value ← read_reg src s; flagged 4 (alu_a group value s))

unfoldable pub op_alu_n : ℕ → Cpu → Prog (ℕ × Cpu)
op_alu_n opcode s = do
  (value, s) ← read_operand_byte s
  flagged 7 (alu_a (u3 (opcode >>> 3)) value s)

unfoldable pub op_neg : Cpu → Prog (ℕ × Cpu)
op_neg s = let (r, s) = sub 0 s.a 0 s in flagged 8 (record s { a = r })

unfoldable pub op_inc_r : ℕ → Cpu → Prog (ℕ × Cpu)
op_inc_r opcode s = do
  let dest = u3 (opcode >>> 3)
  x ← read_reg dest s
  let (r, s) = inc x s
  s ← write_reg dest r s
  flagged 4 s

unfoldable pub op_dec_r : ℕ → Cpu → Prog (ℕ × Cpu)
op_dec_r opcode s = do
  let dest = u3 (opcode >>> 3)
  x ← read_reg dest s
  let (r, s) = dec x s
  s ← write_reg dest r s
  flagged 4 s

unfoldable pub op_inc_hl : Cpu → Prog (ℕ × Cpu)
op_inc_hl s = do
  let addr = hl s
  x ← read_byte addr ret
  let (r, s) = inc x s
  write_byte addr r (flagged 11 s)

unfoldable pub op_dec_hl : Cpu → Prog (ℕ × Cpu)
op_dec_hl s = do
  let addr = hl s
  x ← read_byte addr ret
  let (r, s) = dec x s
  write_byte addr r (flagged 11 s)

-- The correction of DAA: `a ± 0x60` and `a ± 0x06`, steered by N.
unfoldable pub daa_adjust : ℕ → ℕ → ℕ → ℕ
daa_adjust f a k = u8 (if bit_and f flag_n == 0 then a + k else a + 0x100 - k)

-- The tens digit and carry, then the units digit: the adjusted A and the carry.
unfoldable pub daa_tens : ℕ → ℕ → ℕ × ℕ
daa_tens f a =
    let carry = bit_and f flag_c in
    if not (carry == 0) || ltb 0x99 a then (daa_adjust f a 0x60, flag_c) else (a, carry)

unfoldable pub daa_units : ℕ → ℕ → ℕ
daa_units f a = if not (bit_and f flag_h == 0) || ltb 0x09 (a % 16) then daa_adjust f a 0x06 else a

unfoldable pub op_daa : Cpu → Prog (ℕ × Cpu)
op_daa s =
    let original = s.a in
    let f = s.f in
    let (a, carry) = daa_tens f s.a in
    let a = daa_units f a in
    flagged 4 (record s {
      a = a;
      f =
          bit_or
            (bit_or (bit_or (szxyp a) (bit_and (bit_xor a original) flag_h)) (bit_and f flag_n))
            carry;
    })

unfoldable pub op_cpl : Cpu → Prog (ℕ × Cpu)
op_cpl s =
    let a = bit_xor s.a 0xFF in
    let kept = bit_and s.f (bit_or (bit_or (bit_or flag_s flag_z) flag_pv) flag_c) in
    flagged 4
      (record s { a = a; f = bit_or (bit_or (bit_or kept flag_h) flag_n) (bit_and a flag_xy) })

unfoldable pub op_scf_ccf : ℕ → Cpu → Prog (ℕ × Cpu)
op_scf_ccf opcode s =
    let f = s.f in
    let xy = bit_and (if s.q == 0 then bit_or f s.a else s.a) flag_xy in
    let carry_and_h =
      if opcode == 0x37 then flag_c else if bit_and f flag_c == 0 then flag_c else flag_h in
    flagged 4 (record s {
      f = bit_or (bit_or (bit_and f (bit_or (bit_or flag_s flag_z) flag_pv)) xy) carry_and_h;
    })
