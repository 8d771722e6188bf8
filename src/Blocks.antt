-- ===== src/Blocks.antt =====
-- Block transfer and search (src/z80_python/_blocks.py).
use z80_python.Base.{
  ◌&&◌, ◌+◌, ◌-◌, ◌<<<◌, ◌==◌, ◌>>>◌, Bool, and_not, bit_and, bit_or, bit_xor, dec16, false,
  if◌then◌else◌, inc16, not, true, u16, u8, ℕ,
}
use z80_python.Core.{bc, de, flagged, hl}
use z80_python.Cpu.{Cpu}
use z80_python.Flags.{flag_c, flag_h, flag_n, flag_pv, flag_s, flag_x, flag_xy, flag_z}
use z80_python.Prog.{◌>>=◌, Prog, read_byte, ret, write_byte}

-- `src ± 1`, as the direction says.
abbrev pub move16 : Bool → ℕ → ℕ
move16 increment x = if increment then inc16 x else dec16 x

-- `self.h, self.l = …`, and so for DE and BC.
abbrev pub put_hl : ℕ → Cpu → Cpu
put_hl v s = record s { h = u8 (v >>> 8); l = u8 v }

abbrev pub put_de : ℕ → Cpu → Cpu
put_de v s = record s { d = u8 (v >>> 8); e = u8 v }

abbrev pub put_bc : ℕ → Cpu → Cpu
put_bc v s = record s { b = u8 (v >>> 8); c = u8 v }

-- X and Y of a block instruction: bit 3 of `n`, and its bit 1 moved up to bit 5.
unfoldable pub block_xy : ℕ → ℕ
block_xy n = bit_or (bit_and n flag_x) (bit_and n 0x02 <<< 4)

unfoldable pub block_ld_flags : ℕ → ℕ → ℕ → ℕ
block_ld_flags f n count =
    bit_or (bit_or (bit_and f (bit_or (bit_or flag_s flag_z) flag_c)) (block_xy n))
      (if count == 0 then 0 else flag_pv)

-- The flag is the method's result, `bc != 0`.
unfoldable pub block_ld : Bool → Cpu → Prog (Bool × Cpu)
block_ld increment s = do
  let src = hl s
  value ← read_byte src ret
  let dst = de s
  write_byte dst value (
      let s = put_de (move16 increment dst) (put_hl (move16 increment src) s) in
      let count = dec16 (bc s) in
      let s = put_bc count s in
      ret (not (count == 0), record s { f = block_ld_flags s.f (s.a + value) count }))

-- C kept, S and Z of the difference, H.
unfoldable pub search_flags : ℕ → ℕ → ℕ → ℕ
search_flags f result half =
    bit_or
      (bit_or (bit_or (bit_and f flag_c) (bit_and result flag_s))
        (if result == 0 then flag_z else 0))
      half

-- F of a search step. `result - (half >> 4)` may be -1; 0x100 is added, and its bits 3 and 1 are
-- read.
unfoldable pub block_cp_flags : ℕ → ℕ → ℕ → ℕ → ℕ
block_cp_flags f a value count =
    let result = u8 (a + 0x100 - value) in
    let half = bit_and (bit_xor (bit_xor a value) result) flag_h in
    let n = result + 0x100 - half >>> 4 in
    bit_or (bit_or (search_flags f result half) (block_xy n))
      (bit_or (if count == 0 then 0 else flag_pv) flag_n)

unfoldable pub block_cp : Bool → Cpu → Prog (Bool × Cpu)
block_cp increment s = do
  let src = hl s
  value ← read_byte src ret
  let s = put_hl (move16 increment src) (record s { wz = move16 increment s.wz })
  let result = u8 (s.a + 0x100 - value)
  let count = dec16 (bc s)
  let s = put_bc count s
  ret (not (count == 0) && not (result == 0), record s { f = block_cp_flags s.f s.a value count })

unfoldable pub block_repeat : Cpu → Cpu
block_repeat s =
    let pc = u16 (s.pc + 0x10000 - 2) in
    record s {
      pc = pc;
      wz = inc16 pc;
      f = bit_or (and_not s.f flag_xy) (bit_and (pc >>> 8) flag_xy);
    }

-- LDI, LDD, CPI and CPD: one round.
abbrev pub once : Prog (Bool × Cpu) → Prog (ℕ × Cpu)
once round = do (again, s) ← round; flagged 16 s

unfoldable pub op_ldi : Cpu → Prog (ℕ × Cpu)
op_ldi s = once (block_ld true s)

unfoldable pub op_ldd : Cpu → Prog (ℕ × Cpu)
op_ldd s = once (block_ld false s)

unfoldable pub op_cpi : Cpu → Prog (ℕ × Cpu)
op_cpi s = once (block_cp true s)

unfoldable pub op_cpd : Cpu → Prog (ℕ × Cpu)
op_cpd s = once (block_cp false s)

-- LDIR, LDDR, CPIR and CPDR: a round, then the rewind to the instruction if it repeats.
abbrev pub rewind : Prog (Bool × Cpu) → Prog (ℕ × Cpu)
rewind round = do
  (repeat, s) ← round
  let s = if repeat then block_repeat s else s
  flagged (if repeat then 21 else 16) s

unfoldable pub op_ldir : Cpu → Prog (ℕ × Cpu)
op_ldir s = rewind (block_ld true s)

unfoldable pub op_lddr : Cpu → Prog (ℕ × Cpu)
op_lddr s = rewind (block_ld false s)

unfoldable pub op_cpir : Cpu → Prog (ℕ × Cpu)
op_cpir s = rewind (block_cp true s)

unfoldable pub op_cpdr : Cpu → Prog (ℕ × Cpu)
op_cpdr s = rewind (block_cp false s)
