-- ===== src/Alu/Ops16.antt =====
-- The 16-bit helpers and handlers of `ALUMixin` (src/z80_python/_alu.py).
use z80_python.Base.{
  ◌+◌, ◌-◌, ◌==◌, ◌>>>◌, bit_and, bit_or, bit_xor, dec16, if◌then◌else◌, inc16, u16, u2, ℕ,
}
use z80_python.Core.{flagged, hl, read_pair, unflagged, write_pair}
use z80_python.Cpu.{Cpu}
use z80_python.Flags.{flag_c, flag_h, flag_n, flag_pv, flag_s, flag_xy, flag_z}
use z80_python.Prog.{Prog}

unfoldable pub add16_flags : ℕ → ℕ → ℕ → ℕ
add16_flags x y carry =
    let z = x + y + carry in
    let r = u16 z in
    bit_or
      (bit_or
        (bit_or (bit_or (bit_and (r >>> 8) (bit_or flag_s flag_xy)) (if r == 0 then flag_z else 0))
          (bit_and (bit_xor (bit_xor x y) r >>> 8) flag_h))
        (bit_and (bit_and (bit_xor (bit_xor x y) 0x8000) (bit_xor x r)) 0x8000 >>> 13))
      (z >>> 16)

unfoldable pub add16 : ℕ → ℕ → ℕ → Cpu → ℕ × Cpu
add16 x y carry s = (u16 (x + y + carry), record s { f = add16_flags x y carry })

unfoldable pub add16_keep_flags : ℕ → ℕ → ℕ → ℕ
add16_keep_flags f x y =
    let z = x + y in
    let result = u16 z in
    bit_or
      (bit_or
        (bit_or (bit_and f (bit_or (bit_or flag_s flag_z) flag_pv))
          (bit_and (result >>> 8) flag_xy))
        (bit_and (bit_xor (bit_xor x y) result >>> 8) flag_h))
      (z >>> 16)

unfoldable pub add16_keep_szpv : ℕ → ℕ → Cpu → ℕ × Cpu
add16_keep_szpv x y s = (u16 (x + y), record s { f = add16_keep_flags s.f x y })

abbrev minus16 : ℕ → ℕ → ℕ → ℕ
minus16 x y carry = x + 0x1_0000_0000 - y - carry

unfoldable pub sub16_flags : ℕ → ℕ → ℕ → ℕ
sub16_flags x y carry =
    let z = minus16 x y carry in
    let r = u16 z in
    bit_or
      (bit_or
        (bit_or
          (bit_or
            (bit_or (bit_and (r >>> 8) (bit_or flag_s flag_xy)) (if r == 0 then flag_z else 0))
            (bit_and (bit_xor (bit_xor x y) r >>> 8) flag_h))
          (bit_and (bit_and (bit_xor x y) (bit_xor x r)) 0x8000 >>> 13))
        flag_n)
      (bit_and (z >>> 16) flag_c)

unfoldable pub sub16 : ℕ → ℕ → ℕ → Cpu → ℕ × Cpu
sub16 x y carry s = (u16 (minus16 x y carry), record s { f = sub16_flags x y carry })

unfoldable pub op_add_hl_rr : ℕ → Cpu → Prog (ℕ × Cpu)
op_add_hl_rr opcode s =
    let pair_index = u2 (opcode >>> 4) in
    let x = hl s in
    let value = read_pair pair_index s in
    let s = record s { wz = inc16 x } in
    let (r, s) = add16_keep_szpv x value s in flagged 11 (write_pair 2 r s)

unfoldable pub op_adc_hl_rr : ℕ → Cpu → Prog (ℕ × Cpu)
op_adc_hl_rr opcode s =
    let pair_index = u2 (opcode >>> 4) in
    let x = hl s in
    let s = record s { wz = inc16 x } in
    let (r, s) = add16 x (read_pair pair_index s) (bit_and s.f flag_c) s in
    flagged 15 (write_pair 2 r s)

unfoldable pub op_sbc_hl_rr : ℕ → Cpu → Prog (ℕ × Cpu)
op_sbc_hl_rr opcode s =
    let pair_index = u2 (opcode >>> 4) in
    let x = hl s in
    let s = record s { wz = inc16 x } in
    let (r, s) = sub16 x (read_pair pair_index s) (bit_and s.f flag_c) s in
    flagged 15 (write_pair 2 r s)

unfoldable pub op_inc_rr : ℕ → Cpu → Prog (ℕ × Cpu)
op_inc_rr opcode s =
    let pair_index = u2 (opcode >>> 4) in
    unflagged 6 (write_pair pair_index (inc16 (read_pair pair_index s)) s)

unfoldable pub op_dec_rr : ℕ → Cpu → Prog (ℕ × Cpu)
op_dec_rr opcode s =
    let pair_index = u2 (opcode >>> 4) in
    unflagged 6 (write_pair pair_index (dec16 (read_pair pair_index s)) s)
