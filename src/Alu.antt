-- ===== src/Alu.antt =====
-- The arithmetic and logic helpers of `ALUMixin` (src/z80_python/_alu.py). A helper computes the
-- whole new F as one expression, here a function of its own, and stores it with the result.
-- Where Python's difference is negative, 2 ^ 16 (or 2 ^ 32) is added first: the masks and the
-- borrow read only bits below that.
pub mod Ops
pub mod Ops16
pub mod Sums
pub mod Decimal
use z80_python.Base.{
  ◌%◌, ◌+◌, ◌-◌, ◌==◌, ◌>>>◌, bit_and, bit_or, bit_xor, dec8, if◌then◌else◌, u8, ℕ,
}
use z80_python.Cpu.{Cpu}
use z80_python.Flags.{flag_c, flag_h, flag_n, flag_pv, flag_s, flag_xy, flag_z, szxy, szxyp}

abbrev minus : ℕ → ℕ → ℕ → ℕ
minus x y carry = x + 0x10000 - y - carry

unfoldable pub add_flags : ℕ → ℕ → ℕ → ℕ
add_flags x y carry =
    let z = x + y + carry in
    let r = u8 z in
    bit_or
      (bit_or (bit_or (szxy r) (bit_and (bit_xor (bit_xor x y) r) flag_h))
        (bit_and (bit_and (bit_xor (bit_xor x y) 0x80) (bit_xor x r)) 0x80 >>> 5))
      (z >>> 8)

unfoldable pub add : ℕ → ℕ → ℕ → Cpu → ℕ × Cpu
add x y carry s = (u8 (x + y + carry), record s { f = add_flags x y carry })

unfoldable pub sub_flags : ℕ → ℕ → ℕ → ℕ
sub_flags x y carry =
    let z = minus x y carry in
    let r = u8 z in
    bit_or
      (bit_or
        (bit_or (bit_or (szxy r) (bit_and (bit_xor (bit_xor x y) r) flag_h))
          (bit_and (bit_and (bit_xor x y) (bit_xor x r)) 0x80 >>> 5))
        flag_n)
      (bit_and (z >>> 8) flag_c)

unfoldable pub sub : ℕ → ℕ → ℕ → Cpu → ℕ × Cpu
sub x y carry s = (u8 (minus x y carry), record s { f = sub_flags x y carry })

unfoldable pub and : ℕ → ℕ → Cpu → ℕ × Cpu
and x y s = let r = bit_and x y in (r, record s { f = bit_or (szxyp r) flag_h })

unfoldable pub or : ℕ → ℕ → Cpu → ℕ × Cpu
or x y s = let r = bit_or x y in (r, record s { f = szxyp r })

unfoldable pub xor : ℕ → ℕ → Cpu → ℕ × Cpu
xor x y s = let r = bit_xor x y in (r, record s { f = szxyp r })

unfoldable pub cp_flags : ℕ → ℕ → ℕ
cp_flags x y =
    let z = minus x y 0 in
    let r = u8 z in
    bit_or
      (bit_or
        (bit_or
          (bit_or (bit_or (bit_and (szxy r) (bit_or flag_s flag_z)) (bit_and y flag_xy))
            (bit_and (bit_xor (bit_xor x y) r) flag_h))
          (bit_and (bit_and (bit_xor x y) (bit_xor x r)) 0x80 >>> 5))
        flag_n)
      (bit_and (z >>> 8) flag_c)

unfoldable pub cp : ℕ → ℕ → Cpu → Cpu
cp x y s = record s { f = cp_flags x y }

unfoldable pub inc_flags : ℕ → ℕ → ℕ
inc_flags f r =
    bit_or (bit_or (bit_or (bit_and f flag_c) (szxy r)) (if r % 16 == 0 then flag_h else 0))
      (if r == 0x80 then flag_pv else 0)

unfoldable pub inc : ℕ → Cpu → ℕ × Cpu
inc x s = let r = u8 (x + 1) in (r, record s { f = inc_flags s.f r })

unfoldable pub dec_flags : ℕ → ℕ → ℕ
dec_flags f r =
    bit_or
      (bit_or (bit_or (bit_or (bit_and f flag_c) (szxy r)) flag_n)
        (if r % 16 == 0x0F then flag_h else 0))
      (if r == 0x7F then flag_pv else 0)

unfoldable pub dec : ℕ → Cpu → ℕ × Cpu
dec x s = let r = dec8 x in (r, record s { f = dec_flags s.f r })

-- `self.a = …` of a helper's result.
unfoldable pub set_a : ℕ × Cpu → Cpu
set_a (r, s) = record s { a = r }

unfoldable pub alu_a : ℕ → ℕ → Cpu → Cpu
alu_a group value s =
    if group == 0
    then set_a (add s.a value 0 s)
    else if group == 1
    then set_a (add s.a value (bit_and s.f flag_c) s)
    else if group == 2
    then set_a (sub s.a value 0 s)
    else if group == 3
    then set_a (sub s.a value (bit_and s.f flag_c) s)
    else if group == 4
    then set_a (and s.a value s)
    else if group == 5
    then set_a (xor s.a value s)
    else if group == 6
    then set_a (or s.a value s)
    else cp s.a value s
