-- ===== src/Core.antt =====
-- Fetch, stack and register selection (src/z80_python/_core.py). A method that changes `self`
-- takes the state and returns the new one; a bus call is a step of a program.
pub mod Lifecycle
use z80_python.Base.{
  ◌%◌, ◌+◌, ◌-◌, ◌<<<◌, ◌==◌, ◌>>>◌, bit_and, bit_or, dec16, if◌then◌else◌, inc16, u16, u8, ℕ,
}
use z80_python.Cpu.{Cpu}
use z80_python.Flags.{set_flag_bit}
use z80_python.Prog.{◌>>=◌, Prog, raise, read_byte, ret, value_error, write_byte}

-- A displacement byte as two's complement. The negative value `value - 0x100` is kept modulo
-- 2 ^ 16, since its users add it to an address and wrap.
unfoldable pub signed8 : ℕ → ℕ
signed8 value = if bit_and value 0x80 == 0 then value else value + 0x10000 - 0x100

unfoldable pub inc_r : Cpu → Cpu
inc_r s = record s { r = bit_or (bit_and s.r 0x80) ((s.r + 1) % 128) }

unfoldable pub fetch_byte : Cpu → Prog (ℕ × Cpu)
fetch_byte s = do value ← read_byte s.pc ret; ret (value, inc_r (record s { pc = inc16 s.pc }))

unfoldable pub read_operand_byte : Cpu → Prog (ℕ × Cpu)
read_operand_byte s = do value ← read_byte s.pc ret; ret (value, record s { pc = inc16 s.pc })

unfoldable pub read_operand_word : Cpu → Prog (ℕ × Cpu)
read_operand_word s = do
  (low, s) ← read_operand_byte s
  (high, s) ← read_operand_byte s
  ret (bit_or (high <<< 8) low, s)

unfoldable pub push_word : ℕ → Cpu → Prog Cpu
push_word value s =
    let s = record s { sp = dec16 s.sp } in
    write_byte s.sp (u8 (value >>> 8))
      (let s = record s { sp = dec16 s.sp } in write_byte s.sp (u8 value) (ret s))

unfoldable pub pop_word : Cpu → Prog (ℕ × Cpu)
pop_word s = do
  low ← read_byte s.sp ret
  let s = record s { sp = inc16 s.sp }
  high ← read_byte s.sp ret
  let s = record s { sp = inc16 s.sp }
  ret (bit_or (high <<< 8) low, s)

unfoldable pub hl : Cpu → ℕ
hl s = bit_or (s.h <<< 8) s.l

unfoldable pub bc : Cpu → ℕ
bc s = bit_or (s.b <<< 8) s.c

unfoldable pub de : Cpu → ℕ
de s = bit_or (s.d <<< 8) s.e

unfoldable pub read_pair : ℕ → Cpu → ℕ
read_pair index s =
    if index == 0 then bc s else if index == 1 then de s else if index == 2 then hl s else s.sp

unfoldable pub write_pair : ℕ → ℕ → Cpu → Cpu
write_pair index value s =
    let value = u16 value in
    if index == 0
    then record s { b = u8 (value >>> 8); c = u8 value }
    else if index == 1
    then record s { d = u8 (value >>> 8); e = u8 value }
    else if index == 2
    then record s { h = u8 (value >>> 8); l = u8 value }
    else record s { sp = value }

unfoldable pub read_reg : ℕ → Cpu → Prog ℕ
read_reg index s =
    if index == 0
    then ret s.b
    else if index == 1
    then ret s.c
    else if index == 2
    then ret s.d
    else if index == 3
    then ret s.e
    else if index == 4
    then ret s.h
    else if index == 5
    then ret s.l
    else if index == 7
    then ret s.a
    else raise value_error

unfoldable pub write_reg : ℕ → ℕ → Cpu → Prog Cpu
write_reg index value s =
    let value = u8 value in
    if index == 0
    then ret (record s { b = value })
    else if index == 1
    then ret (record s { c = value })
    else if index == 2
    then ret (record s { d = value })
    else if index == 3
    then ret (record s { e = value })
    else if index == 4
    then ret (record s { h = value })
    else if index == 5
    then ret (record s { l = value })
    else if index == 7
    then ret (record s { a = value })
    else raise value_error

-- `self.q = self._f; return t_states`, and `self.q = 0; return t_states`.
abbrev pub flagged : ℕ → Cpu → Prog (ℕ × Cpu)
flagged t_states s = ret (t_states, record s { q = s.f })

abbrev pub unflagged : ℕ → Cpu → Prog (ℕ × Cpu)
unflagged t_states s = ret (t_states, record s { q = 0 })

-- The `f` property: a byte that is assigned, and a bit that is set through the view.
unfoldable pub set_f : ℕ → Cpu → Cpu
set_f value s = record s { f = u8 value }

unfoldable pub set_view_bit : ℕ → ℕ → Cpu → Cpu
unfolding set_f
set_view_bit mask value s = set_f (set_flag_bit mask value s.f) s
