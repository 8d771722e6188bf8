-- ===== src/Flags.antt =====
-- The F register (src/z80_python/_flags.py): masks, tables and the `Flags` value.
pub mod Bits
use z80_python.Base.{◌%◌, ◌+◌, ◌/◌, ◌==◌, and_not, bit_and, bit_or, if◌then◌else◌, suc, u8, zero, ℕ}

abbrev pub flag_s : ℕ
flag_s = 0b1000_0000

abbrev pub flag_z : ℕ
flag_z = 0b0100_0000

abbrev pub flag_y : ℕ
flag_y = 0b0010_0000

abbrev pub flag_h : ℕ
flag_h = 0b0001_0000

abbrev pub flag_x : ℕ
flag_x = 0b0000_1000

abbrev pub flag_pv : ℕ
flag_pv = 0b0000_0100

abbrev pub flag_n : ℕ
flag_n = 0b0000_0010

abbrev pub flag_c : ℕ
flag_c = 0b0000_0001

abbrev pub flag_xy : ℕ
flag_xy = bit_or flag_y flag_x

-- `value.bit_count()` of a byte: its eight lowest bits are counted.
abbrev count_bits : ℕ → ℕ → ℕ
count_bits zero v = 0
count_bits (suc k) v = v % 2 + count_bits k (v / 2)

abbrev bit_count : ℕ → ℕ
bit_count v = count_bits 8 v

-- The tables `SZXY`, `PARITY` and `SZXYP`, as the functions of a byte that fill them.
unfoldable pub szxy : ℕ → ℕ
szxy v = bit_or (bit_and v (bit_or flag_s flag_xy)) (if v == 0 then flag_z else 0)

unfoldable pub parity : ℕ → ℕ
parity v = if bit_count v % 2 == 0 then flag_pv else 0

unfoldable pub szxyp : ℕ → ℕ
szxyp v = bit_or (szxy v) (parity v)

-- `Flags`, whose only field is its byte, and `cpu.f`, whose byte is the CPU's F.
unfoldable pub make_flags : ℕ → ℕ
make_flags value = u8 value

-- `_bit` and `_set_bit`.
unfoldable pub flag_bit : ℕ → ℕ → ℕ
flag_bit mask byte = if bit_and byte mask == 0 then 0 else 1

unfoldable pub set_flag_bit : ℕ → ℕ → ℕ → ℕ
set_flag_bit mask value byte = if bit_and value 1 == 0 then and_not byte mask else bit_or byte mask

unfoldable pub set_xy : ℕ → ℕ → ℕ
set_xy value byte = bit_or (and_not byte flag_xy) (bit_and value flag_xy)
