-- ===== src/Contract/Numbers.antt =====
-- Every computed F is a byte.
use z80_python.Base.{◌<◌, Bool, and_not, arith, false, if◌then◌else◌, true, ℕ}
use z80_python.Alu.{add_flags, cp_flags, dec_flags, inc_flags, sub_flags}
use z80_python.Alu.Ops16.{add16_flags, add16_keep_flags, sub16_flags}
use z80_python.Base.Bits.{bit_bounds, xor-lt_byte}
use z80_python.Blocks.{block_cp_flags, block_ld_flags, block_xy, search_flags}
use z80_python.Flags.{parity, szxy, szxyp}
use z80_python.Io.Block.{block_io_flags, flip_pv, post_flags, put_h}
use z80_python.Rotate.{bit_flags}

pub if-lt_byte : (t : Bool) (x y : ℕ) → x < 256 → y < 256 → (if t then x else y) < 256
if-lt_byte true x y p q = p
if-lt_byte false x y p q = q

pub ruleset byte_bounds = (bit_bounds, xor-lt_byte, if-lt_byte)

pub szxy-lt : (v : ℕ) → v < 256 → szxy v < 256
unfolding szxy
szxy-lt v h = omega byte_bounds

pub parity-lt : (v : ℕ) → parity v < 256
unfolding parity
parity-lt v = omega byte_bounds

pub szxyp-lt : (v : ℕ) → v < 256 → szxyp v < 256
unfolding szxyp
szxyp-lt v h = omega (byte_bounds, szxy-lt v h, parity-lt v)

pub ruleset flag_bounds = (byte_bounds, szxy-lt, szxyp-lt, parity-lt)

pub add_flags-lt : (x y c : ℕ) → x < 256 → y < 256 → c < 2 → add_flags x y c < 256
unfolding add_flags
add_flags-lt x y c p q r = omega flag_bounds

pub sub_flags-lt : (x y c : ℕ) → x < 256 → y < 256 → c < 2 → sub_flags x y c < 256
unfolding sub_flags
sub_flags-lt x y c p q r = omega flag_bounds

pub cp_flags-lt : (x y : ℕ) → x < 256 → y < 256 → cp_flags x y < 256
unfolding cp_flags
cp_flags-lt x y p q = omega flag_bounds

pub inc_flags-lt : (f r : ℕ) → r < 256 → inc_flags f r < 256
unfolding inc_flags
inc_flags-lt f r p = omega flag_bounds

pub dec_flags-lt : (f r : ℕ) → r < 256 → dec_flags f r < 256
unfolding dec_flags
dec_flags-lt f r p = omega flag_bounds

pub add16_flags-lt : (x y c : ℕ) → x < 65536 → y < 65536 → c < 2 → add16_flags x y c < 256
unfolding add16_flags
add16_flags-lt x y c p q r = omega flag_bounds

pub add16_keep_flags-lt :
    (f x y : ℕ) → f < 256 → x < 65536 → y < 65536 → add16_keep_flags f x y < 256
unfolding add16_keep_flags
add16_keep_flags-lt f x y p q r = omega flag_bounds

pub sub16_flags-lt : (x y c : ℕ) → x < 65536 → y < 65536 → c < 2 → sub16_flags x y c < 256
unfolding sub16_flags
sub16_flags-lt x y c p q r = omega flag_bounds

pub bit_flags-lt :
    (f value bit_index xy_source : ℕ)
    → f < 256
    → value < 256
    → bit_flags f value bit_index xy_source < 256
unfolding bit_flags
bit_flags-lt f value bit_index xy_source p q = omega flag_bounds

block_xy-lt : (n : ℕ) → block_xy n < 256
unfolding block_xy
block_xy-lt n = omega byte_bounds

pub block_ld_flags-lt : (f n count : ℕ) → f < 256 → block_ld_flags f n count < 256
unfolding block_ld_flags
block_ld_flags-lt f n count p = omega (flag_bounds, block_xy-lt)

search_flags-lt : (f result half : ℕ) → f < 256 → half < 256 → search_flags f result half < 256
unfolding search_flags
search_flags-lt f result half p q = omega flag_bounds

pub block_cp_flags-lt : (f a value count : ℕ) → f < 256 → block_cp_flags f a value count < 256
unfolding block_cp_flags
block_cp_flags-lt f a value count p = omega (flag_bounds, block_xy-lt, search_flags-lt)

pub block_io_flags-lt : (total value b : ℕ) → b < 256 → block_io_flags total value b < 256
unfolding block_io_flags
block_io_flags-lt total value b p = omega flag_bounds

pub and_not-lt : (x m : ℕ) → x < 256 → and_not x m < 256
unfolding and_not
and_not-lt x m p = omega arith

flip_pv-lt : (f x : ℕ) → f < 256 → flip_pv f x < 256
unfolding flip_pv
flip_pv-lt f x p = omega flag_bounds

put_h-lt : (test : Bool) (f : ℕ) → f < 256 → put_h test f < 256
unfolding put_h
put_h-lt test f p = omega (flag_bounds, and_not-lt)

pub post_flags-lt : (f pc b io : ℕ) → f < 256 → post_flags f pc b io < 256
unfolding post_flags
post_flags-lt f pc b io p = omega (flag_bounds, and_not-lt, flip_pv-lt, put_h-lt)

pub ruleset helper_bounds = (
  flag_bounds, add_flags-lt, sub_flags-lt, cp_flags-lt, inc_flags-lt, dec_flags-lt, add16_flags-lt,
  add16_keep_flags-lt, sub16_flags-lt, bit_flags-lt, block_ld_flags-lt, block_cp_flags-lt,
  block_io_flags-lt, and_not-lt, post_flags-lt,
)
