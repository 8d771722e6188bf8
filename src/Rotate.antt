-- ===== src/Rotate.antt =====
-- Rotates, shifts and bit operations (src/z80_python/_rotate.py).
pub mod Ops
pub mod Inverse
use z80_python.Base.{◌<<<◌, ◌==◌, ◌>>>◌, bit_and, bit_or, if◌then◌else◌, u8, ℕ}
use z80_python.Cpu.{Cpu}
use z80_python.Flags.{flag_c, flag_h, flag_pv, flag_s, flag_xy, flag_z, szxyp}

unfoldable pub bit_flags : ℕ → ℕ → ℕ → ℕ → ℕ
bit_flags f value bit_index xy_source =
    let tested = bit_and value (1 <<< bit_index) in
    bit_or
      (bit_or (bit_or (bit_or (bit_and f flag_c) flag_h) (bit_and xy_source flag_xy))
        (bit_and tested flag_s))
      (if tested == 0 then bit_or flag_z flag_pv else 0)

-- Every rotate returns its result and sets F to `SZXYP[r]` and the bit that goes out.
abbrev pub rotated : ℕ → ℕ → Cpu → ℕ × Cpu
rotated r carry s = (r, record s { f = bit_or (szxyp r) carry })

unfoldable pub rlc : ℕ → Cpu → ℕ × Cpu
rlc x s = rotated (u8 (bit_or (x <<< 1) (x >>> 7))) (x >>> 7) s

unfoldable pub rrc : ℕ → Cpu → ℕ × Cpu
rrc x s = rotated (u8 (bit_or (x >>> 1) (x <<< 7))) (bit_and x 1) s

unfoldable pub rl : ℕ → Cpu → ℕ × Cpu
rl x s = rotated (u8 (bit_or (x <<< 1) (bit_and s.f flag_c))) (x >>> 7) s

unfoldable pub rr : ℕ → Cpu → ℕ × Cpu
rr x s = rotated (bit_or (x >>> 1) (bit_and s.f flag_c <<< 7)) (bit_and x 1) s

unfoldable pub sla : ℕ → Cpu → ℕ × Cpu
sla x s = rotated (u8 (x <<< 1)) (x >>> 7) s

unfoldable pub sra : ℕ → Cpu → ℕ × Cpu
sra x s = rotated (bit_or (bit_and x 0x80) (x >>> 1)) (bit_and x 1) s

unfoldable pub sll : ℕ → Cpu → ℕ × Cpu
sll x s = rotated (u8 (bit_or (x <<< 1) 1)) (x >>> 7) s

unfoldable pub srl : ℕ → Cpu → ℕ × Cpu
srl x s = rotated (x >>> 1) (bit_and x 1) s

-- `operations[group](value)`; the callers' groups are below 8.
unfoldable pub rot_apply : ℕ → ℕ → Cpu → ℕ × Cpu
rot_apply group value s =
    if group == 0
    then rlc value s
    else if group == 1
    then rrc value s
    else if group == 2
    then rl value s
    else if group == 3
    then rr value s
    else if group == 4
    then sla value s
    else if group == 5
    then sra value s
    else if group == 6
    then sll value s
    else srl value s
