-- ===== src/Rotate/Inverse.antt =====
-- Rotates in one direction undo those in the other.
use z80_python.Base.{
  ◌&&◌, ◌/◌, ◌<<<◌, ◌<◌, ◌==◌, ◌>>>◌, ◌≡◌, Bool, arith, bit_and, bit_or, refl, true, u8, ℕ,
}
use z80_python.Base.Bits.{bit_bounds}
use z80_python.Base.Table.{all_below, all_below_sound, all_pairs_sound}
use z80_python.Cpu.{Cpu}
use z80_python.Flags.{flag_c, parity, szxy, szxyp}
use z80_python.Rotate.{rl, rlc, rr, rrc}

abbrev circular_right : ℕ → Bool
circular_right x =
    let left = u8 (bit_or (x <<< 1) (x >>> 7)) in
    u8 (bit_or (left >>> 1) (left <<< 7)) == x
    && bit_and (bit_or (szxyp left) (x >>> 7)) 1 == x / 128

abbrev through_carry : ℕ → ℕ → Bool
through_carry x carry =
    let left = u8 (bit_or (x <<< 1) carry) in
    let back = bit_or (left >>> 1) (bit_and (bit_or (szxyp left) (x >>> 7)) 1 <<< 7) in
    back == x && bit_and (bit_or (szxyp back) (bit_and left 1)) 1 == carry

circular_table : all_below 256 circular_right ≡ true
unfolding all_below szxyp szxy parity
circular_table = refl

carry_table : all_below 256 (λ x. all_below 2 (through_carry x)) ≡ true
unfolding all_below szxyp szxy parity
carry_table = refl

both : (a b c d : ℕ) → (a == b && c == d) ≡ true → (a ≡ b) × (c ≡ d)
both a b c d h = ground arith

-- For a byte RLC puts bit 7 into the carry flag, and RRC on its result gives the byte back.
pub rrc-rlc :
    (x : ℕ) (s : Cpu)
    → x < 256
    → ((rrc (rlc x s).0 (rlc x s).1).0 ≡ x) × (bit_and (rlc x s).1.f flag_c ≡ x / 128)
unfolding rrc rlc
rrc-rlc x s h = both _ _ _ _ (all_below_sound 256 circular_right x circular_table h)

-- For a byte RR on the byte and the carry flag that RL leaves gives back the byte and the carry
-- flag.
pub rr-rl :
    (x : ℕ) (s : Cpu)
    → x < 256
    → let left = rl x s in
      let back = rr left.0 left.1 in (back.0 ≡ x) × (bit_and back.1.f flag_c ≡ bit_and s.f flag_c)
unfolding rr rl
rr-rl x s h =
    let carry : bit_and s.f flag_c < 2 = omega bit_bounds in
    both _ _ _ _ (all_pairs_sound 256 2 through_carry x (bit_and s.f flag_c) carry_table h carry)
