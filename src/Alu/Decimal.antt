-- ===== src/Alu/Decimal.antt =====
-- DAA after an addition or a subtraction of two packed decimal numbers.
use z80_python.Base.{
  ◌%◌, ◌&&◌, ◌*◌, ◌+◌, ◌-◌, ◌/◌, ◌<◌, ◌==◌, ◌≡◌, Bool, arith, bit_and, if◌then◌else◌, ltb, refl,
  suc, true, zero, ℕ,
}
use z80_python.Alu.{add, add_flags, set_a, sub, sub_flags}
use z80_python.Alu.Ops.{daa_adjust, daa_tens, daa_units, op_daa}
use z80_python.Base.Table.{all_below, all_pairs_sound}
use z80_python.Cpu.{Cpu}
use z80_python.Flags.{flag_c, parity, szxy, szxyp}
use z80_python.Prog.{Prog, ret}

-- A number below 100 as two decimal digits in a byte.
abbrev pub packed : ℕ → ℕ
packed n = n / 10 * 16 + n % 10

abbrev daa_a : Prog (ℕ × Cpu) → ℕ
daa_a (ret r) = r.1.a
daa_a p = 0

abbrev daa_carry : Prog (ℕ × Cpu) → ℕ
daa_carry (ret r) = bit_and r.1.f flag_c
daa_carry p = 0

module _ (carry : ℕ) (s : Cpu) where
  abbrev sum_right : ℕ → ℕ → Bool
  sum_right x y =
      let p = op_daa (set_a (add (packed x) (packed y) carry s)) in
      daa_a p == packed ((x + y + carry) % 100) && daa_carry p == (x + y + carry) / 100

  abbrev difference_right : ℕ → ℕ → Bool
  difference_right x y =
      let p = op_daa (set_a (sub (packed x) (packed y) carry s)) in
      daa_a p == packed ((x + 200 - y - carry) % 100)
      && daa_carry p == (if ltb x (y + carry) then 1 else 0)

abbrev sums : ℕ → Cpu → Bool
sums carry s = all_below 100 (λ x. all_below 100 (sum_right carry s x))

abbrev differences : ℕ → Cpu → Bool
differences carry s = all_below 100 (λ x. all_below 100 (difference_right carry s x))

sums_hold : (carry : ℕ) (s : Cpu) → carry < 2 → sums carry s ≡ true
unfolding all_below add_flags szxy szxyp parity op_daa daa_adjust daa_tens daa_units add set_a
sums_hold zero s h = refl
sums_hold (suc zero) s h = refl
sums_hold (suc (suc carry)) s h = absurd (omega arith)

differences_hold : (carry : ℕ) (s : Cpu) → carry < 2 → differences carry s ≡ true
unfolding all_below sub_flags szxy szxyp parity op_daa daa_adjust daa_tens daa_units sub set_a
differences_hold zero s h = refl
differences_hold (suc zero) s h = refl
differences_hold (suc (suc carry)) s h = absurd (omega arith)

both : (a b c d : ℕ) → (a == b && c == d) ≡ true → (a ≡ b) × (c ≡ d)
both a b c d h = ground arith

module _ (x y carry : ℕ) (s : Cpu) (p : x < 100) (q : y < 100) (r : carry < 2) where
  -- DAA after ADD or ADC of two packed decimal numbers below 100 returns without an exception,
  -- with the packed sum modulo 100 in A and the hundreds in the carry flag.
  pub op_daa-add :
      let result = op_daa (set_a (add (packed x) (packed y) carry s)) in
      (t : Cpu) × (result ≡ ret (4, t))
      × (t.a ≡ packed ((x + y + carry) % 100))
      × (bit_and t.f flag_c ≡ (x + y + carry) / 100)
  unfolding op_daa
  op_daa-add =
      let table = all_pairs_sound 100 100 (sum_right carry s) x y (sums_hold carry s r) p q in
      let right = both _ _ _ _ table in (_, refl, right.0, right.1)

  -- DAA after SUB or SBC of two packed decimal numbers below 100 returns without an exception,
  -- with the packed difference modulo 100 in A and the borrow in the carry flag.
  pub op_daa-sub :
      let result = op_daa (set_a (sub (packed x) (packed y) carry s)) in
      (t : Cpu) × (result ≡ ret (4, t))
      × (t.a ≡ packed ((x + 200 - y - carry) % 100))
      × (bit_and t.f flag_c ≡ (if ltb x (y + carry) then 1 else 0))
  unfolding op_daa
  op_daa-sub =
      let table =
        all_pairs_sound 100 100 (difference_right carry s) x y (differences_hold carry s r) p q in
      let right = both _ _ _ _ table in (_, refl, right.0, right.1)
