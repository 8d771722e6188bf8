-- ===== src/Alu/Sums.antt =====
-- The flags of ADD, ADC, SUB, SBC and CP, from the arithmetic of the operands.
use z80_python.Base.{
  ◌%◌, ◌*◌, ◌+◌, ◌-◌, ◌/◌, ◌<◌, ◌==◌, ◌||◌, ◌≡◌, ==_iff, Bool, arith, if◌then◌else◌, leb, ltb, refl,
  suc, true, u8, zero, ℕ,
}
use z80_python.Alu.{add, add_flags, cp, cp_flags, sub, sub_flags}
use z80_python.Base.Table.{all_below, all_pairs_sound}
use z80_python.Cpu.{Cpu}
use z80_python.Flags.{szxy}

-- A byte as two's complement, 128 added: 0 stands for -128 and 255 for 127.
abbrev biased : ℕ → ℕ
biased x = (x + 128) % 256

abbrev flag_if : Bool → ℕ → ℕ
flag_if b weight = if b then weight else 0

-- Sign and zero of the result, and bits 5 and 3 of the byte they are copied from.
abbrev sign_zero : ℕ → ℕ → ℕ
sign_zero r copied =
    flag_if (leb 128 r) 128 + flag_if (r == 0) 64 + copied / 32 % 2 * 32 + copied / 8 % 2 * 8

-- The flags of a sum: those of its result, the carry out of the low digit, the overflow of the
-- signed sum, and the carry.
abbrev pub expected_sum : ℕ → ℕ → ℕ → ℕ
expected_sum x y carry =
    let signed = biased x + biased y + carry in
    let r = (x + y + carry) % 256 in
    sign_zero r r
    + flag_if (leb 16 (x % 16 + y % 16 + carry)) 16
    + flag_if (ltb signed 128 || leb 384 signed) 4
    + flag_if (leb 256 (x + y + carry)) 1

-- The flags of a difference: the borrow from the high digit, the overflow of the signed
-- difference, N, and the borrow. Bits 5 and 3 come from `copied`.
abbrev pub expected_difference : ℕ → ℕ → ℕ → ℕ → ℕ
expected_difference x y carry copied =
    sign_zero ((x + 512 - y - carry) % 256) copied
    + flag_if (ltb (x % 16) (y % 16 + carry)) 16
    + flag_if (ltb (biased x + 128) (biased y + carry) || leb (biased y + carry + 128) (biased x)) 4
    + 2
    + flag_if (ltb x (y + carry)) 1

abbrev sums : ℕ → Bool
sums carry = all_below 256 (λ x. all_below 256 (λ y. add_flags x y carry == expected_sum x y carry))

abbrev differences : ℕ → Bool
differences carry = all_below 256 (λ x.
    all_below 256
      (λ y. sub_flags x y carry == expected_difference x y carry ((x + 512 - y - carry) % 256)))

abbrev comparisons : Bool
comparisons = all_below 256 (λ x. all_below 256 (λ y. cp_flags x y == expected_difference x y 0 y))

sums_0 : sums 0 ≡ true
unfolding all_below add_flags szxy
sums_0 = refl

sums_1 : sums 1 ≡ true
unfolding all_below add_flags szxy
sums_1 = refl

differences_0 : differences 0 ≡ true
unfolding all_below sub_flags szxy
differences_0 = refl

differences_1 : differences 1 ≡ true
unfolding all_below sub_flags szxy
differences_1 = refl

comparisons_hold : comparisons ≡ true
unfolding all_below cp_flags szxy
comparisons_hold = refl

either : (P : ℕ → Type 0) (carry : ℕ) → carry < 2 → P 0 → P 1 → P carry
either P zero h p q = p
either P (suc zero) h p q = q
either P (suc (suc carry)) h p q = absurd (omega arith)

module _ (x y carry : ℕ) (s : Cpu) (p : x < 256) (q : y < 256) (r : carry < 2) where
  -- For bytes and a carry `add` returns the sum modulo 256 and sets every flag as the arithmetic
  -- of the operands says: S, Z, bits 5 and 3 by the result, H by the low digits, P/V by the
  -- signed sum, C by the unsigned one, N clear.
  pub add-expected :
      add x y carry s ≡ ((x + y + carry) % 256, record s { f = expected_sum x y carry })
  unfolding add
  add-expected =
      let here = either (λ c. sums c ≡ true) carry r sums_0 sums_1 in
      let P : ℕ → ℕ → Bool = λ x y. add_flags x y carry == expected_sum x y carry in
      rw ((==_iff _ _).0 (all_pairs_sound 256 256 P x y here p q)) refl

  -- For bytes and a borrow `sub` returns the difference modulo 256 and sets every flag as the
  -- arithmetic of the operands says: S, Z, bits 5 and 3 by the result, H by the low digits, P/V by
  -- the signed difference, C by the unsigned one, N set.
  pub sub-expected :
      let difference = (x + 512 - y - carry) % 256 in
      sub x y carry s ≡ (difference, record s { f = expected_difference x y carry difference })
  unfolding sub
  sub-expected =
      let here = either (λ c. differences c ≡ true) carry r differences_0 differences_1 in
      let P : ℕ → ℕ → Bool =
        λ x y. sub_flags x y carry == expected_difference x y carry ((x + 512 - y - carry) % 256) in
      let same : u8 (x + 0x10000 - y - carry) ≡ (x + 512 - y - carry) % 256 = omega arith in
      rw ((==_iff _ _).0 (all_pairs_sound 256 256 P x y here p q), same) refl

-- For bytes `cp` changes F only, to the flags of the difference, but with bits 5 and 3 of the
-- operand and not of the result.
pub cp-expected :
    (x y : ℕ) (s : Cpu)
    → x < 256
    → y < 256
    → cp x y s ≡ record s { f = expected_difference x y 0 y }
unfolding cp
cp-expected x y s p q =
    let P : ℕ → ℕ → Bool = λ x y. cp_flags x y == expected_difference x y 0 y in
    rw ((==_iff _ _).0 (all_pairs_sound 256 256 P x y comparisons_hold p q)) refl
