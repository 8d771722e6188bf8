-- ===== src/Base/Bits/Words.antt =====
-- `high << 8 | low`: bytes that are joined to a word.
use Prim.Native.Nat.{ℕ, zero, suc, ◌+◌, ◌*◌, ◌/◌, ◌%◌, ◌≤◌, ◌<◌, max, bit_or}
use mathlib.Core.Path.{◌≡◌, refl}
use native.Mathlib.Omega.{arith}
use z80_python.Base.Tests.{◌<<<◌, ◌>>>◌, u8}
use z80_python.Base.Bits.Step.{bit_or_step}

doubled : ℕ → ℕ → ℕ
doubled zero h = h
doubled (suc k) h = 2 * doubled k h

or_zero : (fuel a : ℕ) → a ≤ fuel → bit_or a 0 ≡ a
or_zero zero zero h = refl
or_zero zero (suc a) h = absurd (omega arith)
or_zero (suc fuel) zero h = refl
or_zero (suc fuel) (suc a) h =
    let half : bit_or (suc a / 2) 0 ≡ suc a / 2 = or_zero fuel (suc a / 2) (omega arith) in
    let step : bit_or (suc a) 0 ≡ bit_or (suc a / 2) 0 * 2 + max (suc a % 2) 0 =
      bit_or_step (suc a) 0 in
    omega arith

bit_or-doubled : (k h l : ℕ) → l < doubled k 1 → bit_or (doubled k h) l ≡ doubled k h + l
unfolding doubled
bit_or-doubled zero h l lt =
    let none : l ≡ 0 = omega arith in rw none (omega (arith, or_zero h h (omega arith)))
bit_or-doubled (suc k) h l lt =
    let n = doubled k h in
    let half : bit_or n (l / 2) ≡ n + l / 2 = bit_or-doubled k h (l / 2) (omega arith) in
    let halved : (2 * n) / 2 ≡ n = omega arith in
    let step : bit_or (2 * n) l ≡ bit_or n (l / 2) * 2 + max ((2 * n) % 2) (l % 2) =
      rw (bit_or_step (2 * n) l, halved) refl in
    omega arith

pub bit_or-shifted : (high low : ℕ) → low < 256 → bit_or (high <<< 8) low ≡ high * 256 + low
unfolding doubled
bit_or-shifted high low lt =
    let h = bit_or-doubled 8 high low (omega arith) in
    let same : doubled 8 high ≡ high <<< 8 = omega arith in rw (← same, h) (omega arith)

pub join : (value : ℕ) → value < 65536 → bit_or (u8 (value >>> 8) <<< 8) (u8 value) ≡ value
join value h = omega (arith, bit_or-shifted (u8 (value >>> 8)) (u8 value) (omega arith))
