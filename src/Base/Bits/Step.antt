-- ===== src/Base/Bits/Step.antt =====
-- One equation for the lowest digit of each operation.
use Prim.Native.Nat.{ℕ, zero, suc, ◌+◌, ◌*◌, ◌/◌, ◌%◌, ◌≤◌, ◌<◌, bit_and, bit_or, bit_xor}
use Prim.Native.Nat.{
  min, max, digits, bitwise, bit_and-bitwise, bit_or-bitwise, bit_xor-bitwise, differ,
}
use mathlib.Core.Path.{◌≡◌, refl, sym, ◌∙◌}
use native.Mathlib.Omega.{arith}

-- What is left of `b` once `a` has no digits, whatever the fuel.
digits-no_digits : (rest : ℕ → ℕ) (op : ℕ → ℕ → ℕ) (fuel b : ℕ) → digits rest op fuel 0 b ≡ rest b
digits-no_digits rest op zero b = refl
digits-no_digits rest op (suc fuel) b = refl

-- Fuel beyond the first operand changes nothing.
digits-fuel_free :
    (rest : ℕ → ℕ) (op : ℕ → ℕ → ℕ) (fuel a : ℕ)
    → a ≤ fuel
    → (fuel' b : ℕ) → a ≤ fuel'
    → digits rest op fuel' a b ≡ digits rest op fuel a b
digits-fuel_free rest op fuel zero h fuel' b k =
    digits-no_digits rest op fuel' b ∙ sym (digits-no_digits rest op fuel b)
digits-fuel_free rest op zero (suc a) h fuel' b k = absurd (omega arith)
digits-fuel_free rest op (suc fuel) (suc a) h zero b k = absurd (omega arith)
digits-fuel_free rest op (suc fuel) (suc a) h (suc fuel') b k =
    let half = suc a / 2 in
    let same = digits-fuel_free rest op fuel half (omega arith) fuel' (b / 2) (omega arith) in
    rw same refl

-- The lowest digit of a positive first operand.
bitwise-lowest :
    (op : ℕ → ℕ → ℕ) (rest : ℕ → ℕ) (a b : ℕ)
    → bitwise rest op (suc a) b ≡ bitwise rest op (suc a / 2) (b / 2) * 2 + op (suc a % 2) (b % 2)
bitwise-lowest op rest a b =
    let half = suc a / 2 in
    let enough : half ≤ a = omega arith in
    let same = digits-fuel_free rest op half half (omega arith) a (b / 2) enough in omega arith

-- On single digits `differ` is the sum without its carry.
differ-digits : (x y : ℕ) → x < 2 → y < 2 → differ x y ≡ (x + y) % 2
differ-digits zero y p q = omega arith
differ-digits (suc zero) zero p q = refl
differ-digits (suc zero) (suc zero) p q = refl
differ-digits (suc zero) (suc (suc y)) p q = absurd (omega arith)
differ-digits (suc (suc x)) y p q = absurd (omega arith)

bit_xor_by_digits : (a b : ℕ) → bit_xor a b ≡ bit_xor (a / 2) (b / 2) * 2 + differ (a % 2) (b % 2)
bit_xor_by_digits zero b = simp bit_xor-bitwise (omega arith)
bit_xor_by_digits (suc a) b = simp bit_xor-bitwise (bitwise-lowest differ (λ y. y) a b)

pub bit_xor_step : (a b : ℕ) → bit_xor a b ≡ bit_xor (a / 2) (b / 2) * 2 + (a % 2 + b % 2) % 2
bit_xor_step a b =
    omega (arith, bit_xor_by_digits a b, differ-digits (a % 2) (b % 2) (omega arith) (omega arith))

pub bit_and_step : (x y : ℕ) → bit_and x y ≡ bit_and (x / 2) (y / 2) * 2 + min (x % 2) (y % 2)
bit_and_step (suc x) y = simp bit_and-bitwise (bitwise-lowest min (λ y. 0) x y)
bit_and_step zero y = simp bit_and-bitwise (omega arith)

pub bit_or_step : (x y : ℕ) → bit_or x y ≡ bit_or (x / 2) (y / 2) * 2 + max (x % 2) (y % 2)
bit_or_step (suc x) y = simp bit_or-bitwise (bitwise-lowest max (λ y. y) x y)
bit_or_step zero y = simp bit_or-bitwise (omega arith)
