-- ===== src/Trace/Hex.antt =====
-- Hexadecimal data, there and back.
use z80_python.Base.{
  ◌%◌, ◌&&◌, ◌/◌, ◌<◌, ◌==◌, ◌∷◌, ◌≡◌, Bool, List, Option, [], and_left, and_right, ap, arith,
  false, leb, none, not, refl, some, sym, true, ℕ,
}
use z80_python.Base.Table.{all_below, all_below_sound}
use z80_python.Disasm.Entry.{all_bytes}
use z80_python.Trace.{fromhex, hex, hex_digit, hex_value, is_space}

abbrev value_is : ℕ → Option ℕ → Bool
value_is n none = false
value_is n (some v) = v == n

abbrev is_read : ℕ → Bool
is_read n = not (is_space (hex_digit n)) && value_is n (hex_value (hex_digit n))

all_read : all_below 16 is_read ≡ true
unfolding all_below is_space hex_digit hex_value
all_read = refl

no_space : (n : ℕ) → n < 16 → is_space (hex_digit n) ≡ false
no_space n h = opposite _ (and_left _ _ (all_below_sound 16 is_read n all_read h))
  where
    opposite : (b : Bool) → not b ≡ true → b ≡ false
    opposite true k = sym k
    opposite false k = refl

hex_value-hex_digit : (n : ℕ) → n < 16 → hex_value (hex_digit n) ≡ some n
hex_value-hex_digit n h =
    known (hex_value (hex_digit n))
      (and_right (not (is_space (hex_digit n))) _ (all_below_sound 16 is_read n all_read h))
  where
    known : (o : Option ℕ) → value_is n o ≡ true → o ≡ some n
    known none k = cc
    known (some v) k = ap some (ground arith)

pub fromhex-hex : (vs : List ℕ) → all_bytes vs ≡ true → fromhex (hex vs) ≡ some vs
fromhex-hex [] h = refl
fromhex-hex (v ∷ vs) h =
    let high : v / 16 < 16 = ground arith in
    let low : v % 16 < 16 = omega arith in
    let ih = fromhex-hex vs (and_right (leb v 0xFF) _ h) in
    rw
      (
        no_space (v / 16) high,
        hex_value-hex_digit (v / 16) high,
        hex_value-hex_digit (v % 16) low,
        ih,
      )
      (ap (λ x. some (x ∷ vs)) (omega arith))
