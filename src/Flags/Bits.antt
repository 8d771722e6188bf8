-- ===== src/Flags/Bits.antt =====
-- The bits of a `Flags` value.
use mathlib.Core.Path.{subst}
use z80_python.Base.{
  ◌&&◌, ◌<◌, ◌==◌, ◌∷◌, ◌≡◌, Bool, List, [], and_left, and_not, and_right, arith, bit_and, bit_or,
  false, get_elem?, if◌then◌else◌, ltb, refl, some, suc, true, zero, ℕ,
}
use z80_python.Base.Table.{all_below, all_below_sound}
use z80_python.Flags.{
  flag_bit, flag_c, flag_h, flag_n, flag_pv, flag_s, flag_x, flag_y, flag_z, set_flag_bit,
}

abbrev pub all_flags : List ℕ
all_flags = flag_s ∷ flag_z ∷ flag_y ∷ flag_h ∷ flag_x ∷ flag_pv ∷ flag_n ∷ flag_c ∷ []

-- Every one of the flags reads as it should when `mask` has been set to `value`.
abbrev reads : ℕ → ℕ → ℕ → List ℕ → Bool
reads mask value byte [] = true
reads mask value byte (m ∷ ms) =
    flag_bit m (set_flag_bit mask value byte) == (if m == mask then value else flag_bit m byte)
    && reads mask value byte ms

abbrev right : ℕ → ℕ → Bool
right mask byte =
    reads mask 0 byte all_flags
    && (reads mask 1 byte all_flags
        && (ltb (set_flag_bit mask 0 byte) 256 && ltb (set_flag_bit mask 1 byte) 256))

abbrev all_right : List ℕ → Bool
all_right [] = true
all_right (mask ∷ masks) = all_below 256 (right mask) && all_right masks

all_flags_right : all_right all_flags ≡ true
unfolding all_below flag_bit set_flag_bit and_not
all_flags_right = refl

all_right_at :
    (masks : List ℕ) (i mask : ℕ)
    → all_right masks ≡ true
    → get_elem? masks i ≡ some mask
    → all_below 256 (right mask) ≡ true
all_right_at [] i mask h e = cc
all_right_at (m ∷ masks) zero mask h e =
    let same : m ≡ mask = cc in subst (λ x. all_below 256 (right x) ≡ true) same (and_left _ _ h)
all_right_at (m ∷ masks) (suc i) mask h e =
    all_right_at masks i mask (and_right (all_below 256 (right m)) _ h) e

abbrev pub read_after : ℕ → ℕ → ℕ → ℕ → ℕ
read_after mask value byte m = if m == mask then value else flag_bit m byte

reads_at :
    (mask value byte : ℕ) (masks : List ℕ) (j m : ℕ)
    → reads mask value byte masks ≡ true
    → get_elem? masks j ≡ some m
    → flag_bit m (set_flag_bit mask value byte) ≡ read_after mask value byte m
reads_at mask value byte [] j m h e = cc
reads_at mask value byte (x ∷ masks) zero m h e =
    let same : x ≡ m = cc in
    subst (λ y. flag_bit y (set_flag_bit mask value byte) ≡ read_after mask value byte y) same
      (equal _ _ (and_left _ _ h))
  where
    equal : (a b : ℕ) → (a == b) ≡ true → a ≡ b
    equal a b k = ground arith
reads_at mask value byte (x ∷ masks) (suc j) m h e =
    reads_at mask value byte masks j m
      (and_right (flag_bit x (set_flag_bit mask value byte) == read_after mask value byte x) _ h) e

-- `value & 1`, the value that a flag takes.
abbrev pub taken : ℕ → ℕ
taken value = if bit_and value 1 == 0 then 0 else 1

set_flag_bit-taken :
    (mask value byte : ℕ) → set_flag_bit mask value byte ≡ set_flag_bit mask (taken value) byte
unfolding set_flag_bit
set_flag_bit-taken mask value byte = go (bit_and value 1 == 0)
  where
    go :
        (t : Bool)
        → (if t then and_not byte mask else bit_or byte mask)
          ≡ (if bit_and (if t then 0 else 1) 1 == 0 then and_not byte mask else bit_or byte mask)
    go true = refl
    go false = refl

-- Setting one of the eight flags of a byte to a value gives a byte in which that flag reads as the
-- lowest bit of the value, and each of the others as before.
pub flag_bit-set_flag_bit :
    (i j mask m value byte : ℕ)
    → get_elem? all_flags i ≡ some mask
    → get_elem? all_flags j ≡ some m
    → byte < 256
    → (flag_bit m (set_flag_bit mask value byte)
        ≡ (if m == mask then taken value else flag_bit m byte))
      × (set_flag_bit mask value byte < 256)
flag_bit-set_flag_bit i j mask m value byte here there lt =
    rw (set_flag_bit-taken mask value byte) (go (bit_and value 1 == 0))
  where
    checked : right mask byte ≡ true
    checked =
        all_below_sound 256 (right mask) byte (all_right_at all_flags i mask all_flags_right here)
          lt

    after_zero : reads mask 0 byte all_flags ≡ true
    after_zero = and_left (reads mask 0 byte all_flags) _ checked

    more :
        (reads mask 1 byte all_flags
          && (ltb (set_flag_bit mask 0 byte) 256 && ltb (set_flag_bit mask 1 byte) 256))
        ≡ true
    more = and_right (reads mask 0 byte all_flags) _ checked

    narrow : (ltb (set_flag_bit mask 0 byte) 256 && ltb (set_flag_bit mask 1 byte) 256) ≡ true
    narrow = and_right (reads mask 1 byte all_flags) _ more

    below : (x : ℕ) → ltb x 256 ≡ true → x < 256
    below x h = ground arith

    go :
        (t : Bool)
        → let v : ℕ = if t then 0 else 1 in
          (flag_bit m (set_flag_bit mask v byte) ≡ (if m == mask then v else flag_bit m byte))
          × (set_flag_bit mask v byte < 256)
    go true = (
      reads_at mask 0 byte all_flags j m after_zero there,
      below _ (and_left (ltb (set_flag_bit mask 0 byte) 256) _ narrow),
    )
    go false = (
      reads_at mask 1 byte all_flags j m (and_left (reads mask 1 byte all_flags) _ more) there,
      below _ (and_right (ltb (set_flag_bit mask 0 byte) 256) _ narrow),
    )
