-- ===== src/Trace.antt =====
-- Traces as JSON-compatible values (src/z80_python/trace.py): the values, and hexadecimal data.
pub mod Hex
pub mod Encode
pub mod Decode
pub mod Record
pub mod RoundTrip
pub mod Compare
use Prim.Native.Char.{Char, code}
use Prim.Native.String.{String}
use z80_python.Base.{
  ◌%◌, ◌&&◌, ◌*◌, ◌+◌, ◌-◌, ◌/◌, ◌==◌, ◌||◌, ◌∷◌, Bool, List, Option, [], get_elem?, if◌then◌else◌,
  leb, none, some, ℕ,
}

-- What `json.loads` gives; `other` is a number that is negative or no integer.
mutual
  pub data Json : Type 0 where
    null : Json
    boolean : Bool → Json
    number : ℕ → Json
    other : Json
    string : String → Json
    array : Items → Json
    object : Members → Json

  pub data Items : Type 0 where
    empty_array : Items
    item : Json → Items → Items

  pub data Members : Type 0 where
    empty_object : Members
    member : String → Json → Members → Members

-- `bytes.hex`.
abbrev hex_digits : List Char
hex_digits =
    "0" ∷ "1" ∷ "2" ∷ "3" ∷ "4" ∷ "5" ∷ "6" ∷ "7" ∷ "8" ∷ "9" ∷ "a" ∷ "b" ∷ "c" ∷ "d" ∷ "e" ∷ "f"
    ∷ []

unfoldable pub hex_digit : ℕ → Char
hex_digit n = elim (get_elem? hex_digits n) [ some c ↦ c | none ↦ "0" ]

abbrev pub hex : List ℕ → String
hex [] = String.[]
hex (v ∷ vs) = String.◌∷◌ (hex_digit (v / 16)) (String.◌∷◌ (hex_digit (v % 16)) (hex vs))

-- `bytes.fromhex`, which takes either case and skips white space between bytes; `none` is its
-- `ValueError`.
unfoldable pub is_space : Char → Bool
is_space c = code c == 32 || (leb 9 (code c) && leb (code c) 13)

unfoldable pub hex_value : Char → Option ℕ
hex_value c =
    let k = code c in
    if leb 48 k && leb k 57
    then some (k - 48)
    else if leb 97 k && leb k 102
    then some (k - 87)
    else if leb 65 k && leb k 70
    then some (k - 55)
    else none

abbrev pub joined_byte : Option ℕ → Option ℕ → Option (List ℕ) → Option (List ℕ)
joined_byte (some high) (some low) (some vs) = some ((high * 16 + low) ∷ vs)
joined_byte high low rest = none

abbrev pub fromhex : String → Option (List ℕ)
fromhex String.[] = some []
fromhex (String.◌∷◌ c String.[]) = if is_space c then some [] else none
fromhex (String.◌∷◌ c (String.◌∷◌ d s)) =
    let skipped = fromhex (String.◌∷◌ d s) in
    let rest = fromhex s in
    if is_space c then skipped else joined_byte (hex_value c) (hex_value d) rest
