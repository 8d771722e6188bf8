-- ===== src/Disasm.antt =====
-- Side-effect-free disassembly (src/z80_python/disasm.py): instructions as text, the cursor over a
-- reader, and the decoders as programs that read byte after byte.
pub mod Main
pub mod Prefixed
pub mod Entry
pub mod Agreement
use Prim.Native.String.{String}
use Prim.Native.String
use z80_python.Base.{
  ◌%◌, ◌++◌, ◌+◌, ◌-◌, ◌/◌, ◌<<<◌, ◌==◌, ◌||◌, ◌∷◌, Bool, List, [], bit_and, bit_or, if◌then◌else◌,
  length, suc, u16, u8, zero, ℕ,
}
use z80_python.Core.{signed8}
use z80_python.Prog.{Error}

-- `Instruction`; `bytes` is its `data`.
pub record Instruction : Type 0 where
  pub address : ℕ
  pub bytes : List ℕ
  pub mnemonic : String
  pub operands : List String

-- `size`, `next_address` and `text`.
unfoldable pub size : Instruction → ℕ
size shown = length shown.bytes

unfoldable pub next_address : Instruction → ℕ
unfolding size
next_address shown = u16 (shown.address + size shown)

-- `", ".join(…)`.
abbrev joined : List String → String
joined [] = ""
joined (t ∷ []) = t
joined (t ∷ u ∷ ts) = String.◌++◌ t (String.◌++◌ ", " (joined (u ∷ ts)))

unfoldable pub text : Instruction → String
text shown = elim shown.operands [
  | [] ↦ shown.mnemonic
  | t ∷ ts ↦ String.◌++◌ shown.mnemonic (String.◌++◌ " " (joined (t ∷ ts)))
]

-- `_Cursor`, without its reader.
pub record Cursor : Type 0 where
  pub address : ℕ
  pub bytes : List ℕ

-- A decoder reads the next byte or looks at the cursor, and ends in a value or an exception;
-- `starved` stands for a run of prefixes that is longer than the fuel given.
pub data Decoder (A : Type 0) : Type 0 where
  pure : A → Decoder A
  fail : Error → Decoder A
  starved : Decoder A
  read_next : (ℕ → Decoder A) → Decoder A
  at_cursor : (Cursor → Decoder A) → Decoder A

infixl 5 ◌>>=◌
abbrev pub ◌>>=◌ : {A B : Type 0} → Decoder A → (A → Decoder B) → Decoder B
pure a >>= f = f a
fail e >>= f = fail e
starved >>= f = starved
read_next k >>= f = read_next (λ v. k v >>= f)
at_cursor k >>= f = at_cursor (λ c. k c >>= f)

-- `texts[i]`; the callers' numbers are below the length.
abbrev pub pick : List String → ℕ → String
pick [] i = ""
pick (t ∷ ts) zero = t
pick (t ∷ ts) (suc i) = pick ts i

abbrev registers : List String
registers = "B" ∷ "C" ∷ "D" ∷ "E" ∷ "H" ∷ "L" ∷ "(HL)" ∷ "A" ∷ []

unfoldable pub register : ℕ → String
register i = pick registers i

unfoldable pub pair_of : ℕ → String
pair_of i = pick ("BC" ∷ "DE" ∷ "HL" ∷ "SP" ∷ []) i

unfoldable pub stack_pair : ℕ → String
stack_pair i = pick ("BC" ∷ "DE" ∷ "HL" ∷ "AF" ∷ []) i

unfoldable pub condition : ℕ → String
condition i = pick ("NZ" ∷ "Z" ∷ "NC" ∷ "C" ∷ "PO" ∷ "PE" ∷ "P" ∷ "M" ∷ []) i

unfoldable pub rotate : ℕ → String
rotate i = pick ("RLC" ∷ "RRC" ∷ "RL" ∷ "RR" ∷ "SLA" ∷ "SRA" ∷ "SLL" ∷ "SRL" ∷ []) i

-- `_ALU`: the mnemonic, and whether A is written.
unfoldable pub alu_name : ℕ → String
alu_name i = pick ("ADD" ∷ "ADC" ∷ "SUB" ∷ "SBC" ∷ "AND" ∷ "XOR" ∷ "OR" ∷ "CP" ∷ []) i

unfoldable pub explicit_a : ℕ → Bool
explicit_a i = i == 0 || (i == 1 || i == 3)

abbrev pub digits : List String
digits =
    "0" ∷ "1" ∷ "2" ∷ "3" ∷ "4" ∷ "5" ∷ "6" ∷ "7" ∷ "8" ∷ "9" ∷ "A" ∷ "B" ∷ "C" ∷ "D" ∷ "E" ∷ "F"
    ∷ []

-- One and two upper-case hexadecimal digits.
abbrev digit : ℕ → String
digit n = pick digits n

abbrev pub two_digits : ℕ → String
two_digits v = String.◌++◌ (digit (v / 16 % 16)) (digit (v % 16))

unfoldable pub hex8 : ℕ → String
hex8 value = String.◌++◌ "0x" (two_digits value)

unfoldable pub hex16 : ℕ → String
hex16 value = String.◌++◌ "0x" (String.◌++◌ (two_digits (value / 256)) (two_digits (value % 256)))

-- `f"({t})"`.
unfoldable pub in_parentheses : String → String
in_parentheses t = String.◌++◌ "(" (String.◌++◌ t ")")

unfoldable pub word : Decoder ℕ
word = do low ← read_next pure; high ← read_next pure; pure (bit_or low (high <<< 8))

unfoldable pub relative_target : Decoder String
relative_target = do
  byte ← read_next pure
  at_cursor (λ cursor. pure (hex16 (u16 (cursor.address + signed8 byte))))

-- `(-displacement) & 0xFF` of a byte is `0x100 - displacement`, modulo 256.
unfoldable pub indexed_operand : String → Decoder String
indexed_operand index = do
  displacement ← read_next pure
  pure (
      if bit_and displacement 0x80 == 0
      then in_parentheses (String.◌++◌ index (String.◌++◌ "+" (hex8 displacement)))
      else in_parentheses (String.◌++◌ index (String.◌++◌ "-" (hex8 (u8 (0x100 - displacement))))))

unfoldable pub instruction_at : ℕ → String → List String → Decoder Instruction
instruction_at start mnemonic operands = at_cursor (λ cursor.
    pure
      (record { address = start; bytes = cursor.bytes; mnemonic = mnemonic; operands = operands }))

unfoldable pub alu_instruction : ℕ → ℕ → String → Decoder Instruction
alu_instruction start operation source =
    instruction_at start (alu_name operation)
      (if explicit_a operation then "A" ∷ source ∷ [] else source ∷ [])
