-- ===== src/Disasm/Entry.antt =====
-- `disassemble` and `disassemble_bytes` (src/z80_python/disasm.py).
pub mod Runs
pub mod Encoding
pub mod Complete
pub mod Again
pub mod Fuel
use z80_python.Base.{
  ◌&&◌, ◌++◌, ◌+◌, ◌-◌, ◌==◌, ◌∷◌, Bool, List, [], false, get_elem?, if◌then◌else◌, inc16, leb,
  none, not, some, true, u16, ℕ,
}
use z80_python.Disasm.{Cursor, Decoder, Instruction, at_cursor, fail, pure, read_next, starved}
use z80_python.Disasm.Main.{decode_cb, decode_ed, decode_main}
use z80_python.Disasm.Prefixed.{decode_index}
use z80_python.Dispatch.Execute.{is_prefix}
use z80_python.Host.{Outcome, done, no_fuel, raised}
use z80_python.Prog.{Result, err, ok, value_error}

-- A byte reader, which may raise.
abbrev pub Reader : Type 0
Reader = ℕ → Result ℕ

abbrev pub advanced : ℕ → Cursor → Cursor
advanced v c = record { address = inc16 c.address; bytes = c.bytes ++ v ∷ [] }

-- A decoder on a reader: each read is `_Cursor.read`.
unfoldable pub decode : {A : Type 0} → Reader → Decoder A → Cursor → Outcome A
decode reader (pure a) c = done a
decode reader (fail e) c = raised e
decode reader starved c = no_fuel
decode reader (at_cursor k) c = decode reader (k c) c
decode reader (read_next k) c = elim (reader c.address) [
  | err e ↦ raised e
  | ok v ↦ elim (leb v 0xFF) [
    | true ↦ decode reader (k v) (advanced v c)
    | false ↦ raised value_error
  ]
]

-- The decoder that the first byte selects.
unfoldable pub decode_first : ℕ → ℕ → ℕ → Decoder Instruction
decode_first fuel start op =
    if op == 0xCB
    then decode_cb start
    else if op == 0xED
    then decode_ed start
    else if is_prefix op
    then read_next (λ next. decode_index fuel start op next)
    else decode_main start op

unfoldable pub disassemble : ℕ → Reader → ℕ → Outcome Instruction
disassemble fuel reader address =
    if leb address 0xFFFF
    then decode reader (read_next (decode_first fuel address))
        (record { address = address; bytes = [] })
    else raised value_error

-- The reader of `disassemble_bytes`. Where the source subtracts, 2 ^ 16 is added first.
unfoldable pub encoded_reader : List ℕ → ℕ → Reader
encoded_reader encoded address read_address =
    elim (get_elem? encoded (u16 (read_address + 0x10000 - address))) [
      | none ↦ err value_error
      | some v ↦ ok v
    ]

abbrev pub all_bytes : List ℕ → Bool
all_bytes [] = true
all_bytes (v ∷ vs) = leb v 0xFF && all_bytes vs

-- `bytes(data)` raises the same `ValueError` for a number that is no byte.
unfoldable pub disassemble_bytes : ℕ → List ℕ → ℕ → Outcome Instruction
disassemble_bytes fuel encoded address =
    if not (leb address 0xFFFF)
    then raised value_error
    else if not (all_bytes encoded)
    then raised value_error
    else elim encoded [
      | [] ↦ raised value_error
      | v ∷ vs ↦ disassemble fuel (encoded_reader (v ∷ vs) address) address
    ]
