-- ===== src/Disasm/Prefixed.antt =====
-- `_decode_index_cb` and `_decode_index` (src/z80_python/disasm.py).
use Prim.Native.String.{String}
use Prim.Native.String
use z80_python.Base.{
  ◌%◌, ◌&&◌, ◌-◌, ◌==◌, ◌>>>◌, ◌||◌, ◌∷◌, Bool, List, [], false, if◌then◌else◌, leb, ltb, not, suc,
  true, u2, u3, zero, ℕ,
}
use z80_python.Disasm.{
  ◌>>=◌, Decoder, Instruction, alu_instruction, digits, fail, hex16, hex8, in_parentheses,
  indexed_operand, instruction_at, pair_of, pick, pure, read_next, register, rotate, starved, word,
}
use z80_python.Disasm.Main.{decode_ed, decode_main}
use z80_python.Dispatch.Execute.{is_prefix}
use z80_python.Dispatch.Page.{contains}
use z80_python.Prog.{not_implemented}

-- `_INDEX_PLAIN_LD` and `_INDEX_PLAIN_ALU`.
abbrev index_plain_ld : List ℕ
index_plain_ld =
    0x40 ∷ 0x41 ∷ 0x42 ∷ 0x43 ∷ 0x47 ∷ 0x48 ∷ 0x49 ∷ 0x4A ∷ 0x4B ∷ 0x4F ∷ 0x50 ∷ 0x51 ∷ 0x52 ∷ 0x53
    ∷ 0x57 ∷ 0x58 ∷ 0x59 ∷ 0x5A ∷ 0x5B ∷ 0x5F ∷ 0x78 ∷ 0x79 ∷ 0x7A ∷ 0x7B ∷ 0x7F ∷ []

abbrev index_plain_alu : ℕ → Bool
index_plain_alu op = leb 0x80 op && (ltb op 0xC0 && contains (u3 op) (0 ∷ 1 ∷ 2 ∷ 3 ∷ 7 ∷ []))

-- The rest of `_INDEX_IGNORED`.
abbrev index_other : List ℕ
index_other =
    0x00 ∷ 0x01 ∷ 0x08 ∷ 0x10 ∷ 0x11 ∷ 0x31 ∷ 0x76 ∷ 0x04 ∷ 0x0C ∷ 0x14 ∷ 0x1C ∷ 0x3C ∷ 0x05 ∷ 0x0D
    ∷ 0x15 ∷ 0x1D ∷ 0x3D ∷ 0x03 ∷ 0x13 ∷ 0x33 ∷ 0x0B ∷ 0x1B ∷ 0x3B ∷ 0x06 ∷ 0x0E ∷ 0x16 ∷ 0x1E
    ∷ 0x3E ∷ 0x0A ∷ 0x1A ∷ 0x02 ∷ 0x12 ∷ 0x3A ∷ 0x32 ∷ 0xDB ∷ 0xD3 ∷ 0x18 ∷ 0x20 ∷ 0x28 ∷ 0x30
    ∷ 0x38 ∷ 0x27 ∷ 0x2F ∷ 0x37 ∷ 0x3F ∷ 0x07 ∷ 0x0F ∷ 0x17 ∷ 0x1F ∷ 0xC2 ∷ 0xCA ∷ 0xD2 ∷ 0xDA
    ∷ 0xE2 ∷ 0xEA ∷ 0xF2 ∷ 0xFA ∷ 0xC3 ∷ 0xC4 ∷ 0xCC ∷ 0xD4 ∷ 0xDC ∷ 0xE4 ∷ 0xEC ∷ 0xF4 ∷ 0xFC
    ∷ 0xCD ∷ 0xC6 ∷ 0xCE ∷ 0xD6 ∷ 0xDE ∷ 0xE6 ∷ 0xEE ∷ 0xF6 ∷ 0xFE ∷ 0xC1 ∷ 0xC5 ∷ 0xC9 ∷ 0xD1
    ∷ 0xD5 ∷ 0xD9 ∷ 0xEB ∷ 0xF1 ∷ 0xF3 ∷ 0xF5 ∷ 0xFB ∷ []

-- `range(first, 0x100, 8)`.
abbrev every_eighth : ℕ → ℕ → Bool
every_eighth first op = leb first op && (ltb op 0x100 && (op - first) % 8 == 0)

unfoldable pub index_ignored : ℕ → Bool
index_ignored op =
    contains op index_other
    || (contains op index_plain_ld
        || (index_plain_alu op || (every_eighth 0xC0 op || every_eighth 0xC7 op)))

unfoldable pub decode_index_cb : ℕ → String → Decoder Instruction
decode_index_cb start index = do
  operand ← indexed_operand index
  op ← read_next pure
  let group = op >>> 6
  let y = u3 (op >>> 3)
  let destination = u3 op
  if group == 0
      then instruction_at start (rotate y)
          (if destination == 6 then operand ∷ [] else operand ∷ register destination ∷ [])
      else instruction_at start (pick ("BIT" ∷ "RES" ∷ "SET" ∷ []) (group - 1)) (
          if not (group == 1) && not (destination == 6)
          then pick digits y ∷ operand ∷ register destination ∷ []
          else pick digits y ∷ operand ∷ [])

-- An instruction with an indexed operand.
abbrev with_indexed : ℕ → String → String → (String → List String) → Decoder Instruction
with_indexed start index mnemonic operands = do
  operand ← indexed_operand index
  instruction_at start mnemonic (operands operand)

-- The cases of `_decode_index` on the halves of an index register.
unfoldable pub decode_halves : ℕ → String → ℕ → Decoder Instruction → Decoder Instruction
decode_halves start index op otherwise =
    let high = String.◌++◌ index "H" in
    let low = String.◌++◌ index "L" in
    let y = u3 (op >>> 3) in
    let z = u3 op in
    let destination = if y == 4 then high else low in
    let source = if z == 4 then high else low in
    if contains op (0x7C ∷ 0x7D ∷ [])
    then instruction_at start "LD" ("A" ∷ (if op == 0x7C then high else low) ∷ [])
    else if contains op (0x44 ∷ 0x45 ∷ 0x4C ∷ 0x4D ∷ 0x54 ∷ 0x55 ∷ 0x5C ∷ 0x5D ∷ [])
    then instruction_at start "LD" (register y ∷ source ∷ [])
    else if contains op (0x64 ∷ 0x65 ∷ 0x6C ∷ 0x6D ∷ [])
    then instruction_at start "LD" (destination ∷ source ∷ [])
    else if contains op (0x60 ∷ 0x61 ∷ 0x62 ∷ 0x63 ∷ 0x67 ∷ 0x68 ∷ 0x69 ∷ 0x6A ∷ 0x6B ∷ 0x6F ∷ [])
    then instruction_at start "LD" (destination ∷ register z ∷ [])
    else if contains op (0x26 ∷ 0x2E ∷ [])
    then (do value ← read_next pure; instruction_at start "LD" (destination ∷ hex8 value ∷ []))
    else if contains op (0x24 ∷ 0x25 ∷ 0x2C ∷ 0x2D ∷ [])
    then instruction_at start (if z == 4 then "INC" else "DEC") (destination ∷ [])
    else if contains op (
        0x84 ∷ 0x85 ∷ 0x8C ∷ 0x8D ∷ 0x94 ∷ 0x95 ∷ 0x9C ∷ 0x9D ∷ 0xA4 ∷ 0xA5 ∷ 0xAC ∷ 0xAD ∷ 0xB4
        ∷ 0xB5 ∷ 0xBC ∷ 0xBD ∷ [])
    then alu_instruction start y source
    else otherwise

-- The cases on the whole register and its pairs.
unfoldable pub decode_index_words : ℕ → String → ℕ → Decoder Instruction → Decoder Instruction
decode_index_words start index op otherwise =
    if contains op (0x09 ∷ 0x19 ∷ 0x29 ∷ 0x39 ∷ [])
    then (let pair = if u2 (op >>> 4) == 2 then index else pair_of (u2 (op >>> 4)) in
        instruction_at start "ADD" (index ∷ pair ∷ []))
    else if op == 0x21
    then (do value ← word; instruction_at start "LD" (index ∷ hex16 value ∷ []))
    else if op == 0x22
    then (do value ← word; instruction_at start "LD" (in_parentheses (hex16 value) ∷ index ∷ []))
    else if contains op (0x23 ∷ 0x2B ∷ [])
    then instruction_at start (if op == 0x23 then "INC" else "DEC") (index ∷ [])
    else if op == 0x2A
    then (do value ← word; instruction_at start "LD" (index ∷ in_parentheses (hex16 value) ∷ []))
    else otherwise

-- The cases on memory at the index register and a displacement.
unfoldable pub decode_index_memory : ℕ → String → ℕ → Decoder Instruction → Decoder Instruction
decode_index_memory start index op otherwise =
    let y = u3 (op >>> 3) in
    let z = u3 op in
    if contains op (0x34 ∷ 0x35 ∷ [])
    then with_indexed start index (if op == 0x34 then "INC" else "DEC") (λ t. t ∷ [])
    else if op == 0x36
    then (do
      operand ← indexed_operand index
      value ← read_next pure
      instruction_at start "LD" (operand ∷ hex8 value ∷ []))
    else if contains op (0x46 ∷ 0x4E ∷ 0x56 ∷ 0x5E ∷ 0x66 ∷ 0x6E ∷ 0x7E ∷ [])
    then with_indexed start index "LD" (λ t. register y ∷ t ∷ [])
    else if contains op (0x70 ∷ 0x71 ∷ 0x72 ∷ 0x73 ∷ 0x74 ∷ 0x75 ∷ 0x77 ∷ [])
    then with_indexed start index "LD" (λ t. t ∷ register z ∷ [])
    else if z == 6 && (leb 0x80 op && leb op 0xBF)
    then (do operand ← indexed_operand index; alu_instruction start y operand)
    else otherwise

-- The cases from `POP` on, and the exception after them.
unfoldable pub decode_index_rest : ℕ → String → ℕ → Decoder Instruction
decode_index_rest start index op =
    if op == 0xE1
    then instruction_at start "POP" (index ∷ [])
    else if op == 0xE3
    then instruction_at start "EX" ("(SP)" ∷ index ∷ [])
    else if op == 0xE5
    then instruction_at start "PUSH" (index ∷ [])
    else if op == 0xE9
    then instruction_at start "JP" (in_parentheses index ∷ [])
    else if op == 0xF9
    then instruction_at start "LD" ("SP" ∷ index ∷ [])
    else fail not_implemented

-- The body of `_decode_index` after its loop.
unfoldable pub decode_index_opcode : ℕ → ℕ → ℕ → Decoder Instruction
decode_index_opcode start prefix op =
    let index = if prefix == 0xDD then "IX" else "IY" in
    if op == 0xED
    then decode_ed start
    else if op == 0xCB
    then decode_index_cb start index
    else if index_ignored op
    then decode_main start op
    else decode_halves start index op (
        decode_index_words start index op
          (decode_index_memory start index op (decode_index_rest start index op)))

-- `_decode_index`; the source's loop has no bound.
unfoldable pub decode_index : ℕ → ℕ → ℕ → ℕ → Decoder Instruction
decode_index zero start prefix op =
    if is_prefix op then starved else decode_index_opcode start prefix op
decode_index (suc fuel) start prefix op = elim (is_prefix op) [
  | true ↦ read_next (λ next. decode_index fuel start op next)
  | false ↦ decode_index_opcode start prefix op
]
