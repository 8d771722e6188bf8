-- ===== src/Disasm/Main.antt =====
-- `_decode_cb`, `_decode_ed` and `_decode_main` (src/z80_python/disasm.py).
use Prim.Native.String.{String}
use z80_python.Base.{
  ◌%◌, ◌&&◌, ◌-◌, ◌<<<◌, ◌==◌, ◌>>>◌, ◌∷◌, List, [], if◌then◌else◌, leb, lookup, ltb, none, some,
  u2, u3, ℕ,
}
use z80_python.Disasm.{
  ◌>>=◌, Decoder, Instruction, alu_instruction, condition, digits, fail, hex16, hex8,
  in_parentheses, instruction_at, pair_of, pick, pure, read_next, register, relative_target, rotate,
  stack_pair, word,
}
use z80_python.Dispatch.Page.{contains}
use z80_python.Prog.{not_implemented, value_error}

unfoldable pub decode_cb : ℕ → Decoder Instruction
decode_cb start = do
  op ← read_next pure
  let group = op >>> 6
  let y = u3 (op >>> 3)
  let operand = register (u3 op)
  if group == 0
      then instruction_at start (rotate y) (operand ∷ [])
      else instruction_at start (pick ("BIT" ∷ "RES" ∷ "SET" ∷ []) (group - 1))
          (pick digits y ∷ operand ∷ [])

-- The dictionaries of `_decode_ed`.
unfoldable pub ed_simple : List (ℕ × List String)
ed_simple =
    (0x47, "LD" ∷ "I" ∷ "A" ∷ [])
    ∷ (0x4F, "LD" ∷ "R" ∷ "A" ∷ [])
    ∷ (0x57, "LD" ∷ "A" ∷ "I" ∷ [])
    ∷ (0x5F, "LD" ∷ "A" ∷ "R" ∷ [])
    ∷ (0x67, "RRD" ∷ [])
    ∷ (0x6F, "RLD" ∷ [])
    ∷ (0x77, "NOP" ∷ [])
    ∷ (0x7F, "NOP" ∷ [])
    ∷ []

unfoldable pub ed_modes : List (ℕ × String)
ed_modes =
    (0x46, "0")
    ∷ (0x4E, "0")
    ∷ (0x56, "1")
    ∷ (0x5E, "2")
    ∷ (0x66, "0")
    ∷ (0x6E, "0")
    ∷ (0x76, "1")
    ∷ (0x7E, "2")
    ∷ []

unfoldable pub ed_blocks : List (ℕ × String)
ed_blocks =
    (0xA0, "LDI")
    ∷ (0xA1, "CPI")
    ∷ (0xA2, "INI")
    ∷ (0xA3, "OUTI")
    ∷ (0xA8, "LDD")
    ∷ (0xA9, "CPD")
    ∷ (0xAA, "IND")
    ∷ (0xAB, "OUTD")
    ∷ (0xB0, "LDIR")
    ∷ (0xB1, "CPIR")
    ∷ (0xB2, "INIR")
    ∷ (0xB3, "OTIR")
    ∷ (0xB8, "LDDR")
    ∷ (0xB9, "CPDR")
    ∷ (0xBA, "INDR")
    ∷ (0xBB, "OTDR")
    ∷ []

-- The end of `_decode_ed`, from `simple` on.
unfoldable pub decode_ed_table : ℕ → ℕ → Decoder Instruction
decode_ed_table start op = elim (lookup {V = List String} op ed_simple) [
  | some [] ↦ fail value_error
  | some (mnemonic ∷ operands) ↦ instruction_at start mnemonic operands
  | none ↦ elim (lookup {V = String} op ed_modes) [
    | some mode ↦ instruction_at start "IM" (mode ∷ [])
    | none ↦ elim (lookup {V = String} op ed_blocks) [
      | some mnemonic ↦ instruction_at start mnemonic []
      | none ↦ instruction_at start "NOP" []
    ]
  ]
]

unfoldable pub decode_ed_opcode : ℕ → ℕ → Decoder Instruction
decode_ed_opcode start op =
    let y = u3 (op >>> 3) in
    let pair = pair_of (u2 (op >>> 4)) in
    if leb 0x40 op && (leb op 0x78 && u3 op == 0)
    then instruction_at start "IN" (if y == 6 then "(C)" ∷ [] else register y ∷ "(C)" ∷ [])
    else if leb 0x41 op && (leb op 0x79 && u3 op == 1)
    then instruction_at start "OUT" ("(C)" ∷ (if y == 6 then "0" else register y) ∷ [])
    else if contains op (0x42 ∷ 0x52 ∷ 0x62 ∷ 0x72 ∷ [])
    then instruction_at start "SBC" ("HL" ∷ pair ∷ [])
    else if contains op (0x4A ∷ 0x5A ∷ 0x6A ∷ 0x7A ∷ [])
    then instruction_at start "ADC" ("HL" ∷ pair ∷ [])
    else if contains op (0x43 ∷ 0x53 ∷ 0x63 ∷ 0x73 ∷ [])
    then (do address ← word; instruction_at start "LD" (in_parentheses (hex16 address) ∷ pair ∷ []))
    else if contains op (0x4B ∷ 0x5B ∷ 0x6B ∷ 0x7B ∷ [])
    then (do address ← word; instruction_at start "LD" (pair ∷ in_parentheses (hex16 address) ∷ []))
    else if contains op (0x44 ∷ 0x4C ∷ 0x54 ∷ 0x5C ∷ 0x64 ∷ 0x6C ∷ 0x74 ∷ 0x7C ∷ [])
    then instruction_at start "NEG" []
    else if contains op (0x45 ∷ 0x55 ∷ 0x65 ∷ 0x75 ∷ [])
    then instruction_at start "RETN" []
    else if contains op (0x4D ∷ 0x5D ∷ 0x6D ∷ 0x7D ∷ [])
    then instruction_at start "RETI" []
    else decode_ed_table start op

unfoldable pub decode_ed : ℕ → Decoder Instruction
decode_ed start = read_next (decode_ed_opcode start)

-- An instruction whose operands show a word, a byte or a jump target that is read for them.
abbrev with_word : ℕ → String → (String → List String) → Decoder Instruction
with_word start mnemonic operands = do
  value ← word
  instruction_at start mnemonic (operands (hex16 value))

abbrev with_byte : ℕ → String → (String → List String) → Decoder Instruction
with_byte start mnemonic operands = do
  value ← read_next pure
  instruction_at start mnemonic (operands (hex8 value))

abbrev with_target : ℕ → String → (String → List String) → Decoder Instruction
with_target start mnemonic operands = do
  target ← relative_target
  instruction_at start mnemonic (operands target)

-- `x == 0` and `z == 0`.
unfoldable pub decode_relative : ℕ → ℕ → Decoder Instruction
decode_relative start y =
    if y == 0
    then instruction_at start "NOP" []
    else if y == 1
    then instruction_at start "EX" ("AF" ∷ "AF'" ∷ [])
    else if y == 2
    then with_target start "DJNZ" (λ t. t ∷ [])
    else if y == 3
    then with_target start "JR" (λ t. t ∷ [])
    else with_target start "JR" (λ t. condition (y - 4) ∷ t ∷ [])

-- `x == 0` and `z == 2`.
unfoldable pub decode_indirect : ℕ → ℕ → ℕ → Decoder Instruction
decode_indirect start p q =
    let other = if p == 2 then "HL" else "A" in
    if ltb p 2
    then (let place = pick ("(BC)" ∷ "(DE)" ∷ []) p in
        instruction_at start "LD" (if q == 0 then place ∷ other ∷ [] else other ∷ place ∷ []))
    else with_word start "LD" (λ t.
      let place = in_parentheses t in if q == 0 then place ∷ other ∷ [] else other ∷ place ∷ [])

-- `x == 0`.
unfoldable pub decode_main_low : ℕ → ℕ → ℕ → Decoder Instruction
decode_main_low start y z =
    let p = y >>> 1 in
    let q = y % 2 in
    if z == 0
    then decode_relative start y
    else if z == 1
    then (if q == 0
        then with_word start "LD" (λ t. pair_of p ∷ t ∷ [])
        else instruction_at start "ADD" ("HL" ∷ pair_of p ∷ []))
    else if z == 2
    then decode_indirect start p q
    else if z == 3
    then instruction_at start (if q == 0 then "INC" else "DEC") (pair_of p ∷ [])
    else if z == 4
    then instruction_at start "INC" (register y ∷ [])
    else if z == 5
    then instruction_at start "DEC" (register y ∷ [])
    else if z == 6
    then with_byte start "LD" (λ t. register y ∷ t ∷ [])
    else instruction_at start
        (pick ("RLCA" ∷ "RRCA" ∷ "RLA" ∷ "RRA" ∷ "DAA" ∷ "CPL" ∷ "SCF" ∷ "CCF" ∷ []) y) []

-- `x == 3` and `z == 1`.
unfoldable pub decode_return : ℕ → ℕ → ℕ → Decoder Instruction
decode_return start p q =
    if q == 0
    then instruction_at start "POP" (stack_pair p ∷ [])
    else if p == 0
    then instruction_at start "RET" []
    else if p == 1
    then instruction_at start "EXX" []
    else if p == 2
    then instruction_at start "JP" ("(HL)" ∷ [])
    else instruction_at start "LD" ("SP" ∷ "HL" ∷ [])

-- `x == 3` and `z == 3`; no branch is taken at `y == 1`, the CB prefix.
unfoldable pub decode_exchange : ℕ → ℕ → Decoder Instruction → Decoder Instruction
decode_exchange start y otherwise =
    if y == 0
    then with_word start "JP" (λ t. t ∷ [])
    else if y == 2
    then with_byte start "OUT" (λ t. in_parentheses t ∷ "A" ∷ [])
    else if y == 3
    then with_byte start "IN" (λ t. "A" ∷ in_parentheses t ∷ [])
    else if y == 4
    then instruction_at start "EX" ("(SP)" ∷ "HL" ∷ [])
    else if y == 5
    then instruction_at start "EX" ("DE" ∷ "HL" ∷ [])
    else if y == 6
    then instruction_at start "DI" []
    else if y == 7
    then instruction_at start "EI" []
    else otherwise

-- `x == 3`.
unfoldable pub decode_main_high : ℕ → ℕ → ℕ → Decoder Instruction
decode_main_high start y z =
    let p = y >>> 1 in
    let q = y % 2 in
    let unhandled : Decoder Instruction = fail not_implemented in
    if z == 0
    then instruction_at start "RET" (condition y ∷ [])
    else if z == 1
    then decode_return start p q
    else if z == 2
    then with_word start "JP" (λ t. condition y ∷ t ∷ [])
    else if z == 3
    then decode_exchange start y unhandled
    else if z == 4
    then with_word start "CALL" (λ t. condition y ∷ t ∷ [])
    else if z == 5
    then (if q == 0
        then instruction_at start "PUSH" (stack_pair p ∷ [])
        else if p == 0
        then with_word start "CALL" (λ t. t ∷ [])
        else unhandled)
    else if z == 6
    then (do value ← read_next pure; alu_instruction start y (hex8 value))
    else if z == 7
    then instruction_at start "RST" (hex8 (y <<< 3) ∷ [])
    else unhandled

unfoldable pub decode_main : ℕ → ℕ → Decoder Instruction
decode_main start op =
    let x = op >>> 6 in
    let y = u3 (op >>> 3) in
    let z = u3 op in
    if x == 0
    then decode_main_low start y z
    else if x == 1
    then (if op == 0x76
        then instruction_at start "HALT" []
        else instruction_at start "LD" (register y ∷ register z ∷ []))
    else if x == 2
    then alu_instruction start y (register z)
    else decode_main_high start y z
