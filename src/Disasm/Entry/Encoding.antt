-- ===== src/Disasm/Entry/Encoding.antt =====
-- What `disassemble` gives: the bytes that it read, one after another from the address on.
use mathlib.Core.Path.{subst}
use mathlib.Core.List.{append-nil, append_assoc}
use z80_python.Base.{
  ◌++◌, ◌<◌, ◌∙◌, ◌∷◌, ◌≡◌, List, [], arith, inc16, leb, le→leb, refl, sym, true, ℕ,
}
use z80_python.Disasm.{Cursor, Decoder, Instruction, at_cursor, fail, pure, read_next, starved}
use z80_python.Disasm.Entry.{Reader, advanced, decode, decode_first, disassemble}
use z80_python.Disasm.Entry.Complete.{decode_first-Sound}
use z80_python.Disasm.Entry.Runs.{Sound}
use z80_python.Host.{Outcome, done, no_fuel, raised}
use z80_python.Prog.{ok}

-- The reader has these bytes from `address` on, which wraps.
abbrev pub Holds : Reader → ℕ → List ℕ → Type 0
Holds reader address [] = Unit
Holds reader address (v ∷ vs) =
    (reader address ≡ ok v) × (v < 256) × Holds reader (inc16 address) vs

-- A reader that gives a byte everywhere.
abbrev pub GivesBytes : Reader → Type 0
GivesBytes reader = (a : ℕ) → (v : ℕ) × (reader a ≡ ok v) × (v < 256)

-- The outcome of a decoder from the cursor `c`: an instruction of the bytes so far and of further
-- ones that the reader has there.
abbrev pub Decoded : Type 0 → Reader → ℕ → Cursor → Outcome Instruction → Type 0
Decoded F reader start c (done i) =
    (i.address ≡ start) × ((vs : List ℕ) × (i.bytes ≡ c.bytes ++ vs) × Holds reader c.address vs)
Decoded F reader start c (raised e) = ⊥
Decoded F reader start c no_fuel = F

-- The outcome of `disassemble`: an instruction of one byte or more that the reader has.
abbrev pub Disassembled : Type 0 → Reader → ℕ → Outcome Instruction → Type 0
Disassembled F reader address (done i) =
    (i.address ≡ address)
    × ((v : ℕ) × (vs : List ℕ) × (i.bytes ≡ v ∷ vs) × Holds reader address (v ∷ vs))
Disassembled F reader address (raised e) = ⊥
Disassembled F reader address no_fuel = F

pub decode-read :
    {A : Type 0} (reader : Reader) (k : ℕ → Decoder A) (c : Cursor) (v : ℕ)
    → reader c.address ≡ ok v
    → v < 256
    → decode reader (read_next k) c ≡ decode reader (k v) (advanced v c)
unfolding decode
decode-read reader k c v e lt =
    let byte : leb v 0xFF ≡ true = le→leb v 0xFF (omega arith) in rw (decode, e, byte) refl

module _ (F : Type 0) (reader : Reader) (start : ℕ) where
  pub Decoded-advanced :
      (c : Cursor) (v : ℕ) (o : Outcome Instruction)
      → reader c.address ≡ ok v
      → v < 256
      → Decoded F reader start (advanced v c) o
      → Decoded F reader start c o
  Decoded-advanced c v (done i) e lt h =
      let rest = h.1 in
      (h.0, (v ∷ rest.0, rest.1 ∙ append_assoc c.bytes (v ∷ []) rest.0, (e, lt, rest.2)))
  Decoded-advanced c v (raised x) e lt h = h
  Decoded-advanced c v no_fuel e lt h = h

  pub decode-Sound :
      GivesBytes reader
      → (p : Decoder Instruction) (c : Cursor) → Sound F start p c
      → Decoded F reader start c (decode reader p c)
  unfolding decode
  decode-Sound gives (pure i) c h = (h.0, ([], h.1 ∙ sym (append-nil c.bytes), tt))
  decode-Sound gives (fail e) c h = h
  decode-Sound gives starved c h = h
  decode-Sound gives (at_cursor k) c h = decode-Sound gives (k c) c h
  decode-Sound gives (read_next k) c h =
      let answer = gives c.address in
      let v = answer.0 in
      let rest = decode-Sound gives (k v) (advanced v c) (h v answer.2) in
      let outcome = decode reader (k v) (advanced v c) in
      subst (Decoded F reader start c) (sym (decode-read reader k c v answer.1 answer.2))
        (Decoded-advanced c v outcome answer.1 answer.2 rest)

  pub Decoded-Disassembled :
      (v : ℕ) (o : Outcome Instruction)
      → reader start ≡ ok v
      → v < 256
      → Decoded F reader start (record { address = inc16 start; bytes = v ∷ [] }) o
      → Disassembled F reader start o
  Decoded-Disassembled v (done i) e lt h =
      let rest = h.1 in (h.0, (v, rest.0, rest.1, (e, lt, rest.2)))
  Decoded-Disassembled v (raised x) e lt h = h
  Decoded-Disassembled v no_fuel e lt h = h

-- From a 16-bit address, with a reader that gives bytes everywhere, `disassemble` raises nothing,
-- and unless it runs out of fuel its instruction stands at the address and has the bytes that the
-- reader gives from there on, at least one.
pub disassemble-Disassembled :
    (fuel : ℕ) (reader : Reader) (address : ℕ)
    → GivesBytes reader
    → address < 65536
    → Disassembled (Unit {0}) reader address (disassemble fuel reader address)
unfolding disassemble
disassemble-Disassembled fuel reader address gives lt =
    let answer = gives address in
    let v = answer.0 in
    let start : Cursor = record { address = address; bytes = [] } in
    let in_range : leb address 0xFFFF ≡ true = le→leb address 0xFFFF (omega arith) in
    let sound = decode_first-Sound (Unit {0}) address tt fuel v (advanced v start) answer.2 in
    let first = decode_first fuel address v in
    let outcome = decode reader first (advanced v start) in
    rw in_range (
      subst (Disassembled (Unit {0}) reader address)
        (sym (decode-read reader (decode_first fuel address) start v answer.1 answer.2))
        (Decoded-Disassembled (Unit {0}) reader address v outcome answer.1 answer.2
          (decode-Sound (Unit {0}) reader address gives first (advanced v start) sound)))
