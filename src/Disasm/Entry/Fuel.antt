-- ===== src/Disasm/Entry/Fuel.antt =====
-- The fuel that a run of prefixes wants.
use mathlib.Core.Path.{subst}
use z80_python.Base.{
  ◌+◌, ◌<◌, ◌==◌, ◌∙◌, ◌≡◌, ◌≤◌, Bool-cases, [], ap, arith, false, if-cases, inc16, inl, inr, leb,
  le→leb, suc, sym, true, u16, zero, ℕ,
}
use z80_python.Disasm.{Cursor, Decoder, Instruction, read_next}
use z80_python.Disasm.Entry.{Reader, advanced, decode, decode_first, disassemble}
use z80_python.Disasm.Entry.Complete.{
  decode_index-next, decode_index-stop, decode_index_opcode-Sound,
}
use z80_python.Disasm.Entry.Encoding.{
  Decoded, Decoded-Disassembled, Decoded-advanced, Disassembled, GivesBytes, decode-Sound,
  decode-read,
}
use z80_python.Disasm.Entry.Runs.{Sound, decode_cb-Sound, decode_ed_opcode-Sound, decode_main-Sound}
use z80_python.Disasm.Main.{decode_cb, decode_ed, decode_ed_opcode, decode_main}
use z80_python.Disasm.Prefixed.{decode_index, decode_index_opcode}
use z80_python.Dispatch.Execute.{is_prefix}
use z80_python.Prog.{ok}

-- The run that stands at `op`, with the reader at `a`, ends after `n` further bytes at the latest.
abbrev Ends : ℕ → Reader → ℕ → ℕ → Type 0
Ends zero reader a op = is_prefix op ≡ false
Ends (suc n) reader a op = (v : ℕ) × (reader (u16 (a + n)) ≡ ok v) × (is_prefix v ≡ false)

ok-injective : (v w : ℕ) → ok v ≡ ok w → v ≡ w
ok-injective v w h = cc

Ends-next :
    (n : ℕ) (reader : Reader) (a op next : ℕ)
    → a < 65536
    → reader a ≡ ok next
    → Ends (suc n) reader a op
    → Ends n reader (inc16 a) next
Ends-next zero reader a op next lt here h =
    let place : u16 (a + 0) ≡ a = omega arith in
    let same = ok-injective next h.0 (sym here ∙ ap reader (sym place) ∙ h.1) in
    ap is_prefix same ∙ h.2
Ends-next (suc n) reader a op next lt here h =
    let place : u16 (inc16 a + n) ≡ u16 (a + suc n) = omega arith in
    (h.0, ap reader place ∙ h.1, h.2)

module _ (reader : Reader) (gives : GivesBytes reader) (start : ℕ) where
  stopped :
      (fuel prefix op : ℕ) (c : Cursor)
      → op < 256
      → is_prefix op ≡ false
      → Decoded ⊥ reader start c (decode reader (decode_index fuel start prefix op) c)
  stopped fuel prefix op c lt e = rw (decode_index-stop fuel start prefix op e) (
      decode-Sound ⊥ reader start gives (decode_index_opcode start prefix op) c
        (decode_index_opcode-Sound ⊥ start prefix op c lt e))

  -- One byte more, for a decoder that goes on with it.
  one_more :
      (k : ℕ → Decoder Instruction) (c : Cursor)
      → ((v : ℕ)
          → reader c.address ≡ ok v
          → v < 256
          → Decoded ⊥ reader start (advanced v c) (decode reader (k v) (advanced v c)))
      → Decoded ⊥ reader start c (decode reader (read_next k) c)
  one_more k c h =
      let answer = gives c.address in
      let v = answer.0 in
      let outcome = decode reader (k v) (advanced v c) in
      subst (Decoded ⊥ reader start c) (sym (decode-read reader k c v answer.1 answer.2))
        (Decoded-advanced ⊥ reader start c v outcome answer.1 answer.2 (h v answer.1 answer.2))

  decode_index-Ends :
      (n fuel prefix op : ℕ) (c : Cursor)
      → n ≤ fuel
      → c.address < 65536
      → op < 256
      → Ends n reader c.address op
      → Decoded ⊥ reader start c (decode reader (decode_index fuel start prefix op) c)
  decode_index-Ends zero fuel prefix op c h at lt ends = stopped fuel prefix op c lt ends
  decode_index-Ends (suc n) zero prefix op c h at lt ends = absurd (omega arith)
  decode_index-Ends (suc n) (suc fuel) prefix op c h at lt ends = elim (Bool-cases (is_prefix op)) [
    | inl e ↦ rw (decode_index-next fuel start prefix op e) (
        one_more (decode_index fuel start op) c (λ v here byte.
          decode_index-Ends n fuel op v (advanced v c) (omega arith) (omega arith) byte
            (Ends-next n reader c.address op v at here ends)))
    | inr e ↦ stopped (suc fuel) prefix op c lt e
  ]

  decode_first-Ends :
      (n fuel op : ℕ) (c : Cursor)
      → n ≤ fuel
      → c.address < 65536
      → op < 256
      → Ends (suc n) reader c.address op
      → Decoded ⊥ reader start c (decode reader (decode_first fuel start op) c)
  unfolding decode_first decode_ed
  decode_first-Ends n fuel op c h at lt ends =
      let Goal : Decoder Instruction → Type 0 = λ p. Decoded ⊥ reader start c (decode reader p c) in
      let sound = λ (p : Decoder Instruction) (s : Sound ⊥ start p c).
        decode-Sound ⊥ reader start gives p c s in
      if-cases Goal (op == 0xCB) (λ _. sound (decode_cb start) (decode_cb-Sound ⊥ start c))
        (λ not_cb.
          if-cases Goal (op == 0xED)
            (λ _.
              sound (read_next (decode_ed_opcode start))
                (λ v k. decode_ed_opcode-Sound ⊥ start v (advanced v c)))
            (λ not_ed.
              if-cases Goal (is_prefix op)
                (λ _.
                  one_more (λ next. decode_index fuel start op next) c
                    (λ v here byte.
                      decode_index-Ends n fuel op v (advanced v c) h (omega arith) byte
                        (Ends-next n reader c.address op v at here ends)))
                (λ e.
                  sound (decode_main start op) (decode_main-Sound ⊥ start op c lt (ground arith)))))

-- From a 16-bit address, with a reader that gives bytes everywhere and no prefix at `n` + 1 behind
-- the address, `disassemble` with fuel for at least `n` ends in an instruction at the address, of
-- the bytes that the reader gives from there on, at least one.
pub disassemble_enough :
    (n fuel : ℕ) (reader : Reader) (address v : ℕ)
    → GivesBytes reader
    → address < 65536
    → n ≤ fuel
    → reader (u16 (address + 1 + n)) ≡ ok v
    → is_prefix v ≡ false
    → Disassembled ⊥ reader address (disassemble fuel reader address)
unfolding disassemble
disassemble_enough n fuel reader address v gives lt h here last =
    let answer = gives address in
    let op = answer.0 in
    let start : Cursor = record { address = address; bytes = [] } in
    let in_range : leb address 0xFFFF ≡ true = le→leb address 0xFFFF (omega arith) in
    let place : u16 (inc16 address + n) ≡ u16 (address + 1 + n) = omega arith in
    let ends : Ends (suc n) reader (inc16 address) op = (v, ap reader place ∙ here, last) in
    let first = decode_first fuel address in
    let outcome = decode reader (first op) (advanced op start) in
    rw in_range (
      subst (Disassembled ⊥ reader address)
        (sym (decode-read reader first start op answer.1 answer.2))
        (Decoded-Disassembled ⊥ reader address op outcome answer.1 answer.2 (
          decode_first-Ends reader gives address n fuel op (advanced op start) h (omega arith)
            answer.2 ends)))
