-- ===== src/Disasm/Entry/Again.antt =====
-- Disassembling the bytes of an instruction gives that instruction again.
use mathlib.Core.List.{append-nil, append_assoc}
use mathlib.Core.Path.{subst}
use z80_python.Base.{
  ◌++◌, ◌+◌, ◌-◌, ◌<◌, ◌∙◌, ◌∷◌, ◌≡◌, ◌≤◌, Bool, Bool-cases, List, [], and_intro, ap, arith, false,
  get_elem?, inc16, inl, inr, leb, length, le→leb, none, refl, some, sym, true, u16, ℕ,
}
use z80_python.Disasm.{Cursor, Decoder, Instruction, at_cursor, fail, pure, read_next, starved}
use z80_python.Disasm.Entry.{
  Reader, advanced, all_bytes, decode, decode_first, disassemble, disassemble_bytes, encoded_reader,
}
use z80_python.Disasm.Entry.Complete.{decode_first-Sound}
use z80_python.Disasm.Entry.Encoding.{Holds, decode-read}
use z80_python.Disasm.Entry.Runs.{Sound}
use z80_python.Host.{done, raised}
use z80_python.Prog.{Result, err, ok, value_error}

-- What a decoder has read, and that it depends on nothing else.
record Read (start : ℕ) (reader : Reader) (p : Decoder Instruction) (c : Cursor) (i : Instruction)
    : Type 0 where
  pub address-eq : i.address ≡ start
  pub read : List ℕ
  pub bytes-append : i.bytes ≡ c.bytes ++ read
  pub held : Holds reader c.address read
  pub again : (reader' : Reader) → Holds reader' c.address read → decode reader' p c ≡ done i

module _ (start : ℕ) (reader : Reader) (i : Instruction) where
  decode-read_inv :
      (k : ℕ → Decoder Instruction) (c : Cursor)
      → decode reader (read_next k) c ≡ done i
      → (v : ℕ) × (reader c.address ≡ ok v)
        × (v < 256)
        × (decode reader (k v) (advanced v c) ≡ done i)
  unfolding decode
  decode-read_inv k c h = go (reader c.address) refl h
    where
      inner :
          (v : ℕ) (b : Bool)
          → leb v 0xFF ≡ b
          → (elim b [ true ↦ decode reader (k v) (advanced v c) | false ↦ raised value_error ])
            ≡ done i
          → (v < 256) × (decode reader (k v) (advanced v c) ≡ done i)
      inner v true e h = (ground arith, h)
      inner v false e h = cc

      go :
          (r : Result ℕ)
          → reader c.address ≡ r
          → (elim r [
            | err e ↦ raised e
            | ok v ↦ elim (leb v 0xFF) [
              | true ↦ decode reader (k v) (advanced v c)
              | false ↦ raised value_error
            ]
          ])
            ≡ done i
          → (v : ℕ) × (reader c.address ≡ ok v)
            × (v < 256)
            × (decode reader (k v) (advanced v c) ≡ done i)
      go (err x) e h = cc
      go (ok v) e h = let rest = inner v (leb v 0xFF) refl h in (v, e, rest.0, rest.1)

  decode-Read :
      (p : Decoder Instruction) (c : Cursor)
      → Sound (Unit {0}) start p c
      → decode reader p c ≡ done i
      → Read start reader p c i
  unfolding decode
  decode-Read (pure j) c s h =
      let same : j ≡ i = cc in
      record {
        address-eq = ap (λ x. x.address) (sym same) ∙ s.0;
        read = [];
        bytes-append = ap (λ x. x.bytes) (sym same) ∙ s.1 ∙ sym (append-nil c.bytes);
        held = tt;
        again = λ reader' _. h;
      }
  decode-Read (fail e) c s h = absurd s
  decode-Read starved c s h = cc
  decode-Read (at_cursor k) c s h =
      let rest = decode-Read (k c) c s h in
      record {
        address-eq = rest.address-eq;
        read = rest.read;
        bytes-append = rest.bytes-append;
        held = rest.held;
        again = rest.again;
      }
  decode-Read (read_next k) c s h =
      let step = decode-read_inv k c h in
      let v = step.0 in
      let rest = decode-Read (k v) (advanced v c) (s v step.2) step.3 in
      record {
        address-eq = rest.address-eq;
        read = v ∷ rest.read;
        bytes-append = rest.bytes-append ∙ append_assoc c.bytes (v ∷ []) rest.read;
        held = (step.1, step.2, rest.held);
        again = λ reader' held. decode-read reader' k c v held.0 held.1 ∙ rest.again reader' held.2;
      }

get_elem?-append :
    (before : List ℕ) (v : ℕ) (vs : List ℕ) → get_elem? (before ++ v ∷ vs) (length before) ≡ some v
get_elem?-append [] v vs = refl
get_elem?-append (x ∷ before) v vs = get_elem?-append before v vs

length-snoc : (before : List ℕ) (v : ℕ) → length (before ++ v ∷ []) ≡ length before + 1
length-snoc [] v = refl
length-snoc (x ∷ before) v = omega (arith, length-snoc before v)

Holds-bytes : (reader : Reader) (a : ℕ) (vs : List ℕ) → Holds reader a vs → all_bytes vs ≡ true
Holds-bytes reader a [] h = refl
Holds-bytes reader a (v ∷ vs) h =
    and_intro _ _ (le→leb v 0xFF (omega arith)) (Holds-bytes reader (inc16 a) vs h.2)

encoded_reader-Holds :
    (address : ℕ) (before vs : List ℕ)
    → address < 65536
    → length before + length vs < 65537
    → all_bytes vs ≡ true
    → Holds (encoded_reader (before ++ vs) address) (u16 (address + length before)) vs
unfolding encoded_reader
encoded_reader-Holds address before [] lt long h = tt
encoded_reader-Holds address before (v ∷ vs) lt long h =
    let n = length before in
    let offset : u16 (u16 (address + n) + 0x10000 - address) ≡ n = omega arith in
    let whole : (before ++ v ∷ []) ++ vs ≡ before ++ v ∷ vs = append_assoc before (v ∷ []) vs in
    let next : u16 (address + length (before ++ v ∷ [])) ≡ inc16 (u16 (address + n)) =
      omega (arith, length-snoc before v) in
    let rest =
      encoded_reader-Holds address (before ++ v ∷ []) vs lt (omega (arith, length-snoc before v))
        (ground arith) in
    (
      held (before ++ v ∷ vs) (u16 (address + n)) v (rw offset (get_elem?-append before v vs)),
      ground arith,
      subst (λ l. Holds (encoded_reader l address) (inc16 (u16 (address + n))) vs) whole
          (subst (λ a. Holds (encoded_reader ((before ++ v ∷ []) ++ vs) address) a vs) next rest),
    )
  where
    held :
        (l : List ℕ) (a v : ℕ)
        → get_elem? l (u16 (a + 0x10000 - address)) ≡ some v
        → (elim (get_elem? l (u16 (a + 0x10000 - address))) [
          | none ↦ err value_error
          | some v ↦ ok v
        ])
          ≡ ok v
    held l a v e = rw e refl

module _ (fuel address : ℕ) (i : Instruction) (in_range : leb address 0xFFFF ≡ true) where
  disassemble-in_range :
      (reader : Reader)
      → disassemble fuel reader address
        ≡ decode reader
            (read_next (decode_first fuel address))
            (record { address = address; bytes = [] })
  unfolding disassemble
  disassemble-in_range reader = rw in_range refl

  disassemble_bytes-of_bytes :
      (v : ℕ) (vs : List ℕ)
      → all_bytes (v ∷ vs) ≡ true
      → disassemble fuel (encoded_reader (v ∷ vs) address) address ≡ done i
      → disassemble_bytes fuel (v ∷ vs) address ≡ done i
  unfolding disassemble_bytes
  disassemble_bytes-of_bytes v vs byte h = rw (in_range, byte) h

  disassemble-again :
      (reader : Reader)
      → disassemble fuel reader address ≡ done i
      → length i.bytes ≤ 65536
      → disassemble_bytes fuel i.bytes i.address ≡ done i
  disassemble-again reader h short =
      let start : Cursor = record { address = address; bytes = [] } in
      let first = decode_first fuel address in
      let step =
        decode-read_inv address reader i first start (sym (disassemble-in_range reader) ∙ h) in
      let v = step.0 in
      let sound = decode_first-Sound (Unit {0}) address tt fuel v (advanced v start) step.2 in
      let rest = decode-Read address reader i (first v) (advanced v start) sound step.3 in
      let bytes = v ∷ rest.read in
      let all = Holds-bytes reader address bytes (step.1, step.2, rest.held) in
      let same : i.bytes ≡ bytes = rest.bytes-append in
      let long = subst (λ l. length l ≤ 65536) same short in
      let place : u16 (address + 0) ≡ address = ground arith in
      let held =
        subst (λ a. Holds (encoded_reader bytes address) a bytes) place
          (encoded_reader-Holds address [] bytes (ground arith) (omega arith) all) in
      let enc = encoded_reader bytes address in
      let again =
        disassemble-in_range enc
        ∙ decode-read enc first start v held.0 held.1
        ∙ rest.again enc held.2 in
      let whole = disassemble_bytes-of_bytes v rest.read all again in
      ap (λ l. disassemble_bytes fuel l i.address) same
      ∙ ap (disassemble_bytes fuel bytes) rest.address-eq
      ∙ whole

-- An instruction that `disassemble` has shown, of at most 65536 bytes, is what `disassemble_bytes`
-- shows for its bytes, at its address and with the same fuel.
pub disassemble_bytes-disassemble :
    (fuel : ℕ) (reader : Reader) (address : ℕ) (i : Instruction)
    → disassemble fuel reader address ≡ done i
    → length i.bytes ≤ 65536
    → disassemble_bytes fuel i.bytes i.address ≡ done i
unfolding disassemble
disassemble_bytes-disassemble fuel reader address i h short =
    elim (Bool-cases (leb address 0xFFFF)) [
      | inl e ↦ disassemble-again fuel address i e reader h short
      | inr e ↦ absurd (refused e)
    ]
  where
    refused : leb address 0xFFFF ≡ false → ⊥
    refused e = cc
