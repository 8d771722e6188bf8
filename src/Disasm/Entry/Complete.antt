-- ===== src/Disasm/Entry/Complete.antt =====
-- Every opcode behind a prefix is decoded.
use Prim.Native.String.{String}
use z80_python.Base.{
  ◌&&◌, ◌<◌, ◌==◌, ◌||◌, ◌∷◌, ◌≡◌, Bool, Bool-cases, List, [], arith, false, if-cases,
  if◌then◌else◌, inl, inr, leb, not, refl, suc, true, u3, zero, ℕ,
}
use z80_python.Base.Table.{all_below, all_below_sound}
use z80_python.Disasm.{
  Cursor, Decoder, Instruction, alu_instruction, indexed_operand, instruction_at, read_next,
  starved, word,
}
use z80_python.Disasm.Entry.{advanced, decode_first}
use z80_python.Disasm.Entry.Runs.{Sound, decode_cb-Sound, decode_ed_opcode-Sound, decode_main-Sound}
use z80_python.Disasm.Main.{decode_ed}
use z80_python.Disasm.Prefixed.{
  decode_halves, decode_index, decode_index_cb, decode_index_memory, decode_index_opcode,
  decode_index_rest, decode_index_words, index_ignored,
}
use z80_python.Dispatch.Execute.{is_prefix}
use z80_python.Dispatch.Page.{contains}

-- The opcodes that the cases of `_decode_index` name, the exception left.
abbrev halves_opcodes : List ℕ
halves_opcodes =
    0x7C ∷ 0x7D ∷ 0x44 ∷ 0x45 ∷ 0x4C ∷ 0x4D ∷ 0x54 ∷ 0x55 ∷ 0x5C ∷ 0x5D ∷ 0x64 ∷ 0x65 ∷ 0x6C ∷ 0x6D
    ∷ 0x60 ∷ 0x61 ∷ 0x62 ∷ 0x63 ∷ 0x67 ∷ 0x68 ∷ 0x69 ∷ 0x6A ∷ 0x6B ∷ 0x6F ∷ 0x26 ∷ 0x2E ∷ 0x24
    ∷ 0x25 ∷ 0x2C ∷ 0x2D ∷ 0x84 ∷ 0x85 ∷ 0x8C ∷ 0x8D ∷ 0x94 ∷ 0x95 ∷ 0x9C ∷ 0x9D ∷ 0xA4 ∷ 0xA5
    ∷ 0xAC ∷ 0xAD ∷ 0xB4 ∷ 0xB5 ∷ 0xBC ∷ 0xBD ∷ []

abbrev words_opcodes : List ℕ
words_opcodes = 0x09 ∷ 0x19 ∷ 0x29 ∷ 0x39 ∷ 0x21 ∷ 0x22 ∷ 0x23 ∷ 0x2B ∷ 0x2A ∷ []

abbrev memory_opcode : ℕ → Bool
memory_opcode op =
    contains op (
      0x34 ∷ 0x35 ∷ 0x36 ∷ 0x46 ∷ 0x4E ∷ 0x56 ∷ 0x5E ∷ 0x66 ∷ 0x6E ∷ 0x7E ∷ 0x70 ∷ 0x71 ∷ 0x72
      ∷ 0x73 ∷ 0x74 ∷ 0x75 ∷ 0x77 ∷ [])
    || (u3 op == 6 && (leb 0x80 op && leb op 0xBF))

abbrev rest_opcodes : List ℕ
rest_opcodes = 0xE1 ∷ 0xE3 ∷ 0xE5 ∷ 0xE9 ∷ 0xF9 ∷ []

abbrev prefix_opcodes : List ℕ
prefix_opcodes = 0xCB ∷ 0xDD ∷ 0xED ∷ 0xFD ∷ []

-- An opcode is one of the prefixes, or plain, or has a case.
abbrev has_case : ℕ → Bool
has_case op =
    contains op prefix_opcodes
    || (index_ignored op
        || (contains op halves_opcodes
            || (contains op words_opcodes || (memory_opcode op || contains op rest_opcodes))))

abbrev plain_when_ignored : ℕ → Bool
plain_when_ignored op = not (index_ignored op) || not (contains op prefix_opcodes)

cases_table : all_below 256 has_case ≡ true
unfolding all_below index_ignored
cases_table = refl

plain_table : all_below 256 plain_when_ignored ≡ true
unfolding all_below index_ignored
plain_table = refl

last_case :
    (a b c d e f : Bool)
    → (a || (b || (c || (d || (e || f))))) ≡ true
    → a ≡ false
    → b ≡ false
    → c ≡ false
    → d ≡ false
    → e ≡ false
    → f ≡ true
last_case a b c d e f h p q r s t = ground arith

module _ (F : Type 0) (start : ℕ) (index : String) where
  decode_index_cb-Sound : (c : Cursor) → Sound F start (decode_index_cb start index) c
  unfolding decode_index_cb instruction_at indexed_operand
  decode_index_cb-Sound c = λ v h w k. ground arith

  decode_index_rest-Sound :
      (op : ℕ) (c : Cursor)
      → contains op rest_opcodes ≡ true
      → Sound F start (decode_index_rest start index op) c
  unfolding decode_index_rest instruction_at
  decode_index_rest-Sound op c h = ground arith

  decode_index_words-Sound :
      (op : ℕ) (p : Decoder Instruction) (c : Cursor)
      → (contains op words_opcodes ≡ false → Sound F start p c)
      → Sound F start (decode_index_words start index op p) c
  unfolding decode_index_words instruction_at word
  decode_index_words-Sound op p c h = ground arith

  decode_index_memory-Sound :
      (op : ℕ) (p : Decoder Instruction) (c : Cursor)
      → (memory_opcode op ≡ false → Sound F start p c)
      → Sound F start (decode_index_memory start index op p) c
  unfolding decode_index_memory instruction_at alu_instruction indexed_operand
  decode_index_memory-Sound op p c h = ground arith

  decode_halves-Sound :
      (op : ℕ) (p : Decoder Instruction) (c : Cursor)
      → (contains op halves_opcodes ≡ false → Sound F start p c)
      → Sound F start (decode_halves start index op p) c
  unfolding decode_halves instruction_at alu_instruction
  decode_halves-Sound op p c h = ground arith

pub decode_index-next :
    (fuel start prefix op : ℕ)
    → is_prefix op ≡ true
    → decode_index (suc fuel) start prefix op ≡ read_next (λ next. decode_index fuel start op next)
unfolding decode_index
decode_index-next fuel start prefix op h = rw (decode_index, h) refl

pub decode_index-starved :
    (start prefix op : ℕ) → is_prefix op ≡ true → decode_index zero start prefix op ≡ starved
unfolding decode_index
decode_index-starved start prefix op h = rw (decode_index, h) refl

pub decode_index-stop :
    (fuel start prefix op : ℕ)
    → is_prefix op ≡ false
    → decode_index fuel start prefix op ≡ decode_index_opcode start prefix op
unfolding decode_index
decode_index-stop zero start prefix op h = rw (decode_index, h) refl
decode_index-stop (suc fuel) start prefix op h = rw (decode_index, h) refl

module _ (F : Type 0) (start : ℕ) where
  pub decode_index_opcode-Sound :
      (prefix op : ℕ) (c : Cursor)
      → op < 256
      → is_prefix op ≡ false
      → Sound F start (decode_index_opcode start prefix op) c
  unfolding decode_index_opcode decode_ed
  decode_index_opcode-Sound prefix op c lt last =
      let index : String = if prefix == 0xDD then "IX" else "IY" in
      let Goal : Decoder Instruction → Type 0 = λ p. Sound F start p c in
      let case = all_below_sound 256 has_case op cases_table lt in
      let plain = all_below_sound 256 plain_when_ignored op plain_table lt in
      if-cases Goal (op == 0xED) (λ _ v h. decode_ed_opcode-Sound F start v (advanced v c))
        (λ not_ed.
          if-cases Goal (op == 0xCB) (λ _. decode_index_cb-Sound F start index c)
            (λ not_cb.
              if-cases Goal (index_ignored op)
                (λ e. decode_main-Sound F start op c lt (ground (arith, plain)))
                (λ e. decode_halves-Sound F start index op _ c (λ e1.
                  decode_index_words-Sound F start index op _ c (λ e2.
                    decode_index_memory-Sound F start index op _ c (λ e3.
                      decode_index_rest-Sound F start index op c (
                        last_case (contains op prefix_opcodes) (index_ignored op)
                          (contains op halves_opcodes) (contains op words_opcodes)
                          (memory_opcode op) (contains op rest_opcodes) case (ground arith) e e1 e2
                          e3)))))))

  decode_index-Sound :
      F
      → (fuel prefix op : ℕ) (c : Cursor) → op < 256
      → Sound F start (decode_index fuel start prefix op) c
  decode_index-Sound f zero prefix op c lt = elim (Bool-cases (is_prefix op)) [
    | inl e ↦ rw (decode_index-starved start prefix op e) f
    | inr e ↦
        rw (decode_index-stop zero start prefix op e) (decode_index_opcode-Sound prefix op c lt e)
  ]
  decode_index-Sound f (suc fuel) prefix op c lt = elim (Bool-cases (is_prefix op)) [
    | inl e ↦
        rw (decode_index-next fuel start prefix op e)
          (λ v h. decode_index-Sound f fuel op v (advanced v c) h)
    | inr e ↦
        rw (decode_index-stop (suc fuel) start prefix op e)
          (decode_index_opcode-Sound prefix op c lt e)
  ]

  pub decode_first-Sound :
      F → (fuel op : ℕ) (c : Cursor) → op < 256 → Sound F start (decode_first fuel start op) c
  unfolding decode_first decode_ed
  decode_first-Sound f fuel op c lt =
      let Goal : Decoder Instruction → Type 0 = λ p. Sound F start p c in
      if-cases Goal (op == 0xCB) (λ _. decode_cb-Sound F start c)
        (λ not_cb.
          if-cases Goal (op == 0xED) (λ _ v h. decode_ed_opcode-Sound F start v (advanced v c))
            (λ not_ed.
              if-cases Goal (is_prefix op)
                (λ _ v h. decode_index-Sound f fuel op v (advanced v c) h)
                (λ e. decode_main-Sound F start op c lt (ground arith))))
