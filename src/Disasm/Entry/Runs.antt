-- ===== src/Disasm/Entry/Runs.antt =====
-- Every decoder ends in an instruction of the bytes that it has read.
use Prim.Native.String.{String}
use z80_python.Base.{◌%◌, ◌<◌, ◌>>>◌, ◌∷◌, ◌≡◌, ◌≢◌, [], arith, false, refl, u3, ℕ}
use z80_python.Disasm.{
  Cursor, Decoder, Instruction, alu_instruction, at_cursor, fail, instruction_at, pure, read_next,
  register, relative_target, starved, word,
}
use z80_python.Disasm.Entry.{advanced}
use z80_python.Disasm.Main.{
  decode_cb, decode_ed_opcode, decode_ed_table, decode_exchange, decode_indirect, decode_main,
  decode_main_high, decode_main_low, decode_relative, decode_return, ed_blocks, ed_modes, ed_simple,
}
use z80_python.Dispatch.Page.{contains}
use z80_python.Prog.{not_implemented}

-- From the cursor on, whatever bytes are read, the decoder raises nothing, and its instruction
-- stands at `start` and has the bytes read so far; it is starved only if `F` allows it.
abbrev pub Sound : Type 0 → ℕ → Decoder Instruction → Cursor → Type 0
Sound F start (pure i) c = (i.address ≡ start) × (i.bytes ≡ c.bytes)
Sound F start (fail e) c = ⊥
Sound F start starved c = F
Sound F start (read_next k) c = (v : ℕ) → v < 256 → Sound F start (k v) (advanced v c)
Sound F start (at_cursor k) c = Sound F start (k c) c

module _ (F : Type 0) (start : ℕ) where
  decode_relative-Sound : (y : ℕ) (c : Cursor) → Sound F start (decode_relative start y) c
  unfolding decode_relative instruction_at relative_target
  decode_relative-Sound y c = ground arith

  decode_indirect-Sound : (p q : ℕ) (c : Cursor) → Sound F start (decode_indirect start p q) c
  unfolding decode_indirect instruction_at word
  decode_indirect-Sound p q c = ground arith

  decode_main_low-Sound : (y z : ℕ) (c : Cursor) → Sound F start (decode_main_low start y z) c
  unfolding decode_main_low instruction_at word
  decode_main_low-Sound y z c =
      ground (arith, decode_relative-Sound y c, decode_indirect-Sound (y >>> 1) (y % 2) c)

  decode_exchange-Sound :
      (y : ℕ) (p : Decoder Instruction) (c : Cursor)
      → (y ≡ 1 → Sound F start p c)
      → y < 8
      → Sound F start (decode_exchange start y p) c
  unfolding decode_exchange instruction_at word
  decode_exchange-Sound y p c h lt = ground arith

  decode_return-Sound : (p q : ℕ) (c : Cursor) → Sound F start (decode_return start p q) c
  unfolding decode_return instruction_at
  decode_return-Sound p q c = ground arith

  alu_instruction-Sound :
      (operation : ℕ) (source : String) (c : Cursor)
      → Sound F start (alu_instruction start operation source) c
  unfolding alu_instruction instruction_at
  alu_instruction-Sound operation source c = (refl, refl)

  decode_main_high-Sound :
      (y z : ℕ) (c : Cursor)
      → y < 8
      → z < 8
      → (z ≡ 3 → y ≢ 1)
      → (z ≡ 5 → y % 2 ≡ 1 → y ≡ 1)
      → Sound F start (decode_main_high start y z) c
  unfolding decode_main_high instruction_at word alu_instruction
  decode_main_high-Sound y z c lt lt' h k = ground (
    arith,
    decode_return-Sound (y >>> 1) (y % 2) c,
    decode_exchange-Sound y (fail not_implemented) c,
  )

  pub decode_cb-Sound : (c : Cursor) → Sound F start (decode_cb start) c
  unfolding decode_cb instruction_at
  decode_cb-Sound c = λ v h. ground arith

  decode_ed_table-Sound : (op : ℕ) (c : Cursor) → Sound F start (decode_ed_table start op) c
  unfolding decode_ed_table instruction_at ed_simple ed_modes ed_blocks
  decode_ed_table-Sound op c = ground arith

  pub decode_ed_opcode-Sound : (op : ℕ) (c : Cursor) → Sound F start (decode_ed_opcode start op) c
  unfolding decode_ed_opcode instruction_at word
  decode_ed_opcode-Sound op c = ground (arith, decode_ed_table-Sound op c)

  pub decode_main-Sound :
      (op : ℕ) (c : Cursor)
      → op < 256
      → contains op (0xCB ∷ 0xDD ∷ 0xED ∷ 0xFD ∷ []) ≡ false
      → Sound F start (decode_main start op) c
  unfolding decode_main instruction_at
  decode_main-Sound op c lt plain =
      let y = u3 (op >>> 3) in
      let z = u3 op in
      let high : op >>> 6 ≡ 3 → Sound F start (decode_main_high start y z) c = λ h.
        decode_main_high-Sound y z c (omega arith) (omega arith) (λ e e'. ground arith)
          (λ e e'. ground arith) in
      ground (arith, high, decode_main_low-Sound y z c, alu_instruction-Sound y (register z) c)
