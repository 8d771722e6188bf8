-- ===== src/Timing/Ed.antt =====
-- Entries of ED opcodes (src/z80_python/_access_timing.py).
use z80_python.Base.{◌∷◌, List, [], ℕ}
use z80_python.Timing.{InstructionTiming}
use z80_python.Timing.Values.{
  timing_r1_r5_for_15_2, timing_r1_r5_for_8_2, timing_r1_r5_for_9_2, timing_r1_r5_i10_for_12_3,
  timing_r1_r5_i11_w14_for_16_4, timing_r1_r5_i11_w14_for_16_4_21_4, timing_r1_r5_o10_for_12_3,
  timing_r1_r5_r10_o14_for_16_4, timing_r1_r5_r10_o14_for_16_4_21_4, timing_r1_r5_r9_for_16_3,
  timing_r1_r5_r9_for_16_3_21_3, timing_r1_r5_r9_r12_for_14_4, timing_r1_r5_r9_r12_r15_r18_for_20_6,
  timing_r1_r5_r9_r12_w15_w18_for_20_6, timing_r1_r5_r9_w12_for_16_4,
  timing_r1_r5_r9_w12_for_16_4_21_4, timing_r1_r5_r9_w16_for_18_4,
}

unfoldable pub ed_entries : List (ℕ × InstructionTiming)
ed_entries =
    (0x40, timing_r1_r5_i10_for_12_3)
    ∷ (0x41, timing_r1_r5_o10_for_12_3)
    ∷ (0x42, timing_r1_r5_for_15_2)
    ∷ (0x43, timing_r1_r5_r9_r12_w15_w18_for_20_6)
    ∷ (0x44, timing_r1_r5_for_8_2)
    ∷ (0x45, timing_r1_r5_r9_r12_for_14_4)
    ∷ (0x46, timing_r1_r5_for_8_2)
    ∷ (0x47, timing_r1_r5_for_9_2)
    ∷ (0x48, timing_r1_r5_i10_for_12_3)
    ∷ (0x49, timing_r1_r5_o10_for_12_3)
    ∷ (0x4A, timing_r1_r5_for_15_2)
    ∷ (0x4B, timing_r1_r5_r9_r12_r15_r18_for_20_6)
    ∷ (0x4C, timing_r1_r5_for_8_2)
    ∷ (0x4D, timing_r1_r5_r9_r12_for_14_4)
    ∷ (0x4E, timing_r1_r5_for_8_2)
    ∷ (0x4F, timing_r1_r5_for_9_2)
    ∷ (0x50, timing_r1_r5_i10_for_12_3)
    ∷ (0x51, timing_r1_r5_o10_for_12_3)
    ∷ (0x52, timing_r1_r5_for_15_2)
    ∷ (0x53, timing_r1_r5_r9_r12_w15_w18_for_20_6)
    ∷ (0x54, timing_r1_r5_for_8_2)
    ∷ (0x55, timing_r1_r5_r9_r12_for_14_4)
    ∷ (0x56, timing_r1_r5_for_8_2)
    ∷ (0x57, timing_r1_r5_for_9_2)
    ∷ (0x58, timing_r1_r5_i10_for_12_3)
    ∷ (0x59, timing_r1_r5_o10_for_12_3)
    ∷ (0x5A, timing_r1_r5_for_15_2)
    ∷ (0x5B, timing_r1_r5_r9_r12_r15_r18_for_20_6)
    ∷ (0x5C, timing_r1_r5_for_8_2)
    ∷ (0x5D, timing_r1_r5_r9_r12_for_14_4)
    ∷ (0x5E, timing_r1_r5_for_8_2)
    ∷ (0x5F, timing_r1_r5_for_9_2)
    ∷ (0x60, timing_r1_r5_i10_for_12_3)
    ∷ (0x61, timing_r1_r5_o10_for_12_3)
    ∷ (0x62, timing_r1_r5_for_15_2)
    ∷ (0x63, timing_r1_r5_r9_r12_w15_w18_for_20_6)
    ∷ (0x64, timing_r1_r5_for_8_2)
    ∷ (0x65, timing_r1_r5_r9_r12_for_14_4)
    ∷ (0x66, timing_r1_r5_for_8_2)
    ∷ (0x67, timing_r1_r5_r9_w16_for_18_4)
    ∷ (0x68, timing_r1_r5_i10_for_12_3)
    ∷ (0x69, timing_r1_r5_o10_for_12_3)
    ∷ (0x6A, timing_r1_r5_for_15_2)
    ∷ (0x6B, timing_r1_r5_r9_r12_r15_r18_for_20_6)
    ∷ (0x6C, timing_r1_r5_for_8_2)
    ∷ (0x6D, timing_r1_r5_r9_r12_for_14_4)
    ∷ (0x6E, timing_r1_r5_for_8_2)
    ∷ (0x6F, timing_r1_r5_r9_w16_for_18_4)
    ∷ (0x70, timing_r1_r5_i10_for_12_3)
    ∷ (0x71, timing_r1_r5_o10_for_12_3)
    ∷ (0x72, timing_r1_r5_for_15_2)
    ∷ (0x73, timing_r1_r5_r9_r12_w15_w18_for_20_6)
    ∷ (0x74, timing_r1_r5_for_8_2)
    ∷ (0x75, timing_r1_r5_r9_r12_for_14_4)
    ∷ (0x76, timing_r1_r5_for_8_2)
    ∷ (0x77, timing_r1_r5_for_8_2)
    ∷ (0x78, timing_r1_r5_i10_for_12_3)
    ∷ (0x79, timing_r1_r5_o10_for_12_3)
    ∷ (0x7A, timing_r1_r5_for_15_2)
    ∷ (0x7B, timing_r1_r5_r9_r12_r15_r18_for_20_6)
    ∷ (0x7C, timing_r1_r5_for_8_2)
    ∷ (0x7D, timing_r1_r5_r9_r12_for_14_4)
    ∷ (0x7E, timing_r1_r5_for_8_2)
    ∷ (0x7F, timing_r1_r5_for_8_2)
    ∷ (0xA0, timing_r1_r5_r9_w12_for_16_4)
    ∷ (0xA1, timing_r1_r5_r9_for_16_3)
    ∷ (0xA2, timing_r1_r5_i11_w14_for_16_4)
    ∷ (0xA3, timing_r1_r5_r10_o14_for_16_4)
    ∷ (0xA8, timing_r1_r5_r9_w12_for_16_4)
    ∷ (0xA9, timing_r1_r5_r9_for_16_3)
    ∷ (0xAA, timing_r1_r5_i11_w14_for_16_4)
    ∷ (0xAB, timing_r1_r5_r10_o14_for_16_4)
    ∷ (0xB0, timing_r1_r5_r9_w12_for_16_4_21_4)
    ∷ (0xB1, timing_r1_r5_r9_for_16_3_21_3)
    ∷ (0xB2, timing_r1_r5_i11_w14_for_16_4_21_4)
    ∷ (0xB3, timing_r1_r5_r10_o14_for_16_4_21_4)
    ∷ (0xB8, timing_r1_r5_r9_w12_for_16_4_21_4)
    ∷ (0xB9, timing_r1_r5_r9_for_16_3_21_3)
    ∷ (0xBA, timing_r1_r5_i11_w14_for_16_4_21_4)
    ∷ (0xBB, timing_r1_r5_r10_o14_for_16_4_21_4)
    ∷ []
