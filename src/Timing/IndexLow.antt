-- ===== src/Timing/IndexLow.antt =====
-- Entries of DD opcodes below 0x80; those of FD are the same (src/z80_python/_access_timing.py).
use z80_python.Base.{◌∷◌, List, Option, [], some}
use z80_python.Timing.{InstructionTiming}
use z80_python.Timing.Values.{
  timing_r1_r5_for_10_2, timing_r1_r5_for_15_2, timing_r1_r5_for_8_2,
  timing_r1_r5_r10_for_12_3_17_3, timing_r1_r5_r9_for_11_3, timing_r1_r5_r9_for_11_3_16_3,
  timing_r1_r5_r9_for_16_3, timing_r1_r5_r9_r12_for_14_4, timing_r1_r5_r9_r12_r15_for_17_5,
  timing_r1_r5_r9_r12_r15_r18_for_20_6, timing_r1_r5_r9_r12_w15_for_17_5,
  timing_r1_r5_r9_r12_w15_w18_for_20_6, timing_r1_r5_r9_r12_w17_for_19_5,
  timing_r1_r5_r9_r17_for_19_4, timing_r1_r5_r9_r17_w21_for_23_5, timing_r1_r5_r9_w17_for_19_4,
  timing_r1_r5_w9_for_11_3,
}

unfoldable pub index_low : List (Option InstructionTiming)
index_low =
    some timing_r1_r5_for_8_2
    ∷ some timing_r1_r5_r9_r12_for_14_4
    ∷ some timing_r1_r5_w9_for_11_3
    ∷ some timing_r1_r5_for_10_2
    ∷ some timing_r1_r5_for_8_2
    ∷ some timing_r1_r5_for_8_2
    ∷ some timing_r1_r5_r9_for_11_3
    ∷ some timing_r1_r5_for_8_2
    ∷ some timing_r1_r5_for_8_2
    ∷ some timing_r1_r5_for_15_2
    ∷ some timing_r1_r5_r9_for_11_3
    ∷ some timing_r1_r5_for_10_2
    ∷ some timing_r1_r5_for_8_2
    ∷ some timing_r1_r5_for_8_2
    ∷ some timing_r1_r5_r9_for_11_3
    ∷ some timing_r1_r5_for_8_2
    ∷ some timing_r1_r5_r10_for_12_3_17_3
    ∷ some timing_r1_r5_r9_r12_for_14_4
    ∷ some timing_r1_r5_w9_for_11_3
    ∷ some timing_r1_r5_for_10_2
    ∷ some timing_r1_r5_for_8_2
    ∷ some timing_r1_r5_for_8_2
    ∷ some timing_r1_r5_r9_for_11_3
    ∷ some timing_r1_r5_for_8_2
    ∷ some timing_r1_r5_r9_for_16_3
    ∷ some timing_r1_r5_for_15_2
    ∷ some timing_r1_r5_r9_for_11_3
    ∷ some timing_r1_r5_for_10_2
    ∷ some timing_r1_r5_for_8_2
    ∷ some timing_r1_r5_for_8_2
    ∷ some timing_r1_r5_r9_for_11_3
    ∷ some timing_r1_r5_for_8_2
    ∷ some timing_r1_r5_r9_for_11_3_16_3
    ∷ some timing_r1_r5_r9_r12_for_14_4
    ∷ some timing_r1_r5_r9_r12_w15_w18_for_20_6
    ∷ some timing_r1_r5_for_10_2
    ∷ some timing_r1_r5_for_8_2
    ∷ some timing_r1_r5_for_8_2
    ∷ some timing_r1_r5_r9_for_11_3
    ∷ some timing_r1_r5_for_8_2
    ∷ some timing_r1_r5_r9_for_11_3_16_3
    ∷ some timing_r1_r5_for_15_2
    ∷ some timing_r1_r5_r9_r12_r15_r18_for_20_6
    ∷ some timing_r1_r5_for_10_2
    ∷ some timing_r1_r5_for_8_2
    ∷ some timing_r1_r5_for_8_2
    ∷ some timing_r1_r5_r9_for_11_3
    ∷ some timing_r1_r5_for_8_2
    ∷ some timing_r1_r5_r9_for_11_3_16_3
    ∷ some timing_r1_r5_r9_r12_for_14_4
    ∷ some timing_r1_r5_r9_r12_w15_for_17_5
    ∷ some timing_r1_r5_for_10_2
    ∷ some timing_r1_r5_r9_r17_w21_for_23_5
    ∷ some timing_r1_r5_r9_r17_w21_for_23_5
    ∷ some timing_r1_r5_r9_r12_w17_for_19_5
    ∷ some timing_r1_r5_for_8_2
    ∷ some timing_r1_r5_r9_for_11_3_16_3
    ∷ some timing_r1_r5_for_15_2
    ∷ some timing_r1_r5_r9_r12_r15_for_17_5
    ∷ some timing_r1_r5_for_10_2
    ∷ some timing_r1_r5_for_8_2
    ∷ some timing_r1_r5_for_8_2
    ∷ some timing_r1_r5_r9_for_11_3
    ∷ some timing_r1_r5_for_8_2
    ∷ some timing_r1_r5_for_8_2
    ∷ some timing_r1_r5_for_8_2
    ∷ some timing_r1_r5_for_8_2
    ∷ some timing_r1_r5_for_8_2
    ∷ some timing_r1_r5_for_8_2
    ∷ some timing_r1_r5_for_8_2
    ∷ some timing_r1_r5_r9_r17_for_19_4
    ∷ some timing_r1_r5_for_8_2
    ∷ some timing_r1_r5_for_8_2
    ∷ some timing_r1_r5_for_8_2
    ∷ some timing_r1_r5_for_8_2
    ∷ some timing_r1_r5_for_8_2
    ∷ some timing_r1_r5_for_8_2
    ∷ some timing_r1_r5_for_8_2
    ∷ some timing_r1_r5_r9_r17_for_19_4
    ∷ some timing_r1_r5_for_8_2
    ∷ some timing_r1_r5_for_8_2
    ∷ some timing_r1_r5_for_8_2
    ∷ some timing_r1_r5_for_8_2
    ∷ some timing_r1_r5_for_8_2
    ∷ some timing_r1_r5_for_8_2
    ∷ some timing_r1_r5_for_8_2
    ∷ some timing_r1_r5_r9_r17_for_19_4
    ∷ some timing_r1_r5_for_8_2
    ∷ some timing_r1_r5_for_8_2
    ∷ some timing_r1_r5_for_8_2
    ∷ some timing_r1_r5_for_8_2
    ∷ some timing_r1_r5_for_8_2
    ∷ some timing_r1_r5_for_8_2
    ∷ some timing_r1_r5_for_8_2
    ∷ some timing_r1_r5_r9_r17_for_19_4
    ∷ some timing_r1_r5_for_8_2
    ∷ some timing_r1_r5_for_8_2
    ∷ some timing_r1_r5_for_8_2
    ∷ some timing_r1_r5_for_8_2
    ∷ some timing_r1_r5_for_8_2
    ∷ some timing_r1_r5_for_8_2
    ∷ some timing_r1_r5_for_8_2
    ∷ some timing_r1_r5_r9_r17_for_19_4
    ∷ some timing_r1_r5_for_8_2
    ∷ some timing_r1_r5_for_8_2
    ∷ some timing_r1_r5_for_8_2
    ∷ some timing_r1_r5_for_8_2
    ∷ some timing_r1_r5_for_8_2
    ∷ some timing_r1_r5_for_8_2
    ∷ some timing_r1_r5_for_8_2
    ∷ some timing_r1_r5_r9_r17_for_19_4
    ∷ some timing_r1_r5_for_8_2
    ∷ some timing_r1_r5_r9_w17_for_19_4
    ∷ some timing_r1_r5_r9_w17_for_19_4
    ∷ some timing_r1_r5_r9_w17_for_19_4
    ∷ some timing_r1_r5_r9_w17_for_19_4
    ∷ some timing_r1_r5_r9_w17_for_19_4
    ∷ some timing_r1_r5_r9_w17_for_19_4
    ∷ some timing_r1_r5_for_8_2
    ∷ some timing_r1_r5_r9_w17_for_19_4
    ∷ some timing_r1_r5_for_8_2
    ∷ some timing_r1_r5_for_8_2
    ∷ some timing_r1_r5_for_8_2
    ∷ some timing_r1_r5_for_8_2
    ∷ some timing_r1_r5_for_8_2
    ∷ some timing_r1_r5_for_8_2
    ∷ some timing_r1_r5_r9_r17_for_19_4
    ∷ some timing_r1_r5_for_8_2
    ∷ []
