-- ===== src/Timing/MainHigh.antt =====
-- Entries of unprefixed opcodes from 0x80 on; the prefixes have none (src/z80_python/_access_timing.py).
use z80_python.Base.{◌∷◌, List, Option, [], none, some}
use z80_python.Timing.{InstructionTiming}
use z80_python.Timing.Values.{
  timing_r1_for_4_1, timing_r1_for_6_1, timing_r1_r5_for_7_2, timing_r1_r5_i9_for_11_3,
  timing_r1_r5_o9_for_11_3, timing_r1_r5_r8_for_10_3, timing_r1_r5_r8_w12_w15_for_10_3_17_5,
  timing_r1_r5_r8_w12_w15_for_17_5, timing_r1_r5_r8_w12_w15_for_19_5, timing_r1_r6_r9_for_5_1_11_3,
  timing_r1_w6_w9_for_11_3,
}

unfoldable pub main_high : List (Option InstructionTiming)
main_high =
    some timing_r1_for_4_1
    ∷ some timing_r1_for_4_1
    ∷ some timing_r1_for_4_1
    ∷ some timing_r1_for_4_1
    ∷ some timing_r1_for_4_1
    ∷ some timing_r1_for_4_1
    ∷ some timing_r1_r5_for_7_2
    ∷ some timing_r1_for_4_1
    ∷ some timing_r1_for_4_1
    ∷ some timing_r1_for_4_1
    ∷ some timing_r1_for_4_1
    ∷ some timing_r1_for_4_1
    ∷ some timing_r1_for_4_1
    ∷ some timing_r1_for_4_1
    ∷ some timing_r1_r5_for_7_2
    ∷ some timing_r1_for_4_1
    ∷ some timing_r1_for_4_1
    ∷ some timing_r1_for_4_1
    ∷ some timing_r1_for_4_1
    ∷ some timing_r1_for_4_1
    ∷ some timing_r1_for_4_1
    ∷ some timing_r1_for_4_1
    ∷ some timing_r1_r5_for_7_2
    ∷ some timing_r1_for_4_1
    ∷ some timing_r1_for_4_1
    ∷ some timing_r1_for_4_1
    ∷ some timing_r1_for_4_1
    ∷ some timing_r1_for_4_1
    ∷ some timing_r1_for_4_1
    ∷ some timing_r1_for_4_1
    ∷ some timing_r1_r5_for_7_2
    ∷ some timing_r1_for_4_1
    ∷ some timing_r1_for_4_1
    ∷ some timing_r1_for_4_1
    ∷ some timing_r1_for_4_1
    ∷ some timing_r1_for_4_1
    ∷ some timing_r1_for_4_1
    ∷ some timing_r1_for_4_1
    ∷ some timing_r1_r5_for_7_2
    ∷ some timing_r1_for_4_1
    ∷ some timing_r1_for_4_1
    ∷ some timing_r1_for_4_1
    ∷ some timing_r1_for_4_1
    ∷ some timing_r1_for_4_1
    ∷ some timing_r1_for_4_1
    ∷ some timing_r1_for_4_1
    ∷ some timing_r1_r5_for_7_2
    ∷ some timing_r1_for_4_1
    ∷ some timing_r1_for_4_1
    ∷ some timing_r1_for_4_1
    ∷ some timing_r1_for_4_1
    ∷ some timing_r1_for_4_1
    ∷ some timing_r1_for_4_1
    ∷ some timing_r1_for_4_1
    ∷ some timing_r1_r5_for_7_2
    ∷ some timing_r1_for_4_1
    ∷ some timing_r1_for_4_1
    ∷ some timing_r1_for_4_1
    ∷ some timing_r1_for_4_1
    ∷ some timing_r1_for_4_1
    ∷ some timing_r1_for_4_1
    ∷ some timing_r1_for_4_1
    ∷ some timing_r1_r5_for_7_2
    ∷ some timing_r1_for_4_1
    ∷ some timing_r1_r6_r9_for_5_1_11_3
    ∷ some timing_r1_r5_r8_for_10_3
    ∷ some timing_r1_r5_r8_for_10_3
    ∷ some timing_r1_r5_r8_for_10_3
    ∷ some timing_r1_r5_r8_w12_w15_for_10_3_17_5
    ∷ some timing_r1_w6_w9_for_11_3
    ∷ some timing_r1_r5_for_7_2
    ∷ some timing_r1_w6_w9_for_11_3
    ∷ some timing_r1_r6_r9_for_5_1_11_3
    ∷ some timing_r1_r5_r8_for_10_3
    ∷ some timing_r1_r5_r8_for_10_3
    ∷ none
    ∷ some timing_r1_r5_r8_w12_w15_for_10_3_17_5
    ∷ some timing_r1_r5_r8_w12_w15_for_17_5
    ∷ some timing_r1_r5_for_7_2
    ∷ some timing_r1_w6_w9_for_11_3
    ∷ some timing_r1_r6_r9_for_5_1_11_3
    ∷ some timing_r1_r5_r8_for_10_3
    ∷ some timing_r1_r5_r8_for_10_3
    ∷ some timing_r1_r5_o9_for_11_3
    ∷ some timing_r1_r5_r8_w12_w15_for_10_3_17_5
    ∷ some timing_r1_w6_w9_for_11_3
    ∷ some timing_r1_r5_for_7_2
    ∷ some timing_r1_w6_w9_for_11_3
    ∷ some timing_r1_r6_r9_for_5_1_11_3
    ∷ some timing_r1_for_4_1
    ∷ some timing_r1_r5_r8_for_10_3
    ∷ some timing_r1_r5_i9_for_11_3
    ∷ some timing_r1_r5_r8_w12_w15_for_10_3_17_5
    ∷ none
    ∷ some timing_r1_r5_for_7_2
    ∷ some timing_r1_w6_w9_for_11_3
    ∷ some timing_r1_r6_r9_for_5_1_11_3
    ∷ some timing_r1_r5_r8_for_10_3
    ∷ some timing_r1_r5_r8_for_10_3
    ∷ some timing_r1_r5_r8_w12_w15_for_19_5
    ∷ some timing_r1_r5_r8_w12_w15_for_10_3_17_5
    ∷ some timing_r1_w6_w9_for_11_3
    ∷ some timing_r1_r5_for_7_2
    ∷ some timing_r1_w6_w9_for_11_3
    ∷ some timing_r1_r6_r9_for_5_1_11_3
    ∷ some timing_r1_for_4_1
    ∷ some timing_r1_r5_r8_for_10_3
    ∷ some timing_r1_for_4_1
    ∷ some timing_r1_r5_r8_w12_w15_for_10_3_17_5
    ∷ none
    ∷ some timing_r1_r5_for_7_2
    ∷ some timing_r1_w6_w9_for_11_3
    ∷ some timing_r1_r6_r9_for_5_1_11_3
    ∷ some timing_r1_r5_r8_for_10_3
    ∷ some timing_r1_r5_r8_for_10_3
    ∷ some timing_r1_for_4_1
    ∷ some timing_r1_r5_r8_w12_w15_for_10_3_17_5
    ∷ some timing_r1_w6_w9_for_11_3
    ∷ some timing_r1_r5_for_7_2
    ∷ some timing_r1_w6_w9_for_11_3
    ∷ some timing_r1_r6_r9_for_5_1_11_3
    ∷ some timing_r1_for_6_1
    ∷ some timing_r1_r5_r8_for_10_3
    ∷ some timing_r1_for_4_1
    ∷ some timing_r1_r5_r8_w12_w15_for_10_3_17_5
    ∷ none
    ∷ some timing_r1_r5_for_7_2
    ∷ some timing_r1_w6_w9_for_11_3
    ∷ []
