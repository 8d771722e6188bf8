-- ===== src/Timing/MainLow.antt =====
-- Entries of unprefixed opcodes below 0x80 (src/z80_python/_access_timing.py).
use z80_python.Base.{◌∷◌, List, Option, [], some}
use z80_python.Timing.{InstructionTiming}
use z80_python.Timing.Values.{
  timing_r1_for_11_1, timing_r1_for_4_1, timing_r1_for_6_1, timing_r1_r5_for_12_2,
  timing_r1_r5_for_7_2, timing_r1_r5_for_7_2_12_2, timing_r1_r5_r8_for_10_3,
  timing_r1_r5_r8_r11_for_13_4, timing_r1_r5_r8_r11_r14_for_16_5, timing_r1_r5_r8_w11_for_13_4,
  timing_r1_r5_r8_w11_w14_for_16_5, timing_r1_r5_w8_for_10_3, timing_r1_r5_w9_for_11_3,
  timing_r1_r6_for_8_2_13_2, timing_r1_w5_for_7_2,
}

unfoldable pub main_low : List (Option InstructionTiming)
main_low =
    some timing_r1_for_4_1
    ∷ some timing_r1_r5_r8_for_10_3
    ∷ some timing_r1_w5_for_7_2
    ∷ some timing_r1_for_6_1
    ∷ some timing_r1_for_4_1
    ∷ some timing_r1_for_4_1
    ∷ some timing_r1_r5_for_7_2
    ∷ some timing_r1_for_4_1
    ∷ some timing_r1_for_4_1
    ∷ some timing_r1_for_11_1
    ∷ some timing_r1_r5_for_7_2
    ∷ some timing_r1_for_6_1
    ∷ some timing_r1_for_4_1
    ∷ some timing_r1_for_4_1
    ∷ some timing_r1_r5_for_7_2
    ∷ some timing_r1_for_4_1
    ∷ some timing_r1_r6_for_8_2_13_2
    ∷ some timing_r1_r5_r8_for_10_3
    ∷ some timing_r1_w5_for_7_2
    ∷ some timing_r1_for_6_1
    ∷ some timing_r1_for_4_1
    ∷ some timing_r1_for_4_1
    ∷ some timing_r1_r5_for_7_2
    ∷ some timing_r1_for_4_1
    ∷ some timing_r1_r5_for_12_2
    ∷ some timing_r1_for_11_1
    ∷ some timing_r1_r5_for_7_2
    ∷ some timing_r1_for_6_1
    ∷ some timing_r1_for_4_1
    ∷ some timing_r1_for_4_1
    ∷ some timing_r1_r5_for_7_2
    ∷ some timing_r1_for_4_1
    ∷ some timing_r1_r5_for_7_2_12_2
    ∷ some timing_r1_r5_r8_for_10_3
    ∷ some timing_r1_r5_r8_w11_w14_for_16_5
    ∷ some timing_r1_for_6_1
    ∷ some timing_r1_for_4_1
    ∷ some timing_r1_for_4_1
    ∷ some timing_r1_r5_for_7_2
    ∷ some timing_r1_for_4_1
    ∷ some timing_r1_r5_for_7_2_12_2
    ∷ some timing_r1_for_11_1
    ∷ some timing_r1_r5_r8_r11_r14_for_16_5
    ∷ some timing_r1_for_6_1
    ∷ some timing_r1_for_4_1
    ∷ some timing_r1_for_4_1
    ∷ some timing_r1_r5_for_7_2
    ∷ some timing_r1_for_4_1
    ∷ some timing_r1_r5_for_7_2_12_2
    ∷ some timing_r1_r5_r8_for_10_3
    ∷ some timing_r1_r5_r8_w11_for_13_4
    ∷ some timing_r1_for_6_1
    ∷ some timing_r1_r5_w9_for_11_3
    ∷ some timing_r1_r5_w9_for_11_3
    ∷ some timing_r1_r5_w8_for_10_3
    ∷ some timing_r1_for_4_1
    ∷ some timing_r1_r5_for_7_2_12_2
    ∷ some timing_r1_for_11_1
    ∷ some timing_r1_r5_r8_r11_for_13_4
    ∷ some timing_r1_for_6_1
    ∷ some timing_r1_for_4_1
    ∷ some timing_r1_for_4_1
    ∷ some timing_r1_r5_for_7_2
    ∷ some timing_r1_for_4_1
    ∷ some timing_r1_for_4_1
    ∷ some timing_r1_for_4_1
    ∷ some timing_r1_for_4_1
    ∷ some timing_r1_for_4_1
    ∷ some timing_r1_for_4_1
    ∷ some timing_r1_for_4_1
    ∷ some timing_r1_r5_for_7_2
    ∷ some timing_r1_for_4_1
    ∷ some timing_r1_for_4_1
    ∷ some timing_r1_for_4_1
    ∷ some timing_r1_for_4_1
    ∷ some timing_r1_for_4_1
    ∷ some timing_r1_for_4_1
    ∷ some timing_r1_for_4_1
    ∷ some timing_r1_r5_for_7_2
    ∷ some timing_r1_for_4_1
    ∷ some timing_r1_for_4_1
    ∷ some timing_r1_for_4_1
    ∷ some timing_r1_for_4_1
    ∷ some timing_r1_for_4_1
    ∷ some timing_r1_for_4_1
    ∷ some timing_r1_for_4_1
    ∷ some timing_r1_r5_for_7_2
    ∷ some timing_r1_for_4_1
    ∷ some timing_r1_for_4_1
    ∷ some timing_r1_for_4_1
    ∷ some timing_r1_for_4_1
    ∷ some timing_r1_for_4_1
    ∷ some timing_r1_for_4_1
    ∷ some timing_r1_for_4_1
    ∷ some timing_r1_r5_for_7_2
    ∷ some timing_r1_for_4_1
    ∷ some timing_r1_for_4_1
    ∷ some timing_r1_for_4_1
    ∷ some timing_r1_for_4_1
    ∷ some timing_r1_for_4_1
    ∷ some timing_r1_for_4_1
    ∷ some timing_r1_for_4_1
    ∷ some timing_r1_r5_for_7_2
    ∷ some timing_r1_for_4_1
    ∷ some timing_r1_for_4_1
    ∷ some timing_r1_for_4_1
    ∷ some timing_r1_for_4_1
    ∷ some timing_r1_for_4_1
    ∷ some timing_r1_for_4_1
    ∷ some timing_r1_for_4_1
    ∷ some timing_r1_r5_for_7_2
    ∷ some timing_r1_for_4_1
    ∷ some timing_r1_w5_for_7_2
    ∷ some timing_r1_w5_for_7_2
    ∷ some timing_r1_w5_for_7_2
    ∷ some timing_r1_w5_for_7_2
    ∷ some timing_r1_w5_for_7_2
    ∷ some timing_r1_w5_for_7_2
    ∷ some timing_r1_for_4_1
    ∷ some timing_r1_w5_for_7_2
    ∷ some timing_r1_for_4_1
    ∷ some timing_r1_for_4_1
    ∷ some timing_r1_for_4_1
    ∷ some timing_r1_for_4_1
    ∷ some timing_r1_for_4_1
    ∷ some timing_r1_for_4_1
    ∷ some timing_r1_r5_for_7_2
    ∷ some timing_r1_for_4_1
    ∷ []
