-- ===== src/Timing/IndexHigh.antt =====
-- Entries of DD opcodes from 0x80 on; those of FD are the same (src/z80_python/_access_timing.py).
use z80_python.Base.{◌∷◌, List, Option, [], none, some}
use z80_python.Timing.{InstructionTiming}
use z80_python.Timing.Values.{
  timing_r1_r5_for_10_2, timing_r1_r5_for_8_2, timing_r1_r5_r10_r13_for_9_2_15_4,
  timing_r1_r5_r9_for_11_3, timing_r1_r5_r9_i13_for_15_4, timing_r1_r5_r9_o13_for_15_4,
  timing_r1_r5_r9_r12_for_14_4, timing_r1_r5_r9_r12_w16_w19_for_14_4_21_6,
  timing_r1_r5_r9_r12_w16_w19_for_21_6, timing_r1_r5_r9_r12_w16_w19_for_23_6,
  timing_r1_r5_r9_r17_for_19_4, timing_r1_r5_w10_w13_for_15_4,
}

unfoldable pub index_high : List (Option InstructionTiming)
index_high =
    some timing_r1_r5_for_8_2
    ∷ some timing_r1_r5_for_8_2
    ∷ some timing_r1_r5_for_8_2
    ∷ some timing_r1_r5_for_8_2
    ∷ some timing_r1_r5_for_8_2
    ∷ some timing_r1_r5_for_8_2
    ∷ some timing_r1_r5_r9_r17_for_19_4
    ∷ some timing_r1_r5_for_8_2
    ∷ some timing_r1_r5_for_8_2
    ∷ some timing_r1_r5_for_8_2
    ∷ some timing_r1_r5_for_8_2
    ∷ some timing_r1_r5_for_8_2
    ∷ some timing_r1_r5_for_8_2
    ∷ some timing_r1_r5_for_8_2
    ∷ some timing_r1_r5_r9_r17_for_19_4
    ∷ some timing_r1_r5_for_8_2
    ∷ some timing_r1_r5_for_8_2
    ∷ some timing_r1_r5_for_8_2
    ∷ some timing_r1_r5_for_8_2
    ∷ some timing_r1_r5_for_8_2
    ∷ some timing_r1_r5_for_8_2
    ∷ some timing_r1_r5_for_8_2
    ∷ some timing_r1_r5_r9_r17_for_19_4
    ∷ some timing_r1_r5_for_8_2
    ∷ some timing_r1_r5_for_8_2
    ∷ some timing_r1_r5_for_8_2
    ∷ some timing_r1_r5_for_8_2
    ∷ some timing_r1_r5_for_8_2
    ∷ some timing_r1_r5_for_8_2
    ∷ some timing_r1_r5_for_8_2
    ∷ some timing_r1_r5_r9_r17_for_19_4
    ∷ some timing_r1_r5_for_8_2
    ∷ some timing_r1_r5_for_8_2
    ∷ some timing_r1_r5_for_8_2
    ∷ some timing_r1_r5_for_8_2
    ∷ some timing_r1_r5_for_8_2
    ∷ some timing_r1_r5_for_8_2
    ∷ some timing_r1_r5_for_8_2
    ∷ some timing_r1_r5_r9_r17_for_19_4
    ∷ some timing_r1_r5_for_8_2
    ∷ some timing_r1_r5_for_8_2
    ∷ some timing_r1_r5_for_8_2
    ∷ some timing_r1_r5_for_8_2
    ∷ some timing_r1_r5_for_8_2
    ∷ some timing_r1_r5_for_8_2
    ∷ some timing_r1_r5_for_8_2
    ∷ some timing_r1_r5_r9_r17_for_19_4
    ∷ some timing_r1_r5_for_8_2
    ∷ some timing_r1_r5_for_8_2
    ∷ some timing_r1_r5_for_8_2
    ∷ some timing_r1_r5_for_8_2
    ∷ some timing_r1_r5_for_8_2
    ∷ some timing_r1_r5_for_8_2
    ∷ some timing_r1_r5_for_8_2
    ∷ some timing_r1_r5_r9_r17_for_19_4
    ∷ some timing_r1_r5_for_8_2
    ∷ some timing_r1_r5_for_8_2
    ∷ some timing_r1_r5_for_8_2
    ∷ some timing_r1_r5_for_8_2
    ∷ some timing_r1_r5_for_8_2
    ∷ some timing_r1_r5_for_8_2
    ∷ some timing_r1_r5_for_8_2
    ∷ some timing_r1_r5_r9_r17_for_19_4
    ∷ some timing_r1_r5_for_8_2
    ∷ some timing_r1_r5_r10_r13_for_9_2_15_4
    ∷ some timing_r1_r5_r9_r12_for_14_4
    ∷ some timing_r1_r5_r9_r12_for_14_4
    ∷ some timing_r1_r5_r9_r12_for_14_4
    ∷ some timing_r1_r5_r9_r12_w16_w19_for_14_4_21_6
    ∷ some timing_r1_r5_w10_w13_for_15_4
    ∷ some timing_r1_r5_r9_for_11_3
    ∷ some timing_r1_r5_w10_w13_for_15_4
    ∷ some timing_r1_r5_r10_r13_for_9_2_15_4
    ∷ some timing_r1_r5_r9_r12_for_14_4
    ∷ some timing_r1_r5_r9_r12_for_14_4
    ∷ none
    ∷ some timing_r1_r5_r9_r12_w16_w19_for_14_4_21_6
    ∷ some timing_r1_r5_r9_r12_w16_w19_for_21_6
    ∷ some timing_r1_r5_r9_for_11_3
    ∷ some timing_r1_r5_w10_w13_for_15_4
    ∷ some timing_r1_r5_r10_r13_for_9_2_15_4
    ∷ some timing_r1_r5_r9_r12_for_14_4
    ∷ some timing_r1_r5_r9_r12_for_14_4
    ∷ some timing_r1_r5_r9_o13_for_15_4
    ∷ some timing_r1_r5_r9_r12_w16_w19_for_14_4_21_6
    ∷ some timing_r1_r5_w10_w13_for_15_4
    ∷ some timing_r1_r5_r9_for_11_3
    ∷ some timing_r1_r5_w10_w13_for_15_4
    ∷ some timing_r1_r5_r10_r13_for_9_2_15_4
    ∷ some timing_r1_r5_for_8_2
    ∷ some timing_r1_r5_r9_r12_for_14_4
    ∷ some timing_r1_r5_r9_i13_for_15_4
    ∷ some timing_r1_r5_r9_r12_w16_w19_for_14_4_21_6
    ∷ none
    ∷ some timing_r1_r5_r9_for_11_3
    ∷ some timing_r1_r5_w10_w13_for_15_4
    ∷ some timing_r1_r5_r10_r13_for_9_2_15_4
    ∷ some timing_r1_r5_r9_r12_for_14_4
    ∷ some timing_r1_r5_r9_r12_for_14_4
    ∷ some timing_r1_r5_r9_r12_w16_w19_for_23_6
    ∷ some timing_r1_r5_r9_r12_w16_w19_for_14_4_21_6
    ∷ some timing_r1_r5_w10_w13_for_15_4
    ∷ some timing_r1_r5_r9_for_11_3
    ∷ some timing_r1_r5_w10_w13_for_15_4
    ∷ some timing_r1_r5_r10_r13_for_9_2_15_4
    ∷ some timing_r1_r5_for_8_2
    ∷ some timing_r1_r5_r9_r12_for_14_4
    ∷ some timing_r1_r5_for_8_2
    ∷ some timing_r1_r5_r9_r12_w16_w19_for_14_4_21_6
    ∷ none
    ∷ some timing_r1_r5_r9_for_11_3
    ∷ some timing_r1_r5_w10_w13_for_15_4
    ∷ some timing_r1_r5_r10_r13_for_9_2_15_4
    ∷ some timing_r1_r5_r9_r12_for_14_4
    ∷ some timing_r1_r5_r9_r12_for_14_4
    ∷ some timing_r1_r5_for_8_2
    ∷ some timing_r1_r5_r9_r12_w16_w19_for_14_4_21_6
    ∷ some timing_r1_r5_w10_w13_for_15_4
    ∷ some timing_r1_r5_r9_for_11_3
    ∷ some timing_r1_r5_w10_w13_for_15_4
    ∷ some timing_r1_r5_r10_r13_for_9_2_15_4
    ∷ some timing_r1_r5_for_10_2
    ∷ some timing_r1_r5_r9_r12_for_14_4
    ∷ some timing_r1_r5_for_8_2
    ∷ some timing_r1_r5_r9_r12_w16_w19_for_14_4_21_6
    ∷ none
    ∷ some timing_r1_r5_r9_for_11_3
    ∷ some timing_r1_r5_w10_w13_for_15_4
    ∷ []
