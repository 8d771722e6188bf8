-- ===== src/Timing/Values.antt =====
-- The distinct values of the table (src/z80_python/_access_timing.py), named by their accesses
-- (r, w, i, o for read, write, in, out, with the offset) and by their shapes (T-states, accesses).
use z80_python.Base.{◌∷◌, []}
use z80_python.Debug.{input, output, read, write}
use z80_python.Timing.{InstructionTiming, at, timed}

abbrev pub timing_r1_for_4_1 : InstructionTiming
timing_r1_for_4_1 = timed (at read 1 ∷ []) ((4, 1) ∷ [])

abbrev pub timing_r1_for_6_1 : InstructionTiming
timing_r1_for_6_1 = timed (at read 1 ∷ []) ((6, 1) ∷ [])

abbrev pub timing_r1_for_11_1 : InstructionTiming
timing_r1_for_11_1 = timed (at read 1 ∷ []) ((11, 1) ∷ [])

abbrev pub timing_r1_r5_for_7_2 : InstructionTiming
timing_r1_r5_for_7_2 = timed (at read 1 ∷ at read 5 ∷ []) ((7, 2) ∷ [])

abbrev pub timing_r1_r5_for_7_2_12_2 : InstructionTiming
timing_r1_r5_for_7_2_12_2 = timed (at read 1 ∷ at read 5 ∷ []) ((7, 2) ∷ (12, 2) ∷ [])

abbrev pub timing_r1_r5_for_8_2 : InstructionTiming
timing_r1_r5_for_8_2 = timed (at read 1 ∷ at read 5 ∷ []) ((8, 2) ∷ [])

abbrev pub timing_r1_r5_for_9_2 : InstructionTiming
timing_r1_r5_for_9_2 = timed (at read 1 ∷ at read 5 ∷ []) ((9, 2) ∷ [])

abbrev pub timing_r1_r5_for_10_2 : InstructionTiming
timing_r1_r5_for_10_2 = timed (at read 1 ∷ at read 5 ∷ []) ((10, 2) ∷ [])

abbrev pub timing_r1_r5_for_12_2 : InstructionTiming
timing_r1_r5_for_12_2 = timed (at read 1 ∷ at read 5 ∷ []) ((12, 2) ∷ [])

abbrev pub timing_r1_r5_for_15_2 : InstructionTiming
timing_r1_r5_for_15_2 = timed (at read 1 ∷ at read 5 ∷ []) ((15, 2) ∷ [])

abbrev pub timing_r1_r6_for_8_2_13_2 : InstructionTiming
timing_r1_r6_for_8_2_13_2 = timed (at read 1 ∷ at read 6 ∷ []) ((8, 2) ∷ (13, 2) ∷ [])

abbrev pub timing_r1_w5_for_7_2 : InstructionTiming
timing_r1_w5_for_7_2 = timed (at read 1 ∷ at write 5 ∷ []) ((7, 2) ∷ [])

abbrev pub timing_r1_r5_i9_for_11_3 : InstructionTiming
timing_r1_r5_i9_for_11_3 = timed (at read 1 ∷ at read 5 ∷ at input 9 ∷ []) ((11, 3) ∷ [])

abbrev pub timing_r1_r5_i10_for_12_3 : InstructionTiming
timing_r1_r5_i10_for_12_3 = timed (at read 1 ∷ at read 5 ∷ at input 10 ∷ []) ((12, 3) ∷ [])

abbrev pub timing_r1_r5_o9_for_11_3 : InstructionTiming
timing_r1_r5_o9_for_11_3 = timed (at read 1 ∷ at read 5 ∷ at output 9 ∷ []) ((11, 3) ∷ [])

abbrev pub timing_r1_r5_o10_for_12_3 : InstructionTiming
timing_r1_r5_o10_for_12_3 = timed (at read 1 ∷ at read 5 ∷ at output 10 ∷ []) ((12, 3) ∷ [])

abbrev pub timing_r1_r5_r8_for_10_3 : InstructionTiming
timing_r1_r5_r8_for_10_3 = timed (at read 1 ∷ at read 5 ∷ at read 8 ∷ []) ((10, 3) ∷ [])

abbrev pub timing_r1_r5_r9_for_11_3 : InstructionTiming
timing_r1_r5_r9_for_11_3 = timed (at read 1 ∷ at read 5 ∷ at read 9 ∷ []) ((11, 3) ∷ [])

abbrev pub timing_r1_r5_r9_for_11_3_16_3 : InstructionTiming
timing_r1_r5_r9_for_11_3_16_3 =
    timed (at read 1 ∷ at read 5 ∷ at read 9 ∷ []) ((11, 3) ∷ (16, 3) ∷ [])

abbrev pub timing_r1_r5_r9_for_12_3 : InstructionTiming
timing_r1_r5_r9_for_12_3 = timed (at read 1 ∷ at read 5 ∷ at read 9 ∷ []) ((12, 3) ∷ [])

abbrev pub timing_r1_r5_r9_for_16_3 : InstructionTiming
timing_r1_r5_r9_for_16_3 = timed (at read 1 ∷ at read 5 ∷ at read 9 ∷ []) ((16, 3) ∷ [])

abbrev pub timing_r1_r5_r9_for_16_3_21_3 : InstructionTiming
timing_r1_r5_r9_for_16_3_21_3 =
    timed (at read 1 ∷ at read 5 ∷ at read 9 ∷ []) ((16, 3) ∷ (21, 3) ∷ [])

abbrev pub timing_r1_r5_r10_for_12_3_17_3 : InstructionTiming
timing_r1_r5_r10_for_12_3_17_3 =
    timed (at read 1 ∷ at read 5 ∷ at read 10 ∷ []) ((12, 3) ∷ (17, 3) ∷ [])

abbrev pub timing_r1_r5_w8_for_10_3 : InstructionTiming
timing_r1_r5_w8_for_10_3 = timed (at read 1 ∷ at read 5 ∷ at write 8 ∷ []) ((10, 3) ∷ [])

abbrev pub timing_r1_r5_w9_for_11_3 : InstructionTiming
timing_r1_r5_w9_for_11_3 = timed (at read 1 ∷ at read 5 ∷ at write 9 ∷ []) ((11, 3) ∷ [])

abbrev pub timing_r1_r6_r9_for_5_1_11_3 : InstructionTiming
timing_r1_r6_r9_for_5_1_11_3 =
    timed (at read 1 ∷ at read 6 ∷ at read 9 ∷ []) ((5, 1) ∷ (11, 3) ∷ [])

abbrev pub timing_r1_w6_w9_for_11_3 : InstructionTiming
timing_r1_w6_w9_for_11_3 = timed (at read 1 ∷ at write 6 ∷ at write 9 ∷ []) ((11, 3) ∷ [])

abbrev pub timing_r1_r5_i11_w14_for_16_4 : InstructionTiming
timing_r1_r5_i11_w14_for_16_4 =
    timed (at read 1 ∷ at read 5 ∷ at input 11 ∷ at write 14 ∷ []) ((16, 4) ∷ [])

abbrev pub timing_r1_r5_i11_w14_for_16_4_21_4 : InstructionTiming
timing_r1_r5_i11_w14_for_16_4_21_4 =
    timed (at read 1 ∷ at read 5 ∷ at input 11 ∷ at write 14 ∷ []) ((16, 4) ∷ (21, 4) ∷ [])

abbrev pub timing_r1_r5_r8_r11_for_13_4 : InstructionTiming
timing_r1_r5_r8_r11_for_13_4 =
    timed (at read 1 ∷ at read 5 ∷ at read 8 ∷ at read 11 ∷ []) ((13, 4) ∷ [])

abbrev pub timing_r1_r5_r8_w11_for_13_4 : InstructionTiming
timing_r1_r5_r8_w11_for_13_4 =
    timed (at read 1 ∷ at read 5 ∷ at read 8 ∷ at write 11 ∷ []) ((13, 4) ∷ [])

abbrev pub timing_r1_r5_r9_i13_for_15_4 : InstructionTiming
timing_r1_r5_r9_i13_for_15_4 =
    timed (at read 1 ∷ at read 5 ∷ at read 9 ∷ at input 13 ∷ []) ((15, 4) ∷ [])

abbrev pub timing_r1_r5_r9_o13_for_15_4 : InstructionTiming
timing_r1_r5_r9_o13_for_15_4 =
    timed (at read 1 ∷ at read 5 ∷ at read 9 ∷ at output 13 ∷ []) ((15, 4) ∷ [])

abbrev pub timing_r1_r5_r9_r12_for_14_4 : InstructionTiming
timing_r1_r5_r9_r12_for_14_4 =
    timed (at read 1 ∷ at read 5 ∷ at read 9 ∷ at read 12 ∷ []) ((14, 4) ∷ [])

abbrev pub timing_r1_r5_r9_r17_for_19_4 : InstructionTiming
timing_r1_r5_r9_r17_for_19_4 =
    timed (at read 1 ∷ at read 5 ∷ at read 9 ∷ at read 17 ∷ []) ((19, 4) ∷ [])

abbrev pub timing_r1_r5_r9_w12_for_16_4 : InstructionTiming
timing_r1_r5_r9_w12_for_16_4 =
    timed (at read 1 ∷ at read 5 ∷ at read 9 ∷ at write 12 ∷ []) ((16, 4) ∷ [])

abbrev pub timing_r1_r5_r9_w12_for_16_4_21_4 : InstructionTiming
timing_r1_r5_r9_w12_for_16_4_21_4 =
    timed (at read 1 ∷ at read 5 ∷ at read 9 ∷ at write 12 ∷ []) ((16, 4) ∷ (21, 4) ∷ [])

abbrev pub timing_r1_r5_r9_w13_for_15_4 : InstructionTiming
timing_r1_r5_r9_w13_for_15_4 =
    timed (at read 1 ∷ at read 5 ∷ at read 9 ∷ at write 13 ∷ []) ((15, 4) ∷ [])

abbrev pub timing_r1_r5_r9_w16_for_18_4 : InstructionTiming
timing_r1_r5_r9_w16_for_18_4 =
    timed (at read 1 ∷ at read 5 ∷ at read 9 ∷ at write 16 ∷ []) ((18, 4) ∷ [])

abbrev pub timing_r1_r5_r9_w17_for_19_4 : InstructionTiming
timing_r1_r5_r9_w17_for_19_4 =
    timed (at read 1 ∷ at read 5 ∷ at read 9 ∷ at write 17 ∷ []) ((19, 4) ∷ [])

abbrev pub timing_r1_r5_r10_o14_for_16_4 : InstructionTiming
timing_r1_r5_r10_o14_for_16_4 =
    timed (at read 1 ∷ at read 5 ∷ at read 10 ∷ at output 14 ∷ []) ((16, 4) ∷ [])

abbrev pub timing_r1_r5_r10_o14_for_16_4_21_4 : InstructionTiming
timing_r1_r5_r10_o14_for_16_4_21_4 =
    timed (at read 1 ∷ at read 5 ∷ at read 10 ∷ at output 14 ∷ []) ((16, 4) ∷ (21, 4) ∷ [])

abbrev pub timing_r1_r5_r10_r13_for_9_2_15_4 : InstructionTiming
timing_r1_r5_r10_r13_for_9_2_15_4 =
    timed (at read 1 ∷ at read 5 ∷ at read 10 ∷ at read 13 ∷ []) ((9, 2) ∷ (15, 4) ∷ [])

abbrev pub timing_r1_r5_w10_w13_for_15_4 : InstructionTiming
timing_r1_r5_w10_w13_for_15_4 =
    timed (at read 1 ∷ at read 5 ∷ at write 10 ∷ at write 13 ∷ []) ((15, 4) ∷ [])

abbrev pub timing_r1_r5_r8_r11_r14_for_16_5 : InstructionTiming
timing_r1_r5_r8_r11_r14_for_16_5 =
    timed (at read 1 ∷ at read 5 ∷ at read 8 ∷ at read 11 ∷ at read 14 ∷ []) ((16, 5) ∷ [])

abbrev pub timing_r1_r5_r8_w11_w14_for_16_5 : InstructionTiming
timing_r1_r5_r8_w11_w14_for_16_5 =
    timed (at read 1 ∷ at read 5 ∷ at read 8 ∷ at write 11 ∷ at write 14 ∷ []) ((16, 5) ∷ [])

abbrev pub timing_r1_r5_r8_w12_w15_for_10_3_17_5 : InstructionTiming
timing_r1_r5_r8_w12_w15_for_10_3_17_5 =
    timed (at read 1 ∷ at read 5 ∷ at read 8 ∷ at write 12 ∷ at write 15 ∷ [])
      ((10, 3) ∷ (17, 5) ∷ [])

abbrev pub timing_r1_r5_r8_w12_w15_for_17_5 : InstructionTiming
timing_r1_r5_r8_w12_w15_for_17_5 =
    timed (at read 1 ∷ at read 5 ∷ at read 8 ∷ at write 12 ∷ at write 15 ∷ []) ((17, 5) ∷ [])

abbrev pub timing_r1_r5_r8_w12_w15_for_19_5 : InstructionTiming
timing_r1_r5_r8_w12_w15_for_19_5 =
    timed (at read 1 ∷ at read 5 ∷ at read 8 ∷ at write 12 ∷ at write 15 ∷ []) ((19, 5) ∷ [])

abbrev pub timing_r1_r5_r9_r12_r15_for_17_5 : InstructionTiming
timing_r1_r5_r9_r12_r15_for_17_5 =
    timed (at read 1 ∷ at read 5 ∷ at read 9 ∷ at read 12 ∷ at read 15 ∷ []) ((17, 5) ∷ [])

abbrev pub timing_r1_r5_r9_r12_r17_for_20_5 : InstructionTiming
timing_r1_r5_r9_r12_r17_for_20_5 =
    timed (at read 1 ∷ at read 5 ∷ at read 9 ∷ at read 12 ∷ at read 17 ∷ []) ((20, 5) ∷ [])

abbrev pub timing_r1_r5_r9_r12_w15_for_17_5 : InstructionTiming
timing_r1_r5_r9_r12_w15_for_17_5 =
    timed (at read 1 ∷ at read 5 ∷ at read 9 ∷ at read 12 ∷ at write 15 ∷ []) ((17, 5) ∷ [])

abbrev pub timing_r1_r5_r9_r12_w17_for_19_5 : InstructionTiming
timing_r1_r5_r9_r12_w17_for_19_5 =
    timed (at read 1 ∷ at read 5 ∷ at read 9 ∷ at read 12 ∷ at write 17 ∷ []) ((19, 5) ∷ [])

abbrev pub timing_r1_r5_r9_r17_w21_for_23_5 : InstructionTiming
timing_r1_r5_r9_r17_w21_for_23_5 =
    timed (at read 1 ∷ at read 5 ∷ at read 9 ∷ at read 17 ∷ at write 21 ∷ []) ((23, 5) ∷ [])

abbrev pub timing_r1_r5_r9_r12_r15_r18_for_20_6 : InstructionTiming
timing_r1_r5_r9_r12_r15_r18_for_20_6 =
    timed (at read 1 ∷ at read 5 ∷ at read 9 ∷ at read 12 ∷ at read 15 ∷ at read 18 ∷ [])
      ((20, 6) ∷ [])

abbrev pub timing_r1_r5_r9_r12_r17_w21_for_23_6 : InstructionTiming
timing_r1_r5_r9_r12_r17_w21_for_23_6 =
    timed (at read 1 ∷ at read 5 ∷ at read 9 ∷ at read 12 ∷ at read 17 ∷ at write 21 ∷ [])
      ((23, 6) ∷ [])

abbrev pub timing_r1_r5_r9_r12_w15_w18_for_20_6 : InstructionTiming
timing_r1_r5_r9_r12_w15_w18_for_20_6 =
    timed (at read 1 ∷ at read 5 ∷ at read 9 ∷ at read 12 ∷ at write 15 ∷ at write 18 ∷ [])
      ((20, 6) ∷ [])

abbrev pub timing_r1_r5_r9_r12_w16_w19_for_14_4_21_6 : InstructionTiming
timing_r1_r5_r9_r12_w16_w19_for_14_4_21_6 =
    timed (at read 1 ∷ at read 5 ∷ at read 9 ∷ at read 12 ∷ at write 16 ∷ at write 19 ∷ [])
      ((14, 4) ∷ (21, 6) ∷ [])

abbrev pub timing_r1_r5_r9_r12_w16_w19_for_21_6 : InstructionTiming
timing_r1_r5_r9_r12_w16_w19_for_21_6 =
    timed (at read 1 ∷ at read 5 ∷ at read 9 ∷ at read 12 ∷ at write 16 ∷ at write 19 ∷ [])
      ((21, 6) ∷ [])

abbrev pub timing_r1_r5_r9_r12_w16_w19_for_23_6 : InstructionTiming
timing_r1_r5_r9_r12_w16_w19_for_23_6 =
    timed (at read 1 ∷ at read 5 ∷ at read 9 ∷ at read 12 ∷ at write 16 ∷ at write 19 ∷ [])
      ((23, 6) ∷ [])
