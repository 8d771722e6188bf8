-- ===== src/Timing/IndexCbLow.antt =====
-- Entries of DD CB opcodes below 0x80; those of FD CB are the same (src/z80_python/_access_timing.py).
use z80_python.Base.{◌∷◌, List, Option, [], some}
use z80_python.Timing.{InstructionTiming}
use z80_python.Timing.Values.{
  timing_r1_r5_r9_r12_r17_for_20_5, timing_r1_r5_r9_r12_r17_w21_for_23_6,
}

unfoldable pub index_cb_low : List (Option InstructionTiming)
index_cb_low =
    some timing_r1_r5_r9_r12_r17_w21_for_23_6
    ∷ some timing_r1_r5_r9_r12_r17_w21_for_23_6
    ∷ some timing_r1_r5_r9_r12_r17_w21_for_23_6
    ∷ some timing_r1_r5_r9_r12_r17_w21_for_23_6
    ∷ some timing_r1_r5_r9_r12_r17_w21_for_23_6
    ∷ some timing_r1_r5_r9_r12_r17_w21_for_23_6
    ∷ some timing_r1_r5_r9_r12_r17_w21_for_23_6
    ∷ some timing_r1_r5_r9_r12_r17_w21_for_23_6
    ∷ some timing_r1_r5_r9_r12_r17_w21_for_23_6
    ∷ some timing_r1_r5_r9_r12_r17_w21_for_23_6
    ∷ some timing_r1_r5_r9_r12_r17_w21_for_23_6
    ∷ some timing_r1_r5_r9_r12_r17_w21_for_23_6
    ∷ some timing_r1_r5_r9_r12_r17_w21_for_23_6
    ∷ some timing_r1_r5_r9_r12_r17_w21_for_23_6
    ∷ some timing_r1_r5_r9_r12_r17_w21_for_23_6
    ∷ some timing_r1_r5_r9_r12_r17_w21_for_23_6
    ∷ some timing_r1_r5_r9_r12_r17_w21_for_23_6
    ∷ some timing_r1_r5_r9_r12_r17_w21_for_23_6
    ∷ some timing_r1_r5_r9_r12_r17_w21_for_23_6
    ∷ some timing_r1_r5_r9_r12_r17_w21_for_23_6
    ∷ some timing_r1_r5_r9_r12_r17_w21_for_23_6
    ∷ some timing_r1_r5_r9_r12_r17_w21_for_23_6
    ∷ some timing_r1_r5_r9_r12_r17_w21_for_23_6
    ∷ some timing_r1_r5_r9_r12_r17_w21_for_23_6
    ∷ some timing_r1_r5_r9_r12_r17_w21_for_23_6
    ∷ some timing_r1_r5_r9_r12_r17_w21_for_23_6
    ∷ some timing_r1_r5_r9_r12_r17_w21_for_23_6
    ∷ some timing_r1_r5_r9_r12_r17_w21_for_23_6
    ∷ some timing_r1_r5_r9_r12_r17_w21_for_23_6
    ∷ some timing_r1_r5_r9_r12_r17_w21_for_23_6
    ∷ some timing_r1_r5_r9_r12_r17_w21_for_23_6
    ∷ some timing_r1_r5_r9_r12_r17_w21_for_23_6
    ∷ some timing_r1_r5_r9_r12_r17_w21_for_23_6
    ∷ some timing_r1_r5_r9_r12_r17_w21_for_23_6
    ∷ some timing_r1_r5_r9_r12_r17_w21_for_23_6
    ∷ some timing_r1_r5_r9_r12_r17_w21_for_23_6
    ∷ some timing_r1_r5_r9_r12_r17_w21_for_23_6
    ∷ some timing_r1_r5_r9_r12_r17_w21_for_23_6
    ∷ some timing_r1_r5_r9_r12_r17_w21_for_23_6
    ∷ some timing_r1_r5_r9_r12_r17_w21_for_23_6
    ∷ some timing_r1_r5_r9_r12_r17_w21_for_23_6
    ∷ some timing_r1_r5_r9_r12_r17_w21_for_23_6
    ∷ some timing_r1_r5_r9_r12_r17_w21_for_23_6
    ∷ some timing_r1_r5_r9_r12_r17_w21_for_23_6
    ∷ some timing_r1_r5_r9_r12_r17_w21_for_23_6
    ∷ some timing_r1_r5_r9_r12_r17_w21_for_23_6
    ∷ some timing_r1_r5_r9_r12_r17_w21_for_23_6
    ∷ some timing_r1_r5_r9_r12_r17_w21_for_23_6
    ∷ some timing_r1_r5_r9_r12_r17_w21_for_23_6
    ∷ some timing_r1_r5_r9_r12_r17_w21_for_23_6
    ∷ some timing_r1_r5_r9_r12_r17_w21_for_23_6
    ∷ some timing_r1_r5_r9_r12_r17_w21_for_23_6
    ∷ some timing_r1_r5_r9_r12_r17_w21_for_23_6
    ∷ some timing_r1_r5_r9_r12_r17_w21_for_23_6
    ∷ some timing_r1_r5_r9_r12_r17_w21_for_23_6
    ∷ some timing_r1_r5_r9_r12_r17_w21_for_23_6
    ∷ some timing_r1_r5_r9_r12_r17_w21_for_23_6
    ∷ some timing_r1_r5_r9_r12_r17_w21_for_23_6
    ∷ some timing_r1_r5_r9_r12_r17_w21_for_23_6
    ∷ some timing_r1_r5_r9_r12_r17_w21_for_23_6
    ∷ some timing_r1_r5_r9_r12_r17_w21_for_23_6
    ∷ some timing_r1_r5_r9_r12_r17_w21_for_23_6
    ∷ some timing_r1_r5_r9_r12_r17_w21_for_23_6
    ∷ some timing_r1_r5_r9_r12_r17_w21_for_23_6
    ∷ some timing_r1_r5_r9_r12_r17_for_20_5
    ∷ some timing_r1_r5_r9_r12_r17_for_20_5
    ∷ some timing_r1_r5_r9_r12_r17_for_20_5
    ∷ some timing_r1_r5_r9_r12_r17_for_20_5
    ∷ some timing_r1_r5_r9_r12_r17_for_20_5
    ∷ some timing_r1_r5_r9_r12_r17_for_20_5
    ∷ some timing_r1_r5_r9_r12_r17_for_20_5
    ∷ some timing_r1_r5_r9_r12_r17_for_20_5
    ∷ some timing_r1_r5_r9_r12_r17_for_20_5
    ∷ some timing_r1_r5_r9_r12_r17_for_20_5
    ∷ some timing_r1_r5_r9_r12_r17_for_20_5
    ∷ some timing_r1_r5_r9_r12_r17_for_20_5
    ∷ some timing_r1_r5_r9_r12_r17_for_20_5
    ∷ some timing_r1_r5_r9_r12_r17_for_20_5
    ∷ some timing_r1_r5_r9_r12_r17_for_20_5
    ∷ some timing_r1_r5_r9_r12_r17_for_20_5
    ∷ some timing_r1_r5_r9_r12_r17_for_20_5
    ∷ some timing_r1_r5_r9_r12_r17_for_20_5
    ∷ some timing_r1_r5_r9_r12_r17_for_20_5
    ∷ some timing_r1_r5_r9_r12_r17_for_20_5
    ∷ some timing_r1_r5_r9_r12_r17_for_20_5
    ∷ some timing_r1_r5_r9_r12_r17_for_20_5
    ∷ some timing_r1_r5_r9_r12_r17_for_20_5
    ∷ some timing_r1_r5_r9_r12_r17_for_20_5
    ∷ some timing_r1_r5_r9_r12_r17_for_20_5
    ∷ some timing_r1_r5_r9_r12_r17_for_20_5
    ∷ some timing_r1_r5_r9_r12_r17_for_20_5
    ∷ some timing_r1_r5_r9_r12_r17_for_20_5
    ∷ some timing_r1_r5_r9_r12_r17_for_20_5
    ∷ some timing_r1_r5_r9_r12_r17_for_20_5
    ∷ some timing_r1_r5_r9_r12_r17_for_20_5
    ∷ some timing_r1_r5_r9_r12_r17_for_20_5
    ∷ some timing_r1_r5_r9_r12_r17_for_20_5
    ∷ some timing_r1_r5_r9_r12_r17_for_20_5
    ∷ some timing_r1_r5_r9_r12_r17_for_20_5
    ∷ some timing_r1_r5_r9_r12_r17_for_20_5
    ∷ some timing_r1_r5_r9_r12_r17_for_20_5
    ∷ some timing_r1_r5_r9_r12_r17_for_20_5
    ∷ some timing_r1_r5_r9_r12_r17_for_20_5
    ∷ some timing_r1_r5_r9_r12_r17_for_20_5
    ∷ some timing_r1_r5_r9_r12_r17_for_20_5
    ∷ some timing_r1_r5_r9_r12_r17_for_20_5
    ∷ some timing_r1_r5_r9_r12_r17_for_20_5
    ∷ some timing_r1_r5_r9_r12_r17_for_20_5
    ∷ some timing_r1_r5_r9_r12_r17_for_20_5
    ∷ some timing_r1_r5_r9_r12_r17_for_20_5
    ∷ some timing_r1_r5_r9_r12_r17_for_20_5
    ∷ some timing_r1_r5_r9_r12_r17_for_20_5
    ∷ some timing_r1_r5_r9_r12_r17_for_20_5
    ∷ some timing_r1_r5_r9_r12_r17_for_20_5
    ∷ some timing_r1_r5_r9_r12_r17_for_20_5
    ∷ some timing_r1_r5_r9_r12_r17_for_20_5
    ∷ some timing_r1_r5_r9_r12_r17_for_20_5
    ∷ some timing_r1_r5_r9_r12_r17_for_20_5
    ∷ some timing_r1_r5_r9_r12_r17_for_20_5
    ∷ some timing_r1_r5_r9_r12_r17_for_20_5
    ∷ some timing_r1_r5_r9_r12_r17_for_20_5
    ∷ some timing_r1_r5_r9_r12_r17_for_20_5
    ∷ some timing_r1_r5_r9_r12_r17_for_20_5
    ∷ some timing_r1_r5_r9_r12_r17_for_20_5
    ∷ some timing_r1_r5_r9_r12_r17_for_20_5
    ∷ some timing_r1_r5_r9_r12_r17_for_20_5
    ∷ some timing_r1_r5_r9_r12_r17_for_20_5
    ∷ some timing_r1_r5_r9_r12_r17_for_20_5
    ∷ []
