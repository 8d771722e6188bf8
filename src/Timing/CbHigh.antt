-- ===== src/Timing/CbHigh.antt =====
-- Entries of CB opcodes from 0x80 on (src/z80_python/_access_timing.py).
use z80_python.Base.{◌∷◌, List, Option, [], some}
use z80_python.Timing.{InstructionTiming}
use z80_python.Timing.Values.{timing_r1_r5_for_8_2, timing_r1_r5_r9_w13_for_15_4}

unfoldable pub cb_high : List (Option InstructionTiming)
cb_high =
    some timing_r1_r5_for_8_2
    ∷ some timing_r1_r5_for_8_2
    ∷ some timing_r1_r5_for_8_2
    ∷ some timing_r1_r5_for_8_2
    ∷ some timing_r1_r5_for_8_2
    ∷ some timing_r1_r5_for_8_2
    ∷ some timing_r1_r5_r9_w13_for_15_4
    ∷ some timing_r1_r5_for_8_2
    ∷ some timing_r1_r5_for_8_2
    ∷ some timing_r1_r5_for_8_2
    ∷ some timing_r1_r5_for_8_2
    ∷ some timing_r1_r5_for_8_2
    ∷ some timing_r1_r5_for_8_2
    ∷ some timing_r1_r5_for_8_2
    ∷ some timing_r1_r5_r9_w13_for_15_4
    ∷ some timing_r1_r5_for_8_2
    ∷ some timing_r1_r5_for_8_2
    ∷ some timing_r1_r5_for_8_2
    ∷ some timing_r1_r5_for_8_2
    ∷ some timing_r1_r5_for_8_2
    ∷ some timing_r1_r5_for_8_2
    ∷ some timing_r1_r5_for_8_2
    ∷ some timing_r1_r5_r9_w13_for_15_4
    ∷ some timing_r1_r5_for_8_2
    ∷ some timing_r1_r5_for_8_2
    ∷ some timing_r1_r5_for_8_2
    ∷ some timing_r1_r5_for_8_2
    ∷ some timing_r1_r5_for_8_2
    ∷ some timing_r1_r5_for_8_2
    ∷ some timing_r1_r5_for_8_2
    ∷ some timing_r1_r5_r9_w13_for_15_4
    ∷ some timing_r1_r5_for_8_2
    ∷ some timing_r1_r5_for_8_2
    ∷ some timing_r1_r5_for_8_2
    ∷ some timing_r1_r5_for_8_2
    ∷ some timing_r1_r5_for_8_2
    ∷ some timing_r1_r5_for_8_2
    ∷ some timing_r1_r5_for_8_2
    ∷ some timing_r1_r5_r9_w13_for_15_4
    ∷ some timing_r1_r5_for_8_2
    ∷ some timing_r1_r5_for_8_2
    ∷ some timing_r1_r5_for_8_2
    ∷ some timing_r1_r5_for_8_2
    ∷ some timing_r1_r5_for_8_2
    ∷ some timing_r1_r5_for_8_2
    ∷ some timing_r1_r5_for_8_2
    ∷ some timing_r1_r5_r9_w13_for_15_4
    ∷ some timing_r1_r5_for_8_2
    ∷ some timing_r1_r5_for_8_2
    ∷ some timing_r1_r5_for_8_2
    ∷ some timing_r1_r5_for_8_2
    ∷ some timing_r1_r5_for_8_2
    ∷ some timing_r1_r5_for_8_2
    ∷ some timing_r1_r5_for_8_2
    ∷ some timing_r1_r5_r9_w13_for_15_4
    ∷ some timing_r1_r5_for_8_2
    ∷ some timing_r1_r5_for_8_2
    ∷ some timing_r1_r5_for_8_2
    ∷ some timing_r1_r5_for_8_2
    ∷ some timing_r1_r5_for_8_2
    ∷ some timing_r1_r5_for_8_2
    ∷ some timing_r1_r5_for_8_2
    ∷ some timing_r1_r5_r9_w13_for_15_4
    ∷ some timing_r1_r5_for_8_2
    ∷ some timing_r1_r5_for_8_2
    ∷ some timing_r1_r5_for_8_2
    ∷ some timing_r1_r5_for_8_2
    ∷ some timing_r1_r5_for_8_2
    ∷ some timing_r1_r5_for_8_2
    ∷ some timing_r1_r5_for_8_2
    ∷ some timing_r1_r5_r9_w13_for_15_4
    ∷ some timing_r1_r5_for_8_2
    ∷ some timing_r1_r5_for_8_2
    ∷ some timing_r1_r5_for_8_2
    ∷ some timing_r1_r5_for_8_2
    ∷ some timing_r1_r5_for_8_2
    ∷ some timing_r1_r5_for_8_2
    ∷ some timing_r1_r5_for_8_2
    ∷ some timing_r1_r5_r9_w13_for_15_4
    ∷ some timing_r1_r5_for_8_2
    ∷ some timing_r1_r5_for_8_2
    ∷ some timing_r1_r5_for_8_2
    ∷ some timing_r1_r5_for_8_2
    ∷ some timing_r1_r5_for_8_2
    ∷ some timing_r1_r5_for_8_2
    ∷ some timing_r1_r5_for_8_2
    ∷ some timing_r1_r5_r9_w13_for_15_4
    ∷ some timing_r1_r5_for_8_2
    ∷ some timing_r1_r5_for_8_2
    ∷ some timing_r1_r5_for_8_2
    ∷ some timing_r1_r5_for_8_2
    ∷ some timing_r1_r5_for_8_2
    ∷ some timing_r1_r5_for_8_2
    ∷ some timing_r1_r5_for_8_2
    ∷ some timing_r1_r5_r9_w13_for_15_4
    ∷ some timing_r1_r5_for_8_2
    ∷ some timing_r1_r5_for_8_2
    ∷ some timing_r1_r5_for_8_2
    ∷ some timing_r1_r5_for_8_2
    ∷ some timing_r1_r5_for_8_2
    ∷ some timing_r1_r5_for_8_2
    ∷ some timing_r1_r5_for_8_2
    ∷ some timing_r1_r5_r9_w13_for_15_4
    ∷ some timing_r1_r5_for_8_2
    ∷ some timing_r1_r5_for_8_2
    ∷ some timing_r1_r5_for_8_2
    ∷ some timing_r1_r5_for_8_2
    ∷ some timing_r1_r5_for_8_2
    ∷ some timing_r1_r5_for_8_2
    ∷ some timing_r1_r5_for_8_2
    ∷ some timing_r1_r5_r9_w13_for_15_4
    ∷ some timing_r1_r5_for_8_2
    ∷ some timing_r1_r5_for_8_2
    ∷ some timing_r1_r5_for_8_2
    ∷ some timing_r1_r5_for_8_2
    ∷ some timing_r1_r5_for_8_2
    ∷ some timing_r1_r5_for_8_2
    ∷ some timing_r1_r5_for_8_2
    ∷ some timing_r1_r5_r9_w13_for_15_4
    ∷ some timing_r1_r5_for_8_2
    ∷ some timing_r1_r5_for_8_2
    ∷ some timing_r1_r5_for_8_2
    ∷ some timing_r1_r5_for_8_2
    ∷ some timing_r1_r5_for_8_2
    ∷ some timing_r1_r5_for_8_2
    ∷ some timing_r1_r5_for_8_2
    ∷ some timing_r1_r5_r9_w13_for_15_4
    ∷ some timing_r1_r5_for_8_2
    ∷ []
