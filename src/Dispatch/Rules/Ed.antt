-- ===== src/Dispatch/Rules/Ed.antt =====
-- `ED_RULES` and `ED_DEFAULT` (src/z80_python/_dispatch.py).
use z80_python.Base.{◌++◌, ◌<<<◌, ◌∷◌, List, [], bit_or, map, none, ℕ}
use z80_python.Dispatch.Method.{Method, Plain, Unary}
use z80_python.Dispatch.Page.{Argument, Entry, Rule}
use z80_python.Dispatch.Rules.{every8, range, rule}

-- `((first | pair << 4,), handler, pair)`, for each pair.
abbrev by_pair : ℕ → Method → List (Rule (Unit {0}))
by_pair first method =
    map (λ pair. rule (bit_or first (pair <<< 4) ∷ []) method (Argument.given pair) tt) (range 0 4)

abbrev ed_rules_before : List (Rule (Unit {0}))
ed_rules_before =
    rule (every8 0x40) (Method.unary Unary.in_r_c) Argument.opcode tt
    ∷ rule (every8 0x41) (Method.unary Unary.out_c_r) Argument.opcode tt
    ∷ rule (0x42 ∷ 0x52 ∷ 0x62 ∷ 0x72 ∷ []) (Method.unary Unary.sbc_hl_rr) Argument.opcode tt
    ∷ rule (0x4A ∷ 0x5A ∷ 0x6A ∷ 0x7A ∷ []) (Method.unary Unary.adc_hl_rr) Argument.opcode tt
    ∷ []

abbrev ed_rules_after : List (Rule (Unit {0}))
ed_rules_after =
    rule (every8 0x44) (Method.plain Plain.neg) Argument.absent tt
    ∷ rule (0x45 ∷ 0x55 ∷ 0x65 ∷ 0x75 ∷ []) (Method.plain Plain.retn) Argument.absent tt
    ∷ rule (0x4D ∷ 0x5D ∷ 0x6D ∷ 0x7D ∷ []) (Method.plain Plain.reti) Argument.absent tt
    ∷ rule (0x46 ∷ 0x4E ∷ 0x66 ∷ 0x6E ∷ []) (Method.unary Unary.im) (Argument.given 0) tt
    ∷ rule (0x56 ∷ 0x76 ∷ []) (Method.unary Unary.im) (Argument.given 1) tt
    ∷ rule (0x5E ∷ 0x7E ∷ []) (Method.unary Unary.im) (Argument.given 2) tt
    ∷ rule (0x47 ∷ []) (Method.plain Plain.ld_i_a) Argument.absent tt
    ∷ rule (0x4F ∷ []) (Method.plain Plain.ld_r_a) Argument.absent tt
    ∷ rule (0x57 ∷ []) (Method.plain Plain.ld_a_i) Argument.absent tt
    ∷ rule (0x5F ∷ []) (Method.plain Plain.ld_a_r) Argument.absent tt
    ∷ rule (0x67 ∷ []) (Method.plain Plain.rrd) Argument.absent tt
    ∷ rule (0x6F ∷ []) (Method.plain Plain.rld) Argument.absent tt
    ∷ rule (0xA0 ∷ []) (Method.plain Plain.ldi) Argument.absent tt
    ∷ rule (0xA1 ∷ []) (Method.plain Plain.cpi) Argument.absent tt
    ∷ rule (0xA2 ∷ []) (Method.plain Plain.ini) Argument.absent tt
    ∷ rule (0xA3 ∷ []) (Method.plain Plain.outi) Argument.absent tt
    ∷ rule (0xA8 ∷ []) (Method.plain Plain.ldd) Argument.absent tt
    ∷ rule (0xA9 ∷ []) (Method.plain Plain.cpd) Argument.absent tt
    ∷ rule (0xAA ∷ []) (Method.plain Plain.ind) Argument.absent tt
    ∷ rule (0xAB ∷ []) (Method.plain Plain.outd) Argument.absent tt
    ∷ rule (0xB0 ∷ []) (Method.plain Plain.ldir) Argument.absent tt
    ∷ rule (0xB1 ∷ []) (Method.plain Plain.cpir) Argument.absent tt
    ∷ rule (0xB2 ∷ []) (Method.plain Plain.inir) Argument.absent tt
    ∷ rule (0xB3 ∷ []) (Method.plain Plain.otir) Argument.absent tt
    ∷ rule (0xB8 ∷ []) (Method.plain Plain.lddr) Argument.absent tt
    ∷ rule (0xB9 ∷ []) (Method.plain Plain.cpdr) Argument.absent tt
    ∷ rule (0xBA ∷ []) (Method.plain Plain.indr) Argument.absent tt
    ∷ rule (0xBB ∷ []) (Method.plain Plain.otdr) Argument.absent tt
    ∷ []

unfoldable pub ed_rules : List (Rule (Unit {0}))
ed_rules =
    ed_rules_before
    ++ ((by_pair 0x43 (Method.unary Unary.ld_nn_rr))
        ++ ((by_pair 0x4B (Method.unary Unary.ld_rr_nn_from_mem)) ++ ed_rules_after))

unfoldable pub ed_default : Entry (Unit {0})
ed_default = record { method = Method.plain Plain.ed_nop; argument = none; columns = tt }
