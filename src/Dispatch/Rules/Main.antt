-- ===== src/Dispatch/Rules/Main.antt =====
-- `MAIN_RULES` and `CB_RULES` (src/z80_python/_dispatch.py).
use z80_python.Base.{◌++◌, ◌==◌, ◌∷◌, List, [], not}
use z80_python.Dispatch.Method.{Method, Plain, Unary}
use z80_python.Dispatch.Page.{Argument, Rule}
use z80_python.Dispatch.Rules.{every8, keep, range, rule}

unfoldable pub main_rules : List (Rule (Unit {0}))
main_rules =
    rule (0x00 ∷ []) (Method.plain Plain.nop) Argument.absent tt
    ∷ rule (0x01 ∷ 0x11 ∷ 0x21 ∷ 0x31 ∷ []) (Method.unary Unary.ld_rr_nn) Argument.opcode tt
    ∷ rule (0x02 ∷ 0x12 ∷ []) (Method.unary Unary.ld_irr_a) Argument.opcode tt
    ∷ rule (0x03 ∷ 0x13 ∷ 0x23 ∷ 0x33 ∷ []) (Method.unary Unary.inc_rr) Argument.opcode tt
    ∷ rule (keep (λ op. not (op == 0x34)) (every8 0x04)) (Method.unary Unary.inc_r) Argument.opcode
        tt
    ∷ rule (keep (λ op. not (op == 0x35)) (every8 0x05)) (Method.unary Unary.dec_r) Argument.opcode
        tt
    ∷ rule (every8 0x06) (Method.unary Unary.ld_r_n) Argument.opcode tt
    ∷ rule (0x07 ∷ []) (Method.plain Plain.rlca) Argument.absent tt
    ∷ rule (0x08 ∷ []) (Method.plain Plain.ex_af_af) Argument.absent tt
    ∷ rule (0x09 ∷ 0x19 ∷ 0x29 ∷ 0x39 ∷ []) (Method.unary Unary.add_hl_rr) Argument.opcode tt
    ∷ rule (0x0A ∷ 0x1A ∷ []) (Method.unary Unary.ld_a_irr) Argument.opcode tt
    ∷ rule (0x0B ∷ 0x1B ∷ 0x2B ∷ 0x3B ∷ []) (Method.unary Unary.dec_rr) Argument.opcode tt
    ∷ rule (0x0F ∷ []) (Method.plain Plain.rrca) Argument.absent tt
    ∷ rule (0x10 ∷ []) (Method.plain Plain.djnz) Argument.absent tt
    ∷ rule (0x17 ∷ []) (Method.plain Plain.rla) Argument.absent tt
    ∷ rule (0x18 ∷ 0x20 ∷ 0x28 ∷ 0x30 ∷ 0x38 ∷ []) (Method.unary Unary.jr) Argument.opcode tt
    ∷ rule (0x1F ∷ []) (Method.plain Plain.rra) Argument.absent tt
    ∷ rule (0x22 ∷ []) (Method.plain Plain.ld_nn_hl) Argument.absent tt
    ∷ rule (0x27 ∷ []) (Method.plain Plain.daa) Argument.absent tt
    ∷ rule (0x2A ∷ []) (Method.plain Plain.ld_hl_nn_from_mem) Argument.absent tt
    ∷ rule (0x2F ∷ []) (Method.plain Plain.cpl) Argument.absent tt
    ∷ rule (0x32 ∷ []) (Method.plain Plain.ld_inn_a) Argument.absent tt
    ∷ rule (0x34 ∷ []) (Method.plain Plain.inc_hl) Argument.absent tt
    ∷ rule (0x35 ∷ []) (Method.plain Plain.dec_hl) Argument.absent tt
    ∷ rule (0x37 ∷ 0x3F ∷ []) (Method.unary Unary.scf_ccf) Argument.opcode tt
    ∷ rule (0x3A ∷ []) (Method.plain Plain.ld_a_inn) Argument.absent tt
    ∷ rule (keep (λ op. not (op == 0x76)) (range 0x40 0x80)) (Method.unary Unary.ld_r_r)
        Argument.opcode tt
    ∷ rule (0x76 ∷ []) (Method.plain Plain.halt) Argument.absent tt
    ∷ rule (range 0x80 0xC0) (Method.unary Unary.alu_r) Argument.opcode tt
    ∷ rule (every8 0xC0) (Method.unary Unary.ret_cc) Argument.opcode tt
    ∷ rule (0xC1 ∷ 0xD1 ∷ 0xE1 ∷ []) (Method.unary Unary.pop_rr) Argument.opcode tt
    ∷ rule (every8 0xC2 ++ (0xC3 ∷ [])) (Method.unary Unary.jp) Argument.opcode tt
    ∷ rule (every8 0xC4 ++ (0xCD ∷ [])) (Method.unary Unary.call) Argument.opcode tt
    ∷ rule (0xC5 ∷ 0xD5 ∷ 0xE5 ∷ []) (Method.unary Unary.push_rr) Argument.opcode tt
    ∷ rule (every8 0xC6) (Method.unary Unary.alu_n) Argument.opcode tt
    ∷ rule (every8 0xC7) (Method.unary Unary.rst) Argument.opcode tt
    ∷ rule (0xC9 ∷ []) (Method.plain Plain.ret) Argument.absent tt
    ∷ rule (0xCB ∷ []) (Method.execute_cb) Argument.absent tt
    ∷ rule (0xD3 ∷ []) (Method.plain Plain.out_n_a) Argument.absent tt
    ∷ rule (0xD9 ∷ []) (Method.plain Plain.exx) Argument.absent tt
    ∷ rule (0xDB ∷ []) (Method.plain Plain.in_a_n) Argument.absent tt
    ∷ rule (0xDD ∷ 0xFD ∷ []) (Method.execute_index) Argument.opcode tt
    ∷ rule (0xE3 ∷ []) (Method.plain Plain.ex_sp_hl) Argument.absent tt
    ∷ rule (0xE9 ∷ []) (Method.plain Plain.jp_hl) Argument.absent tt
    ∷ rule (0xEB ∷ []) (Method.plain Plain.ex_de_hl) Argument.absent tt
    ∷ rule (0xED ∷ []) (Method.execute_ed) Argument.absent tt
    ∷ rule (0xF1 ∷ []) (Method.plain Plain.pop_af) Argument.absent tt
    ∷ rule (0xF3 ∷ []) (Method.unary Unary.interrupt_enable) (Argument.given 0) tt
    ∷ rule (0xF5 ∷ []) (Method.plain Plain.push_af) Argument.absent tt
    ∷ rule (0xF9 ∷ []) (Method.plain Plain.ld_sp_hl) Argument.absent tt
    ∷ rule (0xFB ∷ []) (Method.unary Unary.interrupt_enable) (Argument.given 1) tt
    ∷ []

unfoldable pub cb_rules : List (Rule (Unit {0}))
cb_rules =
    rule (range 0x00 0x40) (Method.unary Unary.rot) Argument.opcode tt
    ∷ rule (range 0x40 0x80) (Method.unary Unary.bit) Argument.opcode tt
    ∷ rule (range 0x80 0xC0) (Method.unary Unary.res) Argument.opcode tt
    ∷ rule (range 0xC0 0x100) (Method.unary Unary.set) Argument.opcode tt
    ∷ []
