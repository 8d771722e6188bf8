-- ===== src/Dispatch/Rules/Index.antt =====
-- `INDEX_RULES` and `INDEX_CB_RULES` (src/z80_python/_index_dispatch.py). The last column says whether
-- the handler takes the prefix.
use z80_python.Base.{◌++◌, ◌∷◌, Bool, List, [], false, true, u3}
use z80_python.Dispatch.Method.{IndexCb, IndexPlain, IndexUnary, Method, Plain, Unary}
use z80_python.Dispatch.Page.{Argument, Rule, contains}
use z80_python.Dispatch.Rules.{every8, keep, plain_opcodes, range, range8, rule}

unfoldable pub index_rules : List (Rule Bool)
index_rules =
    rule (0x09 ∷ 0x19 ∷ 0x29 ∷ 0x39 ∷ []) (Method.index_unary IndexUnary.add_index_rr)
      Argument.opcode true
    ∷ rule (0x21 ∷ []) (Method.index_plain IndexPlain.ld_index_nn) Argument.absent true
    ∷ rule (0x22 ∷ []) (Method.index_plain IndexPlain.ld_nn_index) Argument.absent true
    ∷ rule (0x23 ∷ []) (Method.index_plain IndexPlain.inc_index) Argument.absent true
    ∷ rule (0x24 ∷ 0x25 ∷ 0x2C ∷ 0x2D ∷ []) (Method.index_unary IndexUnary.inc_dec_index_byte)
        Argument.opcode true
    ∷ rule (0x26 ∷ 0x2E ∷ []) (Method.index_unary IndexUnary.ld_index_byte_n) Argument.opcode true
    ∷ rule (0x2A ∷ []) (Method.index_plain IndexPlain.ld_index_nn_from_mem) Argument.absent true
    ∷ rule (0x2B ∷ []) (Method.index_plain IndexPlain.dec_index) Argument.absent true
    ∷ rule (0x34 ∷ []) (Method.index_plain IndexPlain.inc_index_mem) Argument.absent true
    ∷ rule (0x35 ∷ []) (Method.index_plain IndexPlain.dec_index_mem) Argument.absent true
    ∷ rule (0x36 ∷ []) (Method.index_plain IndexPlain.ld_index_mem_n) Argument.absent true
    ∷ rule (0x44 ∷ 0x45 ∷ 0x4C ∷ 0x4D ∷ 0x54 ∷ 0x55 ∷ 0x5C ∷ 0x5D ∷ 0x7C ∷ 0x7D ∷ [])
        (Method.index_unary IndexUnary.ld_r_index_byte) Argument.opcode true
    ∷ rule (0x46 ∷ 0x4E ∷ 0x56 ∷ 0x5E ∷ 0x66 ∷ 0x6E ∷ 0x7E ∷ [])
        (Method.index_unary IndexUnary.ld_r_index_mem) Argument.opcode true
    ∷ rule (plain_opcodes (0 ∷ []) (range 0x60 0x70))
        (Method.index_unary IndexUnary.ld_index_byte_r) Argument.opcode true
    ∷ rule (0x64 ∷ 0x65 ∷ 0x6C ∷ 0x6D ∷ []) (Method.index_unary IndexUnary.ld_index_byte_index_byte)
        Argument.opcode true
    ∷ rule (0x70 ∷ 0x71 ∷ 0x72 ∷ 0x73 ∷ 0x74 ∷ 0x75 ∷ 0x77 ∷ [])
        (Method.index_unary IndexUnary.ld_index_mem_r) Argument.opcode true
    ∷ rule (keep (λ op. contains (u3 op) (4 ∷ 5 ∷ [])) (range 0x80 0xC0))
        (Method.index_unary IndexUnary.alu_index_byte) Argument.opcode true
    ∷ rule (range8 0x86 0xC0) (Method.index_unary IndexUnary.alu_index_mem) Argument.opcode true
    ∷ rule (0xCB ∷ []) (Method.index_plain IndexPlain.execute_index_cb) Argument.absent true
    ∷ rule (0xE1 ∷ []) (Method.index_plain IndexPlain.pop_index) Argument.absent true
    ∷ rule (0xE3 ∷ []) (Method.index_plain IndexPlain.ex_sp_index) Argument.absent true
    ∷ rule (0xE5 ∷ []) (Method.index_plain IndexPlain.push_index) Argument.absent true
    ∷ rule (0xE9 ∷ []) (Method.index_plain IndexPlain.jp_index) Argument.absent true
    ∷ rule (0xF9 ∷ []) (Method.index_plain IndexPlain.ld_sp_index) Argument.absent true
    ∷ rule (0x00 ∷ []) (Method.plain Plain.nop) Argument.absent false
    ∷ rule (0x01 ∷ 0x11 ∷ 0x31 ∷ []) (Method.unary Unary.ld_rr_nn) Argument.opcode false
    ∷ rule (0x02 ∷ 0x12 ∷ []) (Method.unary Unary.ld_irr_a) Argument.opcode false
    ∷ rule (0x03 ∷ 0x13 ∷ 0x33 ∷ []) (Method.unary Unary.inc_rr) Argument.opcode false
    ∷ rule (0x04 ∷ 0x0C ∷ 0x14 ∷ 0x1C ∷ 0x3C ∷ []) (Method.unary Unary.inc_r) Argument.opcode false
    ∷ rule (0x05 ∷ 0x0D ∷ 0x15 ∷ 0x1D ∷ 0x3D ∷ []) (Method.unary Unary.dec_r) Argument.opcode false
    ∷ rule (0x06 ∷ 0x0E ∷ 0x16 ∷ 0x1E ∷ 0x3E ∷ []) (Method.unary Unary.ld_r_n) Argument.opcode false
    ∷ rule (0x07 ∷ []) (Method.plain Plain.rlca) Argument.absent false
    ∷ rule (0x08 ∷ []) (Method.plain Plain.ex_af_af) Argument.absent false
    ∷ rule (0x0A ∷ 0x1A ∷ []) (Method.unary Unary.ld_a_irr) Argument.opcode false
    ∷ rule (0x0B ∷ 0x1B ∷ 0x3B ∷ []) (Method.unary Unary.dec_rr) Argument.opcode false
    ∷ rule (0x0F ∷ []) (Method.plain Plain.rrca) Argument.absent false
    ∷ rule (0x10 ∷ []) (Method.plain Plain.djnz) Argument.absent false
    ∷ rule (0x17 ∷ []) (Method.plain Plain.rla) Argument.absent false
    ∷ rule (0x18 ∷ 0x20 ∷ 0x28 ∷ 0x30 ∷ 0x38 ∷ []) (Method.unary Unary.jr) Argument.opcode false
    ∷ rule (0x1F ∷ []) (Method.plain Plain.rra) Argument.absent false
    ∷ rule (0x27 ∷ []) (Method.plain Plain.daa) Argument.absent false
    ∷ rule (0x2F ∷ []) (Method.plain Plain.cpl) Argument.absent false
    ∷ rule (0x32 ∷ []) (Method.plain Plain.ld_inn_a) Argument.absent false
    ∷ rule (0x37 ∷ 0x3F ∷ []) (Method.unary Unary.scf_ccf) Argument.opcode false
    ∷ rule (0x3A ∷ []) (Method.plain Plain.ld_a_inn) Argument.absent false
    ∷ rule (plain_opcodes (0 ∷ 3 ∷ []) (range 0x40 0x80)) (Method.unary Unary.ld_r_r)
        Argument.opcode false
    ∷ rule (0x76 ∷ []) (Method.plain Plain.halt) Argument.absent false
    ∷ rule (plain_opcodes (0 ∷ []) (range 0x80 0xC0)) (Method.unary Unary.alu_r) Argument.opcode
        false
    ∷ rule (every8 0xC0) (Method.unary Unary.ret_cc) Argument.opcode false
    ∷ rule (0xC1 ∷ 0xD1 ∷ []) (Method.unary Unary.pop_rr) Argument.opcode false
    ∷ rule (every8 0xC2 ++ (0xC3 ∷ [])) (Method.unary Unary.jp) Argument.opcode false
    ∷ rule (every8 0xC4 ++ (0xCD ∷ [])) (Method.unary Unary.call) Argument.opcode false
    ∷ rule (0xC5 ∷ 0xD5 ∷ []) (Method.unary Unary.push_rr) Argument.opcode false
    ∷ rule (every8 0xC6) (Method.unary Unary.alu_n) Argument.opcode false
    ∷ rule (every8 0xC7) (Method.unary Unary.rst) Argument.opcode false
    ∷ rule (0xC9 ∷ []) (Method.plain Plain.ret) Argument.absent false
    ∷ rule (0xD3 ∷ []) (Method.plain Plain.out_n_a) Argument.absent false
    ∷ rule (0xD9 ∷ []) (Method.plain Plain.exx) Argument.absent false
    ∷ rule (0xDB ∷ []) (Method.plain Plain.in_a_n) Argument.absent false
    ∷ rule (0xEB ∷ []) (Method.plain Plain.ex_de_hl) Argument.absent false
    ∷ rule (0xF1 ∷ []) (Method.plain Plain.pop_af) Argument.absent false
    ∷ rule (0xF3 ∷ []) (Method.unary Unary.interrupt_enable) (Argument.given 0) false
    ∷ rule (0xF5 ∷ []) (Method.plain Plain.push_af) Argument.absent false
    ∷ rule (0xFB ∷ []) (Method.unary Unary.interrupt_enable) (Argument.given 1) false
    ∷ []

unfoldable pub index_cb_rules : List (Rule (Unit {0}))
index_cb_rules =
    rule (range 0x00 0x40) (Method.index_cb IndexCb.index_rot) Argument.opcode tt
    ∷ rule (range 0x40 0x80) (Method.index_cb IndexCb.index_bit) Argument.opcode tt
    ∷ rule (range 0x80 0x100) (Method.index_cb IndexCb.index_res_set) Argument.opcode tt
    ∷ []
