-- ===== src/Dispatch/Method/Calls.antt =====
-- The call of a handler by its name. A call with the wrong number of arguments is a `TypeError`.
use z80_python.Base.{◌==◌, not, ℕ}
use z80_python.Alu.Ops.{
  op_alu_n, op_alu_r, op_cpl, op_daa, op_dec_hl, op_dec_r, op_inc_hl, op_inc_r, op_neg, op_scf_ccf,
}
use z80_python.Alu.Ops16.{op_adc_hl_rr, op_add_hl_rr, op_dec_rr, op_inc_rr, op_sbc_hl_rr}
use z80_python.Blocks.{op_cpd, op_cpdr, op_cpi, op_cpir, op_ldd, op_lddr, op_ldi, op_ldir}
use z80_python.Control.{
  op_call, op_djnz, op_jp, op_jp_hl, op_jr, op_ret, op_ret_cc, op_reti, op_retn, op_rst,
}
use z80_python.Control.Misc.{
  op_ed_nop, op_ex_af_af, op_ex_de_hl, op_ex_sp_hl, op_exx, op_halt, op_im, op_interrupt_enable,
  op_nop,
}
use z80_python.Cpu.{Cpu}
use z80_python.Dispatch.Method.{IndexCb, Plain, Unary}
use z80_python.Index.Memory.{op_index_bit, op_index_res_set, op_index_rot}
use z80_python.Io.{op_in_a_n, op_in_r_c, op_out_c_r, op_out_n_a}
use z80_python.Io.Block.{op_ind, op_indr, op_ini, op_inir, op_otdr, op_otir, op_outd, op_outi}
use z80_python.Loads.{
  op_ld_a_i, op_ld_a_inn, op_ld_a_irr, op_ld_a_r, op_ld_i_a, op_ld_inn_a, op_ld_irr_a, op_ld_r_a,
  op_ld_r_n, op_ld_r_r,
}
use z80_python.Loads.Words.{
  op_ld_hl_nn_from_mem, op_ld_nn_hl, op_ld_nn_rr, op_ld_rr_nn, op_ld_rr_nn_from_mem, op_ld_sp_hl,
  op_pop_af, op_pop_rr, op_push_af, op_push_rr,
}
use z80_python.Prog.{Prog}
use z80_python.Rotate.Ops.{
  op_bit, op_res, op_rla, op_rlca, op_rld, op_rot, op_rra, op_rrca, op_rrd, op_set,
}

unfoldable pub call_plain : Plain → Cpu → Prog (ℕ × Cpu)
call_plain Plain.nop s = op_nop s
call_plain Plain.rlca s = op_rlca s
call_plain Plain.ex_af_af s = op_ex_af_af s
call_plain Plain.rrca s = op_rrca s
call_plain Plain.djnz s = op_djnz s
call_plain Plain.rla s = op_rla s
call_plain Plain.rra s = op_rra s
call_plain Plain.ld_nn_hl s = op_ld_nn_hl s
call_plain Plain.daa s = op_daa s
call_plain Plain.ld_hl_nn_from_mem s = op_ld_hl_nn_from_mem s
call_plain Plain.cpl s = op_cpl s
call_plain Plain.ld_inn_a s = op_ld_inn_a s
call_plain Plain.inc_hl s = op_inc_hl s
call_plain Plain.dec_hl s = op_dec_hl s
call_plain Plain.ld_a_inn s = op_ld_a_inn s
call_plain Plain.halt s = op_halt s
call_plain Plain.ret s = op_ret s
call_plain Plain.out_n_a s = op_out_n_a s
call_plain Plain.exx s = op_exx s
call_plain Plain.in_a_n s = op_in_a_n s
call_plain Plain.ex_sp_hl s = op_ex_sp_hl s
call_plain Plain.jp_hl s = op_jp_hl s
call_plain Plain.ex_de_hl s = op_ex_de_hl s
call_plain Plain.pop_af s = op_pop_af s
call_plain Plain.push_af s = op_push_af s
call_plain Plain.ld_sp_hl s = op_ld_sp_hl s
call_plain Plain.neg s = op_neg s
call_plain Plain.retn s = op_retn s
call_plain Plain.reti s = op_reti s
call_plain Plain.ld_i_a s = op_ld_i_a s
call_plain Plain.ld_r_a s = op_ld_r_a s
call_plain Plain.ld_a_i s = op_ld_a_i s
call_plain Plain.ld_a_r s = op_ld_a_r s
call_plain Plain.rrd s = op_rrd s
call_plain Plain.rld s = op_rld s
call_plain Plain.ldi s = op_ldi s
call_plain Plain.cpi s = op_cpi s
call_plain Plain.ini s = op_ini s
call_plain Plain.outi s = op_outi s
call_plain Plain.ldd s = op_ldd s
call_plain Plain.cpd s = op_cpd s
call_plain Plain.ind s = op_ind s
call_plain Plain.outd s = op_outd s
call_plain Plain.ldir s = op_ldir s
call_plain Plain.cpir s = op_cpir s
call_plain Plain.inir s = op_inir s
call_plain Plain.otir s = op_otir s
call_plain Plain.lddr s = op_lddr s
call_plain Plain.cpdr s = op_cpdr s
call_plain Plain.indr s = op_indr s
call_plain Plain.otdr s = op_otdr s
call_plain Plain.ed_nop s = op_ed_nop s

-- Python's `False` and `True` are the numbers 0 and 1.
unfoldable pub call_unary : Unary → ℕ → Cpu → Prog (ℕ × Cpu)
call_unary Unary.ld_rr_nn argument s = op_ld_rr_nn argument s
call_unary Unary.ld_irr_a argument s = op_ld_irr_a argument s
call_unary Unary.inc_rr argument s = op_inc_rr argument s
call_unary Unary.inc_r argument s = op_inc_r argument s
call_unary Unary.dec_r argument s = op_dec_r argument s
call_unary Unary.ld_r_n argument s = op_ld_r_n argument s
call_unary Unary.add_hl_rr argument s = op_add_hl_rr argument s
call_unary Unary.ld_a_irr argument s = op_ld_a_irr argument s
call_unary Unary.dec_rr argument s = op_dec_rr argument s
call_unary Unary.jr argument s = op_jr argument s
call_unary Unary.scf_ccf argument s = op_scf_ccf argument s
call_unary Unary.ld_r_r argument s = op_ld_r_r argument s
call_unary Unary.alu_r argument s = op_alu_r argument s
call_unary Unary.ret_cc argument s = op_ret_cc argument s
call_unary Unary.pop_rr argument s = op_pop_rr argument s
call_unary Unary.jp argument s = op_jp argument s
call_unary Unary.call argument s = op_call argument s
call_unary Unary.push_rr argument s = op_push_rr argument s
call_unary Unary.alu_n argument s = op_alu_n argument s
call_unary Unary.rst argument s = op_rst argument s
call_unary Unary.interrupt_enable argument s = op_interrupt_enable (not (argument == 0)) s
call_unary Unary.rot argument s = op_rot argument s
call_unary Unary.bit argument s = op_bit argument s
call_unary Unary.res argument s = op_res argument s
call_unary Unary.set argument s = op_set argument s
call_unary Unary.in_r_c argument s = op_in_r_c argument s
call_unary Unary.out_c_r argument s = op_out_c_r argument s
call_unary Unary.sbc_hl_rr argument s = op_sbc_hl_rr argument s
call_unary Unary.adc_hl_rr argument s = op_adc_hl_rr argument s
call_unary Unary.ld_nn_rr argument s = op_ld_nn_rr argument s
call_unary Unary.ld_rr_nn_from_mem argument s = op_ld_rr_nn_from_mem argument s
call_unary Unary.im argument s = op_im argument s

unfoldable pub call_index_cb : IndexCb → ℕ → ℕ → ℕ → Cpu → Prog (ℕ × Cpu)
call_index_cb IndexCb.index_rot prefix displacement opcode s =
    op_index_rot prefix displacement opcode s
call_index_cb IndexCb.index_bit prefix displacement opcode s =
    op_index_bit prefix displacement opcode s
call_index_cb IndexCb.index_res_set prefix displacement opcode s =
    op_index_res_set prefix displacement opcode s
