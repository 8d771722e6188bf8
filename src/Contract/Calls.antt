-- ===== src/Contract/Calls.antt =====
-- A handler called with an argument that fits it keeps the contract.
use z80_python.Base.{
  ◌==◌, ◌>>>◌, ◌≡◌, ◌≢◌, Bool, Option, arith, false, ltb, ltb→lt, none, not, some, true, u3, ℕ,
}
use z80_python.Contract.{IsWf, Stepped, Total}
use z80_python.Contract.Arithmetic.{
  op_adc_hl_rr-Total, op_add_hl_rr-Total, op_alu_n-Total, op_alu_r-Total, op_cpl-Total,
  op_daa-Total, op_dec_hl-Total, op_dec_r-Total, op_dec_rr-Total, op_inc_hl-Total, op_inc_r-Total,
  op_inc_rr-Total, op_neg-Total, op_sbc_hl_rr-Total, op_scf_ccf-Total,
}
use z80_python.Contract.Bitwise.{
  op_bit-Total, op_res-Total, op_rla-Total, op_rlca-Total, op_rld-Total, op_rot-Total, op_rra-Total,
  op_rrca-Total, op_rrd-Total, op_set-Total,
}
use z80_python.Contract.Indexed.{
  op_add_index_rr-Total, op_alu_index_byte-Total, op_dec_index-Total, op_ex_sp_index-Total,
  op_inc_dec_index_byte-Total, op_inc_index-Total, op_jp_index-Total,
  op_ld_index_byte_index_byte-Total, op_ld_index_byte_n-Total, op_ld_index_byte_r-Total,
  op_ld_index_nn-Total, op_ld_index_nn_from_mem-Total, op_ld_nn_index-Total,
  op_ld_r_index_byte-Total, op_ld_sp_index-Total, op_pop_index-Total, op_push_index-Total,
}
use z80_python.Contract.IndexedMemory.{
  op_alu_index_mem-Total, op_dec_index_mem-Total, op_inc_index_mem-Total, op_index_bit-Total,
  op_index_res_set-Total, op_index_rot-Total, op_ld_index_mem_n-Total, op_ld_index_mem_r-Total,
  op_ld_r_index_mem-Total,
}
use z80_python.Contract.Jumps.{
  op_call-Total, op_djnz-Total, op_ed_nop-Total, op_ex_af_af-Total, op_ex_de_hl-Total,
  op_ex_sp_hl-Total, op_exx-Total, op_halt-Total, op_im-Total, op_interrupt_enable-Total,
  op_jp-Total, op_jp_hl-Total, op_jr-Total, op_nop-Total, op_ret-Total, op_ret_cc-Total,
  op_reti-Total, op_retn-Total, op_rst-Total,
}
use z80_python.Contract.Repeats.{
  op_cpd-Total, op_cpdr-Total, op_cpi-Total, op_cpir-Total, op_in_a_n-Total, op_in_r_c-Total,
  op_ind-Total, op_indr-Total, op_ini-Total, op_inir-Total, op_ldd-Total, op_lddr-Total,
  op_ldi-Total, op_ldir-Total, op_otdr-Total, op_otir-Total, op_out_c_r-Total, op_out_n_a-Total,
  op_outd-Total, op_outi-Total,
}
use z80_python.Contract.Transfer.{
  op_ld_a_i-Total, op_ld_a_inn-Total, op_ld_a_irr-Total, op_ld_a_r-Total,
  op_ld_hl_nn_from_mem-Total, op_ld_i_a-Total, op_ld_inn_a-Total, op_ld_irr_a-Total,
  op_ld_nn_hl-Total, op_ld_nn_rr-Total, op_ld_r_a-Total, op_ld_r_n-Total, op_ld_r_r-Total,
  op_ld_rr_nn-Total, op_ld_rr_nn_from_mem-Total, op_ld_sp_hl-Total, op_pop_af-Total,
  op_pop_rr-Total, op_push_af-Total, op_push_rr-Total,
}
use z80_python.Cpu.{Cpu}
use z80_python.Dispatch.Execute.{call}
use z80_python.Dispatch.Method.{IndexCb, IndexPlain, IndexUnary, Method, Plain, Unary}
use z80_python.Dispatch.Method.Calls.{call_index_cb, call_plain, call_unary}
use z80_python.Dispatch.Method.IndexCalls.{call_index_plain, call_index_unary}
use z80_python.Prog.{Prog}

-- The arguments that a handler can take: a register field that is not 6 where the handler has no
-- (HL) form, and an interrupt mode below 3.
abbrev dest_is_register : ℕ → Bool
dest_is_register op = not (u3 (op >>> 3) == 6)

abbrev src_is_register : ℕ → Bool
src_is_register op = not (u3 op == 6)

abbrev fits_unary : Unary → ℕ → Bool
fits_unary Unary.inc_r v = dest_is_register v
fits_unary Unary.dec_r v = dest_is_register v
fits_unary Unary.im v = ltb v 3
fits_unary _ v = true

abbrev fits_index_unary : IndexUnary → ℕ → Bool
fits_index_unary IndexUnary.ld_r_index_byte v = dest_is_register v
fits_index_unary IndexUnary.ld_r_index_mem v = dest_is_register v
fits_index_unary IndexUnary.ld_index_byte_r v = src_is_register v
fits_index_unary IndexUnary.ld_index_mem_r v = src_is_register v
fits_index_unary _ v = true

abbrev pub fits : Method → Option ℕ → Bool
fits (Method.plain m) none = true
fits (Method.unary m) (some v) = fits_unary m v
fits _ _ = false

abbrev pub fits_prefixed : Method → Option ℕ → Bool
fits_prefixed (Method.index_plain m) none = true
fits_prefixed (Method.index_unary m) (some v) = fits_index_unary m v
fits_prefixed _ _ = false

ne_of_test : (a b : ℕ) → not (a == b) ≡ true → a ≢ b
ne_of_test a b h = ground arith

module _ (s : Cpu) (w : IsWf s) where
  call_plain-Total : (m : Plain) → Total Stepped (call_plain m s)
  unfolding call_plain
  call_plain-Total Plain.nop = op_nop-Total s w
  call_plain-Total Plain.rlca = op_rlca-Total s w
  call_plain-Total Plain.ex_af_af = op_ex_af_af-Total s w
  call_plain-Total Plain.rrca = op_rrca-Total s w
  call_plain-Total Plain.djnz = op_djnz-Total s w
  call_plain-Total Plain.rla = op_rla-Total s w
  call_plain-Total Plain.rra = op_rra-Total s w
  call_plain-Total Plain.ld_nn_hl = op_ld_nn_hl-Total s w
  call_plain-Total Plain.daa = op_daa-Total s w
  call_plain-Total Plain.ld_hl_nn_from_mem = op_ld_hl_nn_from_mem-Total s w
  call_plain-Total Plain.cpl = op_cpl-Total s w
  call_plain-Total Plain.ld_inn_a = op_ld_inn_a-Total s w
  call_plain-Total Plain.inc_hl = op_inc_hl-Total s w
  call_plain-Total Plain.dec_hl = op_dec_hl-Total s w
  call_plain-Total Plain.ld_a_inn = op_ld_a_inn-Total s w
  call_plain-Total Plain.halt = op_halt-Total s w
  call_plain-Total Plain.ret = op_ret-Total s w
  call_plain-Total Plain.out_n_a = op_out_n_a-Total s w
  call_plain-Total Plain.exx = op_exx-Total s w
  call_plain-Total Plain.in_a_n = op_in_a_n-Total s w
  call_plain-Total Plain.ex_sp_hl = op_ex_sp_hl-Total s w
  call_plain-Total Plain.jp_hl = op_jp_hl-Total s w
  call_plain-Total Plain.ex_de_hl = op_ex_de_hl-Total s w
  call_plain-Total Plain.pop_af = op_pop_af-Total s w
  call_plain-Total Plain.push_af = op_push_af-Total s w
  call_plain-Total Plain.ld_sp_hl = op_ld_sp_hl-Total s w
  call_plain-Total Plain.neg = op_neg-Total s w
  call_plain-Total Plain.retn = op_retn-Total s w
  call_plain-Total Plain.reti = op_reti-Total s w
  call_plain-Total Plain.ld_i_a = op_ld_i_a-Total s w
  call_plain-Total Plain.ld_r_a = op_ld_r_a-Total s w
  call_plain-Total Plain.ld_a_i = op_ld_a_i-Total s w
  call_plain-Total Plain.ld_a_r = op_ld_a_r-Total s w
  call_plain-Total Plain.rrd = op_rrd-Total s w
  call_plain-Total Plain.rld = op_rld-Total s w
  call_plain-Total Plain.ldi = op_ldi-Total s w
  call_plain-Total Plain.cpi = op_cpi-Total s w
  call_plain-Total Plain.ini = op_ini-Total s w
  call_plain-Total Plain.outi = op_outi-Total s w
  call_plain-Total Plain.ldd = op_ldd-Total s w
  call_plain-Total Plain.cpd = op_cpd-Total s w
  call_plain-Total Plain.ind = op_ind-Total s w
  call_plain-Total Plain.outd = op_outd-Total s w
  call_plain-Total Plain.ldir = op_ldir-Total s w
  call_plain-Total Plain.cpir = op_cpir-Total s w
  call_plain-Total Plain.inir = op_inir-Total s w
  call_plain-Total Plain.otir = op_otir-Total s w
  call_plain-Total Plain.lddr = op_lddr-Total s w
  call_plain-Total Plain.cpdr = op_cpdr-Total s w
  call_plain-Total Plain.indr = op_indr-Total s w
  call_plain-Total Plain.otdr = op_otdr-Total s w
  call_plain-Total Plain.ed_nop = op_ed_nop-Total s w

  call_unary-Total : (m : Unary) (v : ℕ) → fits_unary m v ≡ true → Total Stepped (call_unary m v s)
  unfolding call_unary
  call_unary-Total Unary.ld_rr_nn v h = op_ld_rr_nn-Total s w v
  call_unary-Total Unary.ld_irr_a v h = op_ld_irr_a-Total s w v
  call_unary-Total Unary.inc_rr v h = op_inc_rr-Total s w v
  call_unary-Total Unary.inc_r v h = op_inc_r-Total s w v (ne_of_test _ _ h)
  call_unary-Total Unary.dec_r v h = op_dec_r-Total s w v (ne_of_test _ _ h)
  call_unary-Total Unary.ld_r_n v h = op_ld_r_n-Total s w v
  call_unary-Total Unary.add_hl_rr v h = op_add_hl_rr-Total s w v
  call_unary-Total Unary.ld_a_irr v h = op_ld_a_irr-Total s w v
  call_unary-Total Unary.dec_rr v h = op_dec_rr-Total s w v
  call_unary-Total Unary.jr v h = op_jr-Total s w v
  call_unary-Total Unary.scf_ccf v h = op_scf_ccf-Total s w v
  call_unary-Total Unary.ld_r_r v h = op_ld_r_r-Total s w v
  call_unary-Total Unary.alu_r v h = op_alu_r-Total s w v
  call_unary-Total Unary.ret_cc v h = op_ret_cc-Total s w v
  call_unary-Total Unary.pop_rr v h = op_pop_rr-Total s w v
  call_unary-Total Unary.jp v h = op_jp-Total s w v
  call_unary-Total Unary.call v h = op_call-Total s w v
  call_unary-Total Unary.push_rr v h = op_push_rr-Total s w v
  call_unary-Total Unary.alu_n v h = op_alu_n-Total s w v
  call_unary-Total Unary.rst v h = op_rst-Total s w v
  call_unary-Total Unary.interrupt_enable v h = op_interrupt_enable-Total s w (not (v == 0))
  call_unary-Total Unary.rot v h = op_rot-Total s w v
  call_unary-Total Unary.bit v h = op_bit-Total s w v
  call_unary-Total Unary.res v h = op_res-Total s w v
  call_unary-Total Unary.set v h = op_set-Total s w v
  call_unary-Total Unary.in_r_c v h = op_in_r_c-Total s w v
  call_unary-Total Unary.out_c_r v h = op_out_c_r-Total s w v
  call_unary-Total Unary.sbc_hl_rr v h = op_sbc_hl_rr-Total s w v
  call_unary-Total Unary.adc_hl_rr v h = op_adc_hl_rr-Total s w v
  call_unary-Total Unary.ld_nn_rr v h = op_ld_nn_rr-Total s w v
  call_unary-Total Unary.ld_rr_nn_from_mem v h = op_ld_rr_nn_from_mem-Total s w v
  call_unary-Total Unary.im v h = op_im-Total s w v (ltb→lt _ _ h)

  pub call-Total : (m : Method) (a : Option ℕ) → fits m a ≡ true → Total Stepped (call m a s)
  unfolding call
  call-Total (Method.plain m) none h = call_plain-Total m
  call-Total (Method.plain m) (some v) h = cc
  call-Total (Method.unary m) none h = cc
  call-Total (Method.unary m) (some v) h = call_unary-Total m v h
  call-Total (Method.index_plain m) a h = cc
  call-Total (Method.index_unary m) a h = cc
  call-Total (Method.index_cb m) a h = cc
  call-Total Method.execute_cb a h = cc
  call-Total Method.execute_ed a h = cc
  call-Total Method.execute_index a h = cc

module _ (prefix : ℕ) (s : Cpu) (w : IsWf s) where
  pub call_index_cb-Total : (m : IndexCb) (d op : ℕ) → Total Stepped (call_index_cb m prefix d op s)
  unfolding call_index_cb
  call_index_cb-Total IndexCb.index_rot d op = op_index_rot-Total prefix s w d op
  call_index_cb-Total IndexCb.index_bit d op = op_index_bit-Total prefix s w d op
  call_index_cb-Total IndexCb.index_res_set d op = op_index_res_set-Total prefix s w d op

  pub call_index_unary-Total :
      (m : IndexUnary) (v : ℕ)
      → fits_index_unary m v ≡ true
      → Total Stepped (call_index_unary m prefix v s)
  unfolding call_index_unary
  call_index_unary-Total IndexUnary.add_index_rr v h = op_add_index_rr-Total prefix s w v
  call_index_unary-Total IndexUnary.inc_dec_index_byte v h =
      op_inc_dec_index_byte-Total prefix s w v
  call_index_unary-Total IndexUnary.ld_index_byte_n v h = op_ld_index_byte_n-Total prefix s w v
  call_index_unary-Total IndexUnary.ld_r_index_byte v h =
      op_ld_r_index_byte-Total prefix s w v (ne_of_test _ _ h)
  call_index_unary-Total IndexUnary.ld_r_index_mem v h =
      op_ld_r_index_mem-Total prefix s w v (ne_of_test _ _ h)
  call_index_unary-Total IndexUnary.ld_index_byte_r v h =
      op_ld_index_byte_r-Total prefix s w v (ne_of_test _ _ h)
  call_index_unary-Total IndexUnary.ld_index_byte_index_byte v h =
      op_ld_index_byte_index_byte-Total prefix s w v
  call_index_unary-Total IndexUnary.ld_index_mem_r v h =
      op_ld_index_mem_r-Total prefix s w v (ne_of_test _ _ h)
  call_index_unary-Total IndexUnary.alu_index_byte v h = op_alu_index_byte-Total prefix s w v
  call_index_unary-Total IndexUnary.alu_index_mem v h = op_alu_index_mem-Total prefix s w v

  pub call_index_plain-Total :
      (run_index_cb : ℕ → Cpu → Prog (ℕ × Cpu))
      → Total Stepped (run_index_cb prefix s)
      → (m : IndexPlain) → Total Stepped (call_index_plain run_index_cb m prefix s)
  unfolding call_index_plain
  call_index_plain-Total f k IndexPlain.ld_index_nn = op_ld_index_nn-Total prefix s w
  call_index_plain-Total f k IndexPlain.ld_nn_index = op_ld_nn_index-Total prefix s w
  call_index_plain-Total f k IndexPlain.inc_index = op_inc_index-Total prefix s w
  call_index_plain-Total f k IndexPlain.ld_index_nn_from_mem =
      op_ld_index_nn_from_mem-Total prefix s w
  call_index_plain-Total f k IndexPlain.dec_index = op_dec_index-Total prefix s w
  call_index_plain-Total f k IndexPlain.inc_index_mem = op_inc_index_mem-Total prefix s w
  call_index_plain-Total f k IndexPlain.dec_index_mem = op_dec_index_mem-Total prefix s w
  call_index_plain-Total f k IndexPlain.ld_index_mem_n = op_ld_index_mem_n-Total prefix s w
  call_index_plain-Total f k IndexPlain.execute_index_cb = k
  call_index_plain-Total f k IndexPlain.pop_index = op_pop_index-Total prefix s w
  call_index_plain-Total f k IndexPlain.ex_sp_index = op_ex_sp_index-Total prefix s w
  call_index_plain-Total f k IndexPlain.push_index = op_push_index-Total prefix s w
  call_index_plain-Total f k IndexPlain.jp_index = op_jp_index-Total prefix s w
  call_index_plain-Total f k IndexPlain.ld_sp_index = op_ld_sp_index-Total prefix s w
