-- ===== src/Dispatch/Method.antt =====
-- The handlers that the tables of src/z80_python/_dispatch.py and _index_dispatch.py name, by the
-- arguments that each takes: `rlca` stands for `_op_rlca`, and so on.
pub mod Calls
pub mod IndexCalls

-- `handler(self)` and `handler(self, argument)`.
pub data Plain : Type 0 where
  nop rlca ex_af_af rrca djnz rla rra ld_nn_hl daa ld_hl_nn_from_mem cpl ld_inn_a : Plain
  inc_hl dec_hl ld_a_inn halt ret out_n_a exx in_a_n ex_sp_hl jp_hl ex_de_hl pop_af : Plain
  push_af ld_sp_hl neg retn reti ld_i_a ld_r_a ld_a_i ld_a_r rrd rld ldi cpi ini outi : Plain
  ldd cpd ind outd ldir cpir inir otir lddr cpdr indr otdr ed_nop : Plain

pub data Unary : Type 0 where
  ld_rr_nn ld_irr_a inc_rr inc_r dec_r ld_r_n add_hl_rr ld_a_irr dec_rr jr scf_ccf : Unary
  ld_r_r alu_r ret_cc pop_rr jp call push_rr alu_n rst interrupt_enable rot bit res : Unary
  set in_r_c out_c_r sbc_hl_rr adc_hl_rr ld_nn_rr ld_rr_nn_from_mem im : Unary

-- Handlers that name an IX or IY operand: `handler(self, prefix)`, `handler(self, prefix, argument)`.
pub data IndexPlain : Type 0 where
  ld_index_nn ld_nn_index inc_index ld_index_nn_from_mem dec_index inc_index_mem : IndexPlain
  dec_index_mem ld_index_mem_n execute_index_cb pop_index ex_sp_index push_index : IndexPlain
  jp_index ld_sp_index : IndexPlain

pub data IndexUnary : Type 0 where
  add_index_rr inc_dec_index_byte ld_index_byte_n ld_r_index_byte ld_r_index_mem : IndexUnary
  ld_index_byte_r ld_index_byte_index_byte ld_index_mem_r alu_index_byte : IndexUnary
  alu_index_mem : IndexUnary

-- Handlers of the DD CB and FD CB page: `handler(self, prefix, displacement, opcode)`.
pub data IndexCb : Type 0 where
  index_rot index_bit index_res_set : IndexCb

-- What `getattr(cls, name)` finds.
pub data Method : Type 0 where
  plain : Plain → Method
  unary : Unary → Method
  index_plain : IndexPlain → Method
  index_unary : IndexUnary → Method
  index_cb : IndexCb → Method
  execute_cb execute_ed execute_index : Method
