-- ===== src/Dispatch/Method/IndexCalls.antt =====
-- The call of a handler with an IX or IY operand, by its name; `run_index_cb` is
-- `_execute_index_cb`, which reads a further table.
use z80_python.Base.{ℕ}
use z80_python.Cpu.{Cpu}
use z80_python.Dispatch.Method.{IndexPlain, IndexUnary}
use z80_python.Index.{
  op_add_index_rr, op_dec_index, op_ex_sp_index, op_inc_index, op_jp_index, op_ld_index_nn,
  op_ld_index_nn_from_mem, op_ld_nn_index, op_ld_sp_index, op_pop_index, op_push_index,
}
use z80_python.Index.Byte.{
  op_alu_index_byte, op_inc_dec_index_byte, op_ld_index_byte_index_byte, op_ld_index_byte_n,
  op_ld_index_byte_r, op_ld_r_index_byte,
}
use z80_python.Index.Memory.{
  op_alu_index_mem, op_dec_index_mem, op_inc_index_mem, op_ld_index_mem_n, op_ld_index_mem_r,
  op_ld_r_index_mem,
}
use z80_python.Prog.{Prog}

module _ (run_index_cb : ℕ → Cpu → Prog (ℕ × Cpu)) where
  unfoldable pub call_index_plain : IndexPlain → ℕ → Cpu → Prog (ℕ × Cpu)
  call_index_plain IndexPlain.ld_index_nn prefix s = op_ld_index_nn prefix s
  call_index_plain IndexPlain.ld_nn_index prefix s = op_ld_nn_index prefix s
  call_index_plain IndexPlain.inc_index prefix s = op_inc_index prefix s
  call_index_plain IndexPlain.ld_index_nn_from_mem prefix s = op_ld_index_nn_from_mem prefix s
  call_index_plain IndexPlain.dec_index prefix s = op_dec_index prefix s
  call_index_plain IndexPlain.inc_index_mem prefix s = op_inc_index_mem prefix s
  call_index_plain IndexPlain.dec_index_mem prefix s = op_dec_index_mem prefix s
  call_index_plain IndexPlain.ld_index_mem_n prefix s = op_ld_index_mem_n prefix s
  call_index_plain IndexPlain.execute_index_cb prefix s = run_index_cb prefix s
  call_index_plain IndexPlain.pop_index prefix s = op_pop_index prefix s
  call_index_plain IndexPlain.ex_sp_index prefix s = op_ex_sp_index prefix s
  call_index_plain IndexPlain.push_index prefix s = op_push_index prefix s
  call_index_plain IndexPlain.jp_index prefix s = op_jp_index prefix s
  call_index_plain IndexPlain.ld_sp_index prefix s = op_ld_sp_index prefix s

unfoldable pub call_index_unary : IndexUnary → ℕ → ℕ → Cpu → Prog (ℕ × Cpu)
call_index_unary IndexUnary.add_index_rr prefix argument s = op_add_index_rr prefix argument s
call_index_unary IndexUnary.inc_dec_index_byte prefix argument s =
    op_inc_dec_index_byte prefix argument s
call_index_unary IndexUnary.ld_index_byte_n prefix argument s = op_ld_index_byte_n prefix argument s
call_index_unary IndexUnary.ld_r_index_byte prefix argument s = op_ld_r_index_byte prefix argument s
call_index_unary IndexUnary.ld_r_index_mem prefix argument s = op_ld_r_index_mem prefix argument s
call_index_unary IndexUnary.ld_index_byte_r prefix argument s = op_ld_index_byte_r prefix argument s
call_index_unary IndexUnary.ld_index_byte_index_byte prefix argument s =
    op_ld_index_byte_index_byte prefix argument s
call_index_unary IndexUnary.ld_index_mem_r prefix argument s = op_ld_index_mem_r prefix argument s
call_index_unary IndexUnary.alu_index_byte prefix argument s = op_alu_index_byte prefix argument s
call_index_unary IndexUnary.alu_index_mem prefix argument s = op_alu_index_mem prefix argument s
