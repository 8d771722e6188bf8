-- ===== src/Contract/Transfer.antt =====
-- The handlers of src/z80_python/_loads.py keep the contract.
use z80_python.Base.{◌<◌, ◌==◌, ◌>>>◌, ◌≤◌, arith, if-cases, if-keeps, if◌then◌else◌, inc16, u3, ℕ}
use z80_python.Base.Bits.{bit_bounds}
use z80_python.Contract.{IsWf, Stepped, Total}
use z80_python.Contract.Numbers.{flag_bounds}
use z80_python.Contract.Parts.{
  Total-bind, With, bc-lt, de-lt, hl-lt, pop_word-Total, push_word-Total, read_operand_byte-Total,
  read_operand_word-Total, read_pair-lt, read_reg-Total, store_reg, unflagged-Stepped,
  write_pair-IsWf,
}
use z80_python.Core.{
  hl, pop_word, push_word, read_operand_byte, read_operand_word, unflagged, write_reg,
}
use z80_python.Cpu.{Cpu}
use z80_python.Loads.{
  latch_a, ld_a_flags, op_ld_a_i, op_ld_a_inn, op_ld_a_irr, op_ld_a_r, op_ld_i_a, op_ld_inn_a,
  op_ld_irr_a, op_ld_r_a, op_ld_r_n, op_ld_r_r,
}
use z80_python.Loads.Words.{
  op_ld_hl_nn_from_mem, op_ld_nn_hl, op_ld_nn_rr, op_ld_rr_nn, op_ld_rr_nn_from_mem, op_ld_sp_hl,
  op_pop_af, op_pop_rr, op_push_af, op_push_rr,
}
use z80_python.Prog.{◌>>=◌, write_byte}

module _ (s : Cpu) (w : IsWf s) where
  -- The destination of a load.
  store :
      (dest v t_memory t_register : ℕ)
      → v < 256
      → dest < 8
      → 0 < t_memory
      → t_memory ≤ 23
      → 0 < t_register
      → t_register ≤ 23
      → Total Stepped (
          if dest == 6
          then write_byte (hl s) v (unflagged t_memory s)
          else (write_reg dest v s >>= unflagged t_register))
  store dest v t_memory t_register h n p q p' q' =
      if-cases (Total Stepped) (dest == 6) (λ e. (hl-lt s w, h, unflagged-Stepped t_memory s p q w))
        (λ e.
          store_reg dest v s _ w n (ground arith) (λ t u. unflagged-Stepped t_register t p' q' u))

  pub op_ld_r_r-Total : (opcode : ℕ) → Total Stepped (op_ld_r_r opcode s)
  unfolding op_ld_r_r
  op_ld_r_r-Total opcode =
      Total-bind (λ v. v < 256) Stepped _ _
        (if-cases (Total (λ v. v < 256)) (u3 opcode == 6) (λ e. (hl-lt s w, λ v h. h))
          (λ e. read_reg-Total s w (u3 opcode) (omega arith) (ground arith)))
        (λ v h.
          store (u3 (opcode >>> 3)) v 7 (if u3 opcode == 6 then 7 else 4) h (omega arith)
            (omega arith) (omega arith) (ground arith) (ground arith))

  pub op_ld_a_irr-Total : (opcode : ℕ) → Total Stepped (op_ld_a_irr opcode s)
  unfolding op_ld_a_irr
  op_ld_a_irr-Total opcode =
      (if-keeps (λ x. x < 65536) (opcode == 0x0A) (bc-lt s w) (de-lt s w), λ v h. omega arith)

  pub latch_a-lt : (a wz : ℕ) → latch_a a wz < 65536
  unfolding latch_a
  latch_a-lt a wz = omega arith

  pub op_ld_irr_a-Total : (opcode : ℕ) → Total Stepped (op_ld_irr_a opcode s)
  unfolding op_ld_irr_a
  op_ld_irr_a-Total opcode = (
    if-keeps (λ x. x < 65536) (opcode == 0x02) (bc-lt s w) (de-lt s w),
    w.a-lt,
    omega (arith, latch_a-lt),
  )

  pub op_ld_a_inn-Total : Total Stepped (op_ld_a_inn s)
  unfolding op_ld_a_inn read_operand_word read_operand_byte
  op_ld_a_inn-Total = omega bit_bounds

  pub op_ld_inn_a-Total : Total Stepped (op_ld_inn_a s)
  unfolding op_ld_inn_a read_operand_word read_operand_byte
  op_ld_inn_a-Total = omega (bit_bounds, latch_a-lt)

  pub op_ld_i_a-Total : Total Stepped (op_ld_i_a s)
  unfolding op_ld_i_a
  op_ld_i_a-Total = omega arith

  pub op_ld_r_a-Total : Total Stepped (op_ld_r_a s)
  unfolding op_ld_r_a
  op_ld_r_a-Total = omega arith

  pub op_ld_a_i-Total : Total Stepped (op_ld_a_i s)
  unfolding op_ld_a_i ld_a_flags
  op_ld_a_i-Total = omega flag_bounds

  pub op_ld_a_r-Total : Total Stepped (op_ld_a_r s)
  unfolding op_ld_a_r ld_a_flags
  op_ld_a_r-Total = omega flag_bounds

  pub op_ld_nn_hl-Total : Total Stepped (op_ld_nn_hl s)
  unfolding op_ld_nn_hl read_operand_word read_operand_byte
  op_ld_nn_hl-Total = omega bit_bounds

  pub op_ld_hl_nn_from_mem-Total : Total Stepped (op_ld_hl_nn_from_mem s)
  unfolding op_ld_hl_nn_from_mem read_operand_word read_operand_byte
  op_ld_hl_nn_from_mem-Total = omega bit_bounds

  pub op_ld_nn_rr-Total : (pair : ℕ) → Total Stepped (op_ld_nn_rr pair s)
  unfolding op_ld_nn_rr
  op_ld_nn_rr-Total pair =
      Total-bind (With 65536) Stepped (read_operand_word s) _ (read_operand_word-Total s w) (λ r h.
        let value-lt = read_pair-lt r.1 h.1 pair in (h.0, omega arith, let u = h.1 in omega arith))

  pub op_ld_rr_nn_from_mem-Total : (pair : ℕ) → Total Stepped (op_ld_rr_nn_from_mem pair s)
  unfolding op_ld_rr_nn_from_mem
  op_ld_rr_nn_from_mem-Total pair =
      Total-bind (With 65536) Stepped (read_operand_word s) _ (read_operand_word-Total s w) (λ r h.
        (
          h.0,
          λ low p. (
            omega arith,
            λ high q. unflagged-Stepped 20 _ (omega arith) (omega arith) (
                write_pair-IsWf (record (r.1) { wz = inc16 r.0 }) (let u = h.1 in omega arith) pair
                  _),
          ),
        ))

  pub op_ld_sp_hl-Total : Total Stepped (op_ld_sp_hl s)
  unfolding op_ld_sp_hl
  op_ld_sp_hl-Total = omega (arith, hl-lt s w)

  pub op_pop_rr-Total : (op : ℕ) → Total Stepped (op_pop_rr op s)
  unfolding op_pop_rr
  op_pop_rr-Total op =
      Total-bind (With 65536) Stepped (pop_word s) _ (pop_word-Total s w)
        (λ r h. unflagged-Stepped 10 _ (omega arith) (omega arith) (write_pair-IsWf r.1 h.1 _ r.0))

  pub op_push_rr-Total : (op : ℕ) → Total Stepped (op_push_rr op s)
  unfolding op_push_rr
  op_push_rr-Total op =
      Total-bind IsWf Stepped (push_word _ s) _ (push_word-Total s w _)
        (λ t u. unflagged-Stepped 11 t (omega arith) (omega arith) u)

  pub op_pop_af-Total : Total Stepped (op_pop_af s)
  unfolding op_pop_af pop_word
  op_pop_af-Total = omega bit_bounds

  pub op_push_af-Total : Total Stepped (op_push_af s)
  unfolding op_push_af push_word
  op_push_af-Total = omega arith

  pub op_ld_rr_nn-Total : (opcode : ℕ) → Total Stepped (op_ld_rr_nn opcode s)
  unfolding op_ld_rr_nn
  op_ld_rr_nn-Total opcode =
      Total-bind (With 65536) Stepped (read_operand_word s) _ (read_operand_word-Total s w)
        (λ r h. unflagged-Stepped 10 _ (omega arith) (omega arith) (write_pair-IsWf r.1 h.1 _ r.0))

module _ (s : Cpu) (w : IsWf s) where
  pub op_ld_r_n-Total : (opcode : ℕ) → Total Stepped (op_ld_r_n opcode s)
  unfolding op_ld_r_n
  op_ld_r_n-Total opcode =
      Total-bind (With 256) Stepped (read_operand_byte s) _ (read_operand_byte-Total s w) (λ r h.
        store r.1 h.1 (u3 (opcode >>> 3)) r.0 10 7 h.0 (omega arith) (omega arith) (omega arith)
          (omega arith) (omega arith))
