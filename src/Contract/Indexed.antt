-- ===== src/Contract/Indexed.antt =====
-- The handlers of src/z80_python/_index.py keep the contract.
use z80_python.Base.{
  ◌<<<◌, ◌<◌, ◌==◌, ◌>>>◌, ◌≢◌, Bool, arith, bit_or, false, if-keeps, if◌then◌else◌, inc16, true,
  u2, u3, ℕ,
}
use z80_python.Alu.{dec, inc}
use z80_python.Base.Bits.{bit_bounds}
use z80_python.Contract.{IsWf, Stepped, Total}
use z80_python.Contract.Parts.{
  Total-bind, With, add16_keep_szpv-IsWf, alu_a-IsWf, dec-With, flagged-Stepped, inc-With,
  pop_word-Total, push_word-Total, read_operand_byte-Total, read_operand_word-Total, read_pair-lt,
  store_reg, unflagged-Stepped, with_reg,
}
use z80_python.Core.{pop_word, push_word, read_operand_byte, read_operand_word}
use z80_python.Cpu.{Cpu}
use z80_python.Index.{
  get_index, index_high_byte, index_low_byte, op_add_index_rr, op_dec_index, op_ex_sp_index,
  op_inc_index, op_jp_index, op_ld_index_nn, op_ld_index_nn_from_mem, op_ld_nn_index,
  op_ld_sp_index, op_pop_index, op_push_index, set_index, set_index_high_byte, set_index_low_byte,
}
use z80_python.Index.Byte.{
  half, op_alu_index_byte, op_inc_dec_index_byte, op_ld_index_byte_index_byte, op_ld_index_byte_n,
  op_ld_index_byte_r, op_ld_r_index_byte, set_half,
}
use z80_python.Index.Memory.{index_displacement_addr}

module _ (prefix : ℕ) (s : Cpu) (w : IsWf s) where
  pub get_index-lt : get_index prefix s < 65536
  unfolding get_index
  get_index-lt = if-keeps (λ x. x < 65536) (prefix == 0xDD) w.ix-lt w.iy-lt

  pub set_index-IsWf : (v : ℕ) → IsWf (set_index prefix v s)
  unfolding set_index
  set_index-IsWf v = ground arith

  half-lt : (high : Bool) → half high prefix s < 256
  unfolding index_high_byte index_low_byte
  half-lt true = omega arith
  half-lt false = omega arith

  set_half-IsWf : (high : Bool) (v : ℕ) → IsWf (set_half high prefix v s)
  unfolding set_index_high_byte set_index_low_byte
  set_half-IsWf true v = set_index-IsWf _
  set_half-IsWf false v = set_index-IsWf _

  pub index_displacement_addr-Total : Total (With 65536) (index_displacement_addr prefix s)
  unfolding index_displacement_addr read_operand_byte
  index_displacement_addr-Total = omega arith

module _ (prefix : ℕ) (s : Cpu) (w : IsWf s) where
  pub op_add_index_rr-Total : (op : ℕ) → Total Stepped (op_add_index_rr prefix op s)
  unfolding op_add_index_rr
  op_add_index_rr-Total op =
      let index-lt = get_index-lt prefix s w in
      let value-lt =
        if-keeps (λ x. x < 65536) (u2 (op >>> 4) == 2) index-lt
          (read_pair-lt s w (u2 (op >>> 4))) in
      flagged-Stepped 15 _ (omega arith) (omega arith) (
        set_index-IsWf prefix _
          (add16_keep_szpv-IsWf (record s { wz = inc16 (get_index prefix s) }) (omega arith) _ _
            index-lt value-lt)
          _)

  pub op_ld_index_nn-Total : Total Stepped (op_ld_index_nn prefix s)
  unfolding op_ld_index_nn
  op_ld_index_nn-Total =
      Total-bind (With 65536) Stepped (read_operand_word s) _ (read_operand_word-Total s w) (λ r h.
        unflagged-Stepped 14 _ (omega arith) (omega arith) (set_index-IsWf prefix r.1 h.1 r.0))

  pub op_ld_nn_index-Total : Total Stepped (op_ld_nn_index prefix s)
  unfolding op_ld_nn_index
  op_ld_nn_index-Total =
      Total-bind (With 65536) Stepped (read_operand_word s) _ (read_operand_word-Total s w) (λ r h.
        let index-lt = get_index-lt prefix r.1 h.1 in
        (h.0, omega arith, let u = h.1 in omega arith))

  pub op_ld_index_nn_from_mem-Total : Total Stepped (op_ld_index_nn_from_mem prefix s)
  unfolding op_ld_index_nn_from_mem
  op_ld_index_nn_from_mem-Total =
      Total-bind (With 65536) Stepped (read_operand_word s) _ (read_operand_word-Total s w) (λ r h.
        (
          h.0,
          λ low p. (
            omega arith,
            λ high q. unflagged-Stepped 20 _ (omega arith) (omega arith) (
                set_index-IsWf prefix (record (r.1) { wz = inc16 r.0 }) (let u = h.1 in omega arith)
                  _),
          ),
        ))

  pub op_inc_index-Total : Total Stepped (op_inc_index prefix s)
  unfolding op_inc_index
  op_inc_index-Total =
      unflagged-Stepped 10 _ (omega arith) (omega arith) (set_index-IsWf prefix s w _)

  pub op_dec_index-Total : Total Stepped (op_dec_index prefix s)
  unfolding op_dec_index
  op_dec_index-Total =
      unflagged-Stepped 10 _ (omega arith) (omega arith) (set_index-IsWf prefix s w _)

  pub op_pop_index-Total : Total Stepped (op_pop_index prefix s)
  unfolding op_pop_index
  op_pop_index-Total = Total-bind (With 65536) Stepped (pop_word s) _ (pop_word-Total s w) (λ r h.
      unflagged-Stepped 14 _ (omega arith) (omega arith) (set_index-IsWf prefix r.1 h.1 r.0))

  pub op_push_index-Total : Total Stepped (op_push_index prefix s)
  unfolding op_push_index
  op_push_index-Total =
      Total-bind IsWf Stepped (push_word _ s) _ (push_word-Total s w _)
        (λ t u. unflagged-Stepped 15 t (omega arith) (omega arith) u)

  pub op_ex_sp_index-Total : Total Stepped (op_ex_sp_index prefix s)
  unfolding op_ex_sp_index
  op_ex_sp_index-Total =
      let index-lt = get_index-lt prefix s w in
      (
        w.sp-lt,
        λ low p. (
          omega arith,
          λ high q. (
            omega arith,
            omega arith,
            (
              w.sp-lt,
              omega arith,
              (let u = set_index-IsWf prefix s w (bit_or low (high <<< 8)) in omega bit_bounds),
            ),
          ),
        ),
      )

  pub op_jp_index-Total : Total Stepped (op_jp_index prefix s)
  unfolding op_jp_index
  op_jp_index-Total = omega (arith, get_index-lt prefix s w)

  pub op_ld_sp_index-Total : Total Stepped (op_ld_sp_index prefix s)
  unfolding op_ld_sp_index
  op_ld_sp_index-Total = omega (arith, get_index-lt prefix s w)

  pub op_ld_r_index_byte-Total :
      (op : ℕ) → u3 (op >>> 3) ≢ 6 → Total Stepped (op_ld_r_index_byte prefix op s)
  unfolding op_ld_r_index_byte
  op_ld_r_index_byte-Total op n =
      store_reg _ _ s _ w (omega arith) n
        (λ t u. unflagged-Stepped 8 t (omega arith) (omega arith) u)

  pub op_ld_index_byte_index_byte-Total :
      (op : ℕ) → Total Stepped (op_ld_index_byte_index_byte prefix op s)
  unfolding op_ld_index_byte_index_byte
  op_ld_index_byte_index_byte-Total op =
      unflagged-Stepped 8 _ (omega arith) (omega arith)
        (set_half-IsWf prefix s w (u3 (op >>> 3) == 4) (half (u3 op == 4) prefix s))

  pub op_ld_index_byte_r-Total :
      (op : ℕ) → u3 op ≢ 6 → Total Stepped (op_ld_index_byte_r prefix op s)
  unfolding op_ld_index_byte_r
  op_ld_index_byte_r-Total op n = with_reg _ s _ w (omega arith) n (λ v h.
      unflagged-Stepped 8 _ (omega arith) (omega arith)
        (set_half-IsWf prefix s w (u3 (op >>> 3) == 4) v))

  pub op_ld_index_byte_n-Total : (op : ℕ) → Total Stepped (op_ld_index_byte_n prefix op s)
  unfolding op_ld_index_byte_n
  op_ld_index_byte_n-Total op =
      Total-bind (With 256) Stepped (read_operand_byte s) _ (read_operand_byte-Total s w) (λ r h.
        unflagged-Stepped 11 _ (omega arith) (omega arith)
          (set_half-IsWf prefix r.1 h.1 (u3 (op >>> 3) == 4) r.0))

  pub op_inc_dec_index_byte-Total : (op : ℕ) → Total Stepped (op_inc_dec_index_byte prefix op s)
  unfolding op_inc_dec_index_byte
  op_inc_dec_index_byte-Total op =
      let value = half (u3 (op >>> 3) == 4) prefix s in
      let r : With 256 (if u3 op == 4 then inc value s else dec value s) =
        if-keeps (With 256) (u3 op == 4) (inc-With s w value) (dec-With s w value) in
      flagged-Stepped 8 _ (omega arith) (omega arith)
        (set_half-IsWf prefix _ r.1 (u3 (op >>> 3) == 4) _)

  pub op_alu_index_byte-Total : (op : ℕ) → Total Stepped (op_alu_index_byte prefix op s)
  unfolding op_alu_index_byte
  op_alu_index_byte-Total op =
      flagged-Stepped 8 _ (omega arith) (omega arith)
        (alu_a-IsWf s w _ _ (half-lt prefix s w (u3 op == 4)))
