-- ===== src/Contract/IndexedMemory.antt =====
-- The handlers on (IX+d) and (IY+d) (src/z80_python/_index.py) keep the contract.
use z80_python.Base.{◌<◌, ◌==◌, ◌>>>◌, ◌≢◌, arith, bit_and, if-cases, if-keeps, u3, ℕ}
use z80_python.Base.Bits.{or-lt_byte}
use z80_python.Contract.{IsWf, Stepped, Total}
use z80_python.Contract.Bitwise.{shifted-lt}
use z80_python.Contract.Indexed.{index_displacement_addr-Total}
use z80_python.Contract.Numbers.{and_not-lt, bit_flags-lt}
use z80_python.Contract.Parts.{
  Total-bind, With, alu_a-IsWf, dec-With, flagged-Stepped, inc-With, read_operand_byte-Total,
  rot_apply-With, store_reg, unflagged-Stepped, with_reg, write_reg-Total,
}
use z80_python.Core.{read_operand_byte}
use z80_python.Cpu.{Cpu}
use z80_python.Index.Memory.{
  copy_to, index_displacement_addr, indexed, op_alu_index_mem, op_dec_index_mem, op_inc_index_mem,
  op_index_bit, op_index_res_set, op_index_rot, op_ld_index_mem_n, op_ld_index_mem_r,
  op_ld_r_index_mem,
}
use z80_python.Prog.{◌>>=◌, Prog}

module _ (prefix : ℕ) (s : Cpu) (w : IsWf s) where
  -- A handler that first computes its address.
  at_address :
      (f : ℕ × Cpu → Prog (ℕ × Cpu))
      → ((r : ℕ × Cpu) → With 65536 r → Total Stepped (f r))
      → Total Stepped (index_displacement_addr prefix s >>= f)
  at_address f k =
      Total-bind (With 65536) Stepped (index_displacement_addr prefix s) f
        (index_displacement_addr-Total prefix s w) k

  pub op_alu_index_mem-Total : (op : ℕ) → Total Stepped (op_alu_index_mem prefix op s)
  unfolding op_alu_index_mem
  op_alu_index_mem-Total op = at_address _ (λ r h.
      (h.0, λ v p. flagged-Stepped 19 _ (omega arith) (omega arith) (alu_a-IsWf r.1 h.1 _ v p)))

  pub op_inc_index_mem-Total : Total Stepped (op_inc_index_mem prefix s)
  unfolding op_inc_index_mem
  op_inc_index_mem-Total = at_address _ (λ r h. (
    h.0,
    λ v p. (
      h.0,
      (inc-With r.1 h.1 v).0,
      flagged-Stepped 23 _ (omega arith) (omega arith) (inc-With r.1 h.1 v).1,
    ),
  ))

  pub op_dec_index_mem-Total : Total Stepped (op_dec_index_mem prefix s)
  unfolding op_dec_index_mem
  op_dec_index_mem-Total = at_address _ (λ r h. (
    h.0,
    λ v p. (
      h.0,
      (dec-With r.1 h.1 v).0,
      flagged-Stepped 23 _ (omega arith) (omega arith) (dec-With r.1 h.1 v).1,
    ),
  ))

  pub op_ld_r_index_mem-Total :
      (op : ℕ) → u3 (op >>> 3) ≢ 6 → Total Stepped (op_ld_r_index_mem prefix op s)
  unfolding op_ld_r_index_mem
  op_ld_r_index_mem-Total op n = at_address _ (λ r h. (
    h.0,
    λ v p.
        store_reg _ v r.1 _ h.1 (omega arith) n
          (λ t u. unflagged-Stepped 19 t (omega arith) (omega arith) u),
  ))

  pub op_ld_index_mem_r-Total : (op : ℕ) → u3 op ≢ 6 → Total Stepped (op_ld_index_mem_r prefix op s)
  unfolding op_ld_index_mem_r
  op_ld_index_mem_r-Total op n = at_address _ (λ r h.
      with_reg _ r.1 _ h.1 (omega arith) n
        (λ v p. (h.0, p, unflagged-Stepped 19 r.1 (omega arith) (omega arith) h.1)))

  pub op_ld_index_mem_n-Total : Total Stepped (op_ld_index_mem_n prefix s)
  unfolding op_ld_index_mem_n
  op_ld_index_mem_n-Total = at_address _ (λ r h.
      Total-bind (With 256) Stepped (read_operand_byte r.1) _ (read_operand_byte-Total r.1 h.1)
        (λ r' h'. (h.0, h'.0, unflagged-Stepped 19 r'.1 (omega arith) (omega arith) h'.1)))

  indexed-IsWf : (d : ℕ) → IsWf (indexed prefix d s)
  indexed-IsWf d = omega arith

  pub op_index_bit-Total : (d op : ℕ) → Total Stepped (op_index_bit prefix d op s)
  unfolding op_index_bit
  op_index_bit-Total d op =
      let u = indexed-IsWf d in
      (
        u.wz-lt,
        λ v h.
            omega
              (arith, bit_flags-lt s.f v (u3 (op >>> 3)) ((indexed prefix d s).wz >>> 8) w.f-lt h),
      )

-- The undocumented copy of a result into a register.
copy_to-Total : (dest v : ℕ) (s : Cpu) → IsWf s → dest < 8 → Total IsWf (copy_to dest v s)
copy_to-Total dest v s w n =
    if-cases (Total IsWf) (dest == 6) (λ e. w) (λ e. write_reg-Total s w dest v n (ground arith))

module _ (prefix : ℕ) (s : Cpu) (w : IsWf s) where
  pub op_index_rot-Total : (d op : ℕ) → Total Stepped (op_index_rot prefix d op s)
  unfolding op_index_rot
  op_index_rot-Total d op =
      let u = indexed-IsWf prefix s w d in
      (
        u.wz-lt,
        λ v h.
            let r = rot_apply-With (indexed prefix d s) u (u3 (op >>> 3)) v h in
            (
              r.1.wz-lt,
              r.0,
              Total-bind IsWf Stepped (copy_to (u3 op) _ _) _
                  (copy_to-Total (u3 op) _ _ r.1 (omega arith))
                  (λ x y. flagged-Stepped 23 x (omega arith) (omega arith) y),
            ),
      )

  pub op_index_res_set-Total : (d op : ℕ) → Total Stepped (op_index_res_set prefix d op s)
  unfolding op_index_res_set
  op_index_res_set-Total d op =
      let u = indexed-IsWf prefix s w d in
      (
        u.wz-lt,
        λ v h.
            let bound =
              if-keeps (λ x. x < 256) (bit_and op 0x40 == 0) (and_not-lt v _ h)
                (or-lt_byte v _ h (shifted-lt (op >>> 3))) in
            (
              u.wz-lt,
              bound,
              Total-bind IsWf Stepped (copy_to (u3 op) _ _) _
                  (copy_to-Total (u3 op) _ _ u (omega arith))
                  (λ x y. unflagged-Stepped 23 x (omega arith) (omega arith) y),
            ),
      )
