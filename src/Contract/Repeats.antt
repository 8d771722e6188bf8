-- ===== src/Contract/Repeats.antt =====
-- The handlers of src/z80_python/_io.py and src/z80_python/_blocks.py keep the contract.
use z80_python.Base.{
  ◌<◌, ◌==◌, ◌>>>◌, ◌≤◌, Bool, arith, bit_and, bit_or, false, if-cases, if-keeps, inc16, true, u3,
  ℕ,
}
use z80_python.Base.Bits.{bit_bounds}
use z80_python.Blocks.{
  block_cp, block_ld, block_repeat, once, op_cpd, op_cpdr, op_cpi, op_cpir, op_ldd, op_lddr, op_ldi,
  op_ldir, rewind,
}
use z80_python.Contract.{IsWf, Stepped, Total}
use z80_python.Contract.Numbers.{
  and_not-lt, block_cp_flags-lt, block_io_flags-lt, block_ld_flags-lt, byte_bounds, flag_bounds,
  helper_bounds, if-lt_byte, post_flags-lt,
}
use z80_python.Contract.Parts.{
  Total-bind, bc-lt, de-lt, flagged-Stepped, hl-lt, read_reg-Total, write_reg-Total,
}
use z80_python.Core.{bc, read_operand_byte}
use z80_python.Cpu.{Cpu}
use z80_python.Flags.{flag_c, szxyp}
use z80_python.Io.{op_in_a_n, op_in_r_c, op_out_c_r, op_out_n_a}
use z80_python.Io.Block.{
  block_ini, block_outi, op_ind, op_indr, op_ini, op_inir, op_otdr, op_otir, op_outd, op_outi,
  post_in_o_r, rewind_io,
}
use z80_python.Prog.{Prog}

-- A round of a block instruction.
abbrev Round : Bool × Cpu → Type 0
Round r = IsWf r.1

module _ (s : Cpu) (w : IsWf s) where
  pub op_in_a_n-Total : Total Stepped (op_in_a_n s)
  unfolding op_in_a_n read_operand_byte
  op_in_a_n-Total = omega bit_bounds

  pub op_out_n_a-Total : Total Stepped (op_out_n_a s)
  unfolding op_out_n_a read_operand_byte
  op_out_n_a-Total = omega bit_bounds

  pub op_in_r_c-Total : (opcode : ℕ) → Total Stepped (op_in_r_c opcode s)
  unfolding op_in_r_c
  op_in_r_c-Total opcode =
      let t = record s { wz = inc16 (bc s) } in
      let u : IsWf t = omega arith in
      (
        bc-lt t u,
        λ v h.
            let t' = record t { f = bit_or (bit_and s.f flag_c) (szxyp v) } in
            let u' : IsWf t' = omega flag_bounds in
            Total-bind IsWf Stepped _ _
              (if-cases (Total IsWf) (u3 (opcode >>> 3) == 6) (λ e. u')
                (λ e. write_reg-Total t' u' (u3 (opcode >>> 3)) v (omega arith) (ground arith)))
              (λ x y. flagged-Stepped 12 x (omega arith) (omega arith) y),
      )

  pub op_out_c_r-Total : (opcode : ℕ) → Total Stepped (op_out_c_r opcode s)
  unfolding op_out_c_r
  op_out_c_r-Total opcode =
      Total-bind (λ v. v < 256) Stepped _ _
        (if-cases (Total (λ v. v < 256)) (u3 (opcode >>> 3) == 6)
          (λ e. if-lt_byte s.cmos_out_c_zero 0xFF 0 (omega arith) (omega arith))
          (λ e. read_reg-Total s w (u3 (opcode >>> 3)) (omega arith) (ground arith)))
        (λ v h. (bc-lt s w, h, omega arith))

  pub block_ld-Total : (increment : Bool) → Total Round (block_ld increment s)
  unfolding block_ld
  block_ld-Total increment =
      (hl-lt s w, λ v h. (de-lt s w, h, omega (helper_bounds, block_ld_flags-lt)))

  pub block_cp-Total : (increment : Bool) → Total Round (block_cp increment s)
  unfolding block_cp
  block_cp-Total true = (hl-lt s w, λ v h. omega (helper_bounds, block_cp_flags-lt))
  block_cp-Total false = (hl-lt s w, λ v h. omega (helper_bounds, block_cp_flags-lt))

  pub block_ini-Total : (increment : Bool) → Total Round (block_ini increment s)
  unfolding block_ini
  block_ini-Total true =
      (omega arith, λ v h. (hl-lt _ (omega arith), h, omega (helper_bounds, block_io_flags-lt)))
  block_ini-Total false =
      (omega arith, λ v h. (hl-lt _ (omega arith), h, omega (helper_bounds, block_io_flags-lt)))

  pub block_outi-Total : (increment : Bool) → Total Round (block_outi increment s)
  unfolding block_outi
  block_outi-Total true =
      (hl-lt s w, λ v h. (bc-lt _ (omega arith), h, omega (helper_bounds, block_io_flags-lt)))
  block_outi-Total false =
      (hl-lt s w, λ v h. (bc-lt _ (omega arith), h, omega (helper_bounds, block_io_flags-lt)))

  pub block_repeat-IsWf : IsWf (block_repeat s)
  unfolding block_repeat
  block_repeat-IsWf = omega (byte_bounds, and_not-lt)

  pub post_in_o_r-IsWf : IsWf (post_in_o_r s)
  unfolding post_in_o_r
  post_in_o_r-IsWf = omega (arith, post_flags-lt)

-- One round, and a round that may repeat.
once-Total : (p : Prog (Bool × Cpu)) → Total Round p → Total Stepped (once p)
once-Total p h =
    Total-bind Round Stepped p _ h (λ r u. flagged-Stepped 16 r.1 (omega arith) (omega arith) u)

rewind-Total : (p : Prog (Bool × Cpu)) → Total Round p → Total Stepped (rewind p)
rewind-Total p h = Total-bind Round Stepped p _ h (λ r u.
    flagged-Stepped _ _ (if-keeps (λ n. 0 < n) r.0 (omega arith) (omega arith))
      (if-keeps (λ n. n ≤ 23) r.0 (omega arith) (omega arith))
      (if-keeps IsWf r.0 (block_repeat-IsWf r.1 u) u))

rewind_io-Total : (p : Prog (Bool × Cpu)) → Total Round p → Total Stepped (rewind_io p)
rewind_io-Total p h = Total-bind Round Stepped p _ h (λ r u.
    flagged-Stepped _ _ (if-keeps (λ n. 0 < n) r.0 (omega arith) (omega arith))
      (if-keeps (λ n. n ≤ 23) r.0 (omega arith) (omega arith))
      (if-keeps IsWf r.0 (post_in_o_r-IsWf _ (block_repeat-IsWf r.1 u)) u))

module _ (s : Cpu) (w : IsWf s) where
  pub op_ldi-Total : Total Stepped (op_ldi s)
  unfolding op_ldi
  op_ldi-Total = once-Total _ (block_ld-Total s w true)

  pub op_ldd-Total : Total Stepped (op_ldd s)
  unfolding op_ldd
  op_ldd-Total = once-Total _ (block_ld-Total s w false)

  pub op_cpi-Total : Total Stepped (op_cpi s)
  unfolding op_cpi
  op_cpi-Total = once-Total _ (block_cp-Total s w true)

  pub op_cpd-Total : Total Stepped (op_cpd s)
  unfolding op_cpd
  op_cpd-Total = once-Total _ (block_cp-Total s w false)

  pub op_ldir-Total : Total Stepped (op_ldir s)
  unfolding op_ldir
  op_ldir-Total = rewind-Total _ (block_ld-Total s w true)

  pub op_lddr-Total : Total Stepped (op_lddr s)
  unfolding op_lddr
  op_lddr-Total = rewind-Total _ (block_ld-Total s w false)

  pub op_cpir-Total : Total Stepped (op_cpir s)
  unfolding op_cpir
  op_cpir-Total = rewind-Total _ (block_cp-Total s w true)

  pub op_cpdr-Total : Total Stepped (op_cpdr s)
  unfolding op_cpdr
  op_cpdr-Total = rewind-Total _ (block_cp-Total s w false)

  pub op_ini-Total : Total Stepped (op_ini s)
  unfolding op_ini
  op_ini-Total = once-Total _ (block_ini-Total s w true)

  pub op_ind-Total : Total Stepped (op_ind s)
  unfolding op_ind
  op_ind-Total = once-Total _ (block_ini-Total s w false)

  pub op_outi-Total : Total Stepped (op_outi s)
  unfolding op_outi
  op_outi-Total = once-Total _ (block_outi-Total s w true)

  pub op_outd-Total : Total Stepped (op_outd s)
  unfolding op_outd
  op_outd-Total = once-Total _ (block_outi-Total s w false)

  pub op_inir-Total : Total Stepped (op_inir s)
  unfolding op_inir
  op_inir-Total = rewind_io-Total _ (block_ini-Total s w true)

  pub op_indr-Total : Total Stepped (op_indr s)
  unfolding op_indr
  op_indr-Total = rewind_io-Total _ (block_ini-Total s w false)

  pub op_otir-Total : Total Stepped (op_otir s)
  unfolding op_otir
  op_otir-Total = rewind_io-Total _ (block_outi-Total s w true)

  pub op_otdr-Total : Total Stepped (op_otdr s)
  unfolding op_otdr
  op_otdr-Total = rewind_io-Total _ (block_outi-Total s w false)
