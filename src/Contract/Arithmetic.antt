-- ===== src/Contract/Arithmetic.antt =====
-- The handlers of src/z80_python/_alu.py and src/z80_python/_rotate.py keep the contract.
use z80_python.Base.{◌<◌, ◌==◌, ◌>>>◌, ◌≢◌, arith, bit_and, if-cases, if-keeps, inc16, u2, u3, ℕ}
use z80_python.Alu.Ops.{
  daa_adjust, daa_tens, daa_units, op_alu_n, op_alu_r, op_cpl, op_daa, op_dec_hl, op_dec_r,
  op_inc_hl, op_inc_r, op_neg, op_scf_ccf,
}
use z80_python.Alu.Ops16.{
  add16, add16_keep_szpv, op_adc_hl_rr, op_add_hl_rr, op_dec_rr, op_inc_rr, op_sbc_hl_rr, sub16,
}
use z80_python.Base.Bits.{bit_bounds}
use z80_python.Contract.{IsWf, Stepped, Total}
use z80_python.Contract.Numbers.{
  add16_flags-lt, byte_bounds, flag_bounds, helper_bounds, sub16_flags-lt,
}
use z80_python.Contract.Parts.{
  Total-bind, With, alu_a-IsWf, carry-lt, dec-With, flagged-Stepped, hl-lt, inc-With,
  read_operand_byte-Total, read_pair-lt, store_reg, sub-With, unflagged-Stepped, with_reg,
  write_pair-IsWf,
}
use z80_python.Core.{hl, read_operand_byte, read_pair}
use z80_python.Cpu.{Cpu}
use z80_python.Flags.{flag_c}

module _ (s : Cpu) (w : IsWf s) where
  pub op_alu_r-Total : (opcode : ℕ) → Total Stepped (op_alu_r opcode s)
  unfolding op_alu_r
  op_alu_r-Total opcode =
      if-cases (Total Stepped) (u3 opcode == 6)
        (λ e. (
          hl-lt s w,
          λ v h. flagged-Stepped 7 _ (omega arith) (omega arith) (alu_a-IsWf s w _ v h),
        ))
        (λ e.
          with_reg (u3 opcode) s _ w (omega arith) (ground arith)
            (λ v h. flagged-Stepped 4 _ (omega arith) (omega arith) (alu_a-IsWf s w _ v h)))

  pub op_alu_n-Total : (opcode : ℕ) → Total Stepped (op_alu_n opcode s)
  unfolding op_alu_n
  op_alu_n-Total opcode =
      Total-bind (With 256) Stepped (read_operand_byte s) _ (read_operand_byte-Total s w)
        (λ r h. flagged-Stepped 7 _ (omega arith) (omega arith) (alu_a-IsWf r.1 h.1 _ r.0 h.0))

  pub op_neg-Total : Total Stepped (op_neg s)
  unfolding op_neg
  op_neg-Total = omega (arith, sub-With s w 0 s.a 0 (omega arith) w.a-lt (omega arith))

  pub op_inc_r-Total : (opcode : ℕ) → u3 (opcode >>> 3) ≢ 6 → Total Stepped (op_inc_r opcode s)
  unfolding op_inc_r
  op_inc_r-Total opcode n = with_reg _ s _ w (omega arith) n (λ v h.
      store_reg _ _ _ _ (inc-With s w v).1 (omega arith) n
        (λ t u. flagged-Stepped 4 t (omega arith) (omega arith) u))

  pub op_dec_r-Total : (opcode : ℕ) → u3 (opcode >>> 3) ≢ 6 → Total Stepped (op_dec_r opcode s)
  unfolding op_dec_r
  op_dec_r-Total opcode n = with_reg _ s _ w (omega arith) n (λ v h.
      store_reg _ _ _ _ (dec-With s w v).1 (omega arith) n
        (λ t u. flagged-Stepped 4 t (omega arith) (omega arith) u))

  pub op_inc_hl-Total : Total Stepped (op_inc_hl s)
  unfolding op_inc_hl
  op_inc_hl-Total = (
    hl-lt s w,
    λ v h. (
      hl-lt s w,
      (inc-With s w v).0,
      flagged-Stepped 11 _ (omega arith) (omega arith) (inc-With s w v).1,
    ),
  )

  pub op_dec_hl-Total : Total Stepped (op_dec_hl s)
  unfolding op_dec_hl
  op_dec_hl-Total = (
    hl-lt s w,
    λ v h. (
      hl-lt s w,
      (dec-With s w v).0,
      flagged-Stepped 11 _ (omega arith) (omega arith) (dec-With s w v).1,
    ),
  )

  daa_adjust-lt : (f a k : ℕ) → daa_adjust f a k < 256
  unfolding daa_adjust
  daa_adjust-lt f a k = omega arith

  daa_tens-lt : (daa_tens s.f s.a).0 < 256
  unfolding daa_tens
  daa_tens-lt = if-keeps (λ (r : ℕ × ℕ). r.0 < 256) _ (daa_adjust-lt s.f s.a 0x60) w.a-lt

  daa_tens-carry : (daa_tens s.f s.a).1 < 256
  unfolding daa_tens
  daa_tens-carry =
      let kept : bit_and s.f flag_c < 256 = omega bit_bounds in
      let forced : flag_c < 256 = omega arith in if-keeps (λ (r : ℕ × ℕ). r.1 < 256) _ forced kept

  daa_units-lt : (f a : ℕ) → a < 256 → daa_units f a < 256
  unfolding daa_units
  daa_units-lt f a h = if-keeps (λ r. r < 256) _ (daa_adjust-lt f a 0x06) h

  pub op_daa-Total : Total Stepped (op_daa s)
  unfolding op_daa
  op_daa-Total =
      omega (
        flag_bounds,
        daa_tens-lt,
        daa_tens-carry,
        daa_units-lt s.f (daa_tens s.f s.a).0 daa_tens-lt,
      )

  pub op_cpl-Total : Total Stepped (op_cpl s)
  unfolding op_cpl
  op_cpl-Total = omega byte_bounds

  pub op_scf_ccf-Total : (opcode : ℕ) → Total Stepped (op_scf_ccf opcode s)
  unfolding op_scf_ccf
  op_scf_ccf-Total opcode = omega byte_bounds

  pub op_add_hl_rr-Total : (opcode : ℕ) → Total Stepped (op_add_hl_rr opcode s)
  unfolding op_add_hl_rr add16_keep_szpv
  op_add_hl_rr-Total opcode = flagged-Stepped 11 _ (omega arith) (omega arith) (
      write_pair-IsWf _ (omega (helper_bounds, hl-lt s w, read_pair-lt s w (u2 (opcode >>> 4)))) 2
        _)

  pub op_adc_hl_rr-Total : (opcode : ℕ) → Total Stepped (op_adc_hl_rr opcode s)
  unfolding op_adc_hl_rr add16
  op_adc_hl_rr-Total opcode =
      let t = record s { wz = inc16 (hl s) } in
      let u : IsWf t = omega arith in
      flagged-Stepped 15 _ (omega arith) (omega arith) (
        write_pair-IsWf _
          (omega (
            arith,
            add16_flags-lt (hl s) (read_pair (u2 (opcode >>> 4)) t) (bit_and s.f flag_c) (hl-lt s w)
                (read_pair-lt t u _) (carry-lt s w),
          ))
          2 _)

  pub op_sbc_hl_rr-Total : (opcode : ℕ) → Total Stepped (op_sbc_hl_rr opcode s)
  unfolding op_sbc_hl_rr sub16
  op_sbc_hl_rr-Total opcode =
      let t = record s { wz = inc16 (hl s) } in
      let u : IsWf t = omega arith in
      flagged-Stepped 15 _ (omega arith) (omega arith) (
        write_pair-IsWf _
          (omega (
            arith,
            sub16_flags-lt (hl s) (read_pair (u2 (opcode >>> 4)) t) (bit_and s.f flag_c) (hl-lt s w)
                (read_pair-lt t u _) (carry-lt s w),
          ))
          2 _)

  pub op_inc_rr-Total : (opcode : ℕ) → Total Stepped (op_inc_rr opcode s)
  unfolding op_inc_rr
  op_inc_rr-Total opcode =
      unflagged-Stepped 6 _ (omega arith) (omega arith) (write_pair-IsWf s w _ _)

  pub op_dec_rr-Total : (opcode : ℕ) → Total Stepped (op_dec_rr opcode s)
  unfolding op_dec_rr
  op_dec_rr-Total opcode =
      unflagged-Stepped 6 _ (omega arith) (omega arith) (write_pair-IsWf s w _ _)
