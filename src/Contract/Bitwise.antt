-- ===== src/Contract/Bitwise.antt =====
-- The handlers of src/z80_python/_rotate.py keep the contract.
use z80_python.Base.{◌<<<◌, ◌<◌, ◌==◌, ◌>>>◌, arith, if-cases, ltb, ltb→lt, refl, u3, u8, ℕ}
use z80_python.Base.Bits.{bit_bounds, or-lt_byte}
use z80_python.Base.Table.{all_below, all_below_sound}
use z80_python.Contract.{IsWf, Stepped, Total}
use z80_python.Contract.Numbers.{bit_flags-lt, byte_bounds, flag_bounds}
use z80_python.Contract.Parts.{
  flagged-Stepped, hl-lt, rot_apply-With, store_reg, unflagged-Stepped, with_reg,
}
use z80_python.Cpu.{Cpu}
use z80_python.Rotate.Ops.{
  acc_flags, op_bit, op_res, op_rla, op_rlca, op_rld, op_rot, op_rra, op_rrca, op_rrd, op_set,
  res_mask,
}

res_mask-lt : (k : ℕ) → res_mask k < 256
unfolding res_mask
res_mask-lt k = omega arith

-- `1 << k` for a bit number.
pub shifted-lt : (k : ℕ) → 1 <<< u3 k < 256
shifted-lt k = below (u3 k) (omega arith)
  where
    below : (n : ℕ) → n < 8 → 1 <<< n < 256
    below n h =
        ltb→lt _ _ (all_below_sound 8 (λ n. ltb (1 <<< n) 256) n (unfold all_below in refl) h)

module _ (s : Cpu) (w : IsWf s) where
  pub op_rot-Total : (op : ℕ) → Total Stepped (op_rot op s)
  unfolding op_rot
  op_rot-Total op =
      if-cases (Total Stepped) (u3 op == 6)
        (λ e. (
          hl-lt s w,
          λ v h. (
            hl-lt s w,
            (rot_apply-With s w _ v h).0,
            flagged-Stepped 15 _ (omega arith) (omega arith) (rot_apply-With s w _ v h).1,
          ),
        ))
        (λ e. with_reg (u3 op) s _ w (omega arith) (ground arith) (λ v h.
          store_reg _ _ _ _ (rot_apply-With s w _ v h).1 (omega arith) (ground arith)
            (λ t u. flagged-Stepped 8 t (omega arith) (omega arith) u)))

  acc_flags-lt : (f a c : ℕ) → f < 256 → c < 256 → acc_flags f a c < 256
  unfolding acc_flags
  acc_flags-lt f a c p q = omega byte_bounds

  pub op_rlca-Total : Total Stepped (op_rlca s)
  unfolding op_rlca
  op_rlca-Total = omega byte_bounds

  pub op_rrca-Total : Total Stepped (op_rrca s)
  unfolding op_rrca
  op_rrca-Total = omega (byte_bounds, acc_flags-lt)

  pub op_rla-Total : Total Stepped (op_rla s)
  unfolding op_rla
  op_rla-Total = omega (byte_bounds, acc_flags-lt)

  pub op_rra-Total : Total Stepped (op_rra s)
  unfolding op_rra
  op_rra-Total = omega (byte_bounds, acc_flags-lt)

  pub op_bit-Total : (op : ℕ) → Total Stepped (op_bit op s)
  unfolding op_bit
  op_bit-Total op =
      if-cases (Total Stepped) (u3 op == 6)
        (λ e. (
          hl-lt s w,
          λ v h. omega (arith, bit_flags-lt s.f v (u3 (op >>> 3)) (u8 (s.wz >>> 8)) w.f-lt h),
        ))
        (λ e.
          with_reg (u3 op) s _ w (omega arith) (ground arith)
            (λ v h. omega (arith, bit_flags-lt s.f v (u3 (op >>> 3)) v w.f-lt h)))

  pub op_res-Total : (op : ℕ) → Total Stepped (op_res op s)
  unfolding op_res
  op_res-Total op =
      if-cases (Total Stepped) (u3 op == 6)
        (λ e. (hl-lt s w, λ v h. (hl-lt s w, omega bit_bounds, omega arith)))
        (λ e. with_reg (u3 op) s _ w (omega arith) (ground arith) (λ v h.
          store_reg _ _ _ _ w (omega arith) (ground arith)
            (λ t u. unflagged-Stepped 8 t (omega arith) (omega arith) u)))

  pub op_set-Total : (op : ℕ) → Total Stepped (op_set op s)
  unfolding op_set
  op_set-Total op =
      if-cases (Total Stepped) (u3 op == 6)
        (λ e.
          (hl-lt s w, λ v h. (hl-lt s w, or-lt_byte v _ h (shifted-lt (op >>> 3)), omega arith)))
        (λ e. with_reg (u3 op) s _ w (omega arith) (ground arith) (λ v h.
          store_reg _ _ _ _ w (omega arith) (ground arith)
            (λ t u. unflagged-Stepped 8 t (omega arith) (omega arith) u)))

  pub op_rrd-Total : Total Stepped (op_rrd s)
  unfolding op_rrd
  op_rrd-Total = omega (flag_bounds, hl-lt s w)

  pub op_rld-Total : Total Stepped (op_rld s)
  unfolding op_rld
  op_rld-Total = omega (flag_bounds, hl-lt s w)
