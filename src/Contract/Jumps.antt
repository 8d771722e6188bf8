-- ===== src/Contract/Jumps.antt =====
-- The handlers of src/z80_python/_control.py keep the contract.
use z80_python.Base.{
  ◌&&◌, ◌<◌, ◌==◌, ◌>>>◌, ◌||◌, Bool, arith, false, if-cases, if-keeps, inc16, not, true, u2, u3, ℕ,
}
use z80_python.Base.Bits.{bit_bounds}
use z80_python.Contract.{IsWf, Stepped, Total}
use z80_python.Contract.Parts.{
  Total-bind, With, bc-lt, de-lt, hl-lt, pop_word-Total, push_word-Total, read_operand_byte-Total,
  read_operand_word-Total, unflagged-Stepped,
}
use z80_python.Control.{
  cond_true, op_call, op_djnz, op_jp, op_jp_hl, op_jr, op_ret, op_ret_cc, op_reti, op_retn, op_rst,
  ret_iff,
}
use z80_python.Control.Misc.{
  op_ed_nop, op_ex_af_af, op_ex_de_hl, op_ex_sp_hl, op_exx, op_halt, op_im, op_interrupt_enable,
  op_nop,
}
use z80_python.Core.{
  pop_word, push_word, read_operand_byte, read_operand_word, unflagged, write_pair,
}
use z80_python.Cpu.{Cpu}
use z80_python.Prog.{◌>>=◌}

module _ (s : Cpu) (w : IsWf s) where
  pub op_jr-Total : (opcode : ℕ) → Total Stepped (op_jr opcode s)
  unfolding op_jr read_operand_byte
  op_jr-Total opcode =
      let t = record s { pc = inc16 s.pc } in
      (
        w.pc-lt,
        λ v h.
            if-cases (Total Stepped) (opcode == 0x18 || cond_true (u2 (opcode >>> 3)) t)
              (λ e. omega arith) (λ e. omega arith),
      )

  pub op_jp-Total : (opcode : ℕ) → Total Stepped (op_jp opcode s)
  unfolding op_jp
  op_jp-Total opcode =
      Total-bind (With 65536) Stepped (read_operand_word s) _ (read_operand_word-Total s w) (λ r h.
        let t = record (r.1) { wz = r.0 } in
        let u : IsWf t = (let v = h in omega arith) in
        let u' : IsWf (record t { pc = r.0 }) = (let v = h in omega arith) in
        unflagged-Stepped 10 _ (omega arith) (omega arith) (if-keeps IsWf _ u' u))

  pub op_jp_hl-Total : Total Stepped (op_jp_hl s)
  unfolding op_jp_hl
  op_jp_hl-Total = omega (arith, hl-lt s w)

  pub op_call-Total : (opcode : ℕ) → Total Stepped (op_call opcode s)
  unfolding op_call
  op_call-Total opcode =
      Total-bind (With 65536) Stepped (read_operand_word s) _ (read_operand_word-Total s w) (λ r h.
        let t = record (r.1) { wz = r.0 } in
        let u : IsWf t = (let v = h in omega arith) in
        if-cases (Total Stepped) (not (opcode == 0xCD) && not (cond_true (u3 (opcode >>> 3)) t))
          (λ e. unflagged-Stepped 10 t (omega arith) (omega arith) u)
          (λ e.
            Total-bind IsWf Stepped (push_word r.1.pc t)
              (λ t'. unflagged 17 (record t' { pc = t'.wz })) (push_word-Total t u r.1.pc)
              (λ t' u'. omega arith)))

  -- A return sets PC and WZ to the word that it pops.
  returned : (r : ℕ × Cpu) → With 65536 r → IsWf (record (r.1) { wz = r.0; pc = r.0 })
  returned r h = omega arith

  pub op_ret-Total : Total Stepped (op_ret s)
  unfolding op_ret
  op_ret-Total =
      Total-bind (With 65536) Stepped (pop_word s) _ (pop_word-Total s w)
        (λ r h. unflagged-Stepped 10 _ (omega arith) (omega arith) (returned r h))

  pub op_ret_cc-Total : (opcode : ℕ) → Total Stepped (op_ret_cc opcode s)
  unfolding op_ret_cc
  op_ret_cc-Total opcode =
      if-keeps (Total Stepped) (cond_true (u3 (opcode >>> 3)) s)
        {x = (pop_word s) >>= λ r. unflagged 11 (record (r.1) { wz = r.0; pc = r.0 })}
        {y = unflagged 5 s}
        (Total-bind (With 65536) Stepped (pop_word s) _ (pop_word-Total s w)
          (λ r h. unflagged-Stepped 11 _ (omega arith) (omega arith) (returned r h)))
        (unflagged-Stepped 5 s (omega arith) (omega arith) w)

  pub ret_iff-Total : Total Stepped (ret_iff s)
  unfolding ret_iff
  ret_iff-Total =
      Total-bind (With 65536) Stepped (pop_word s) _ (pop_word-Total s w)
        (λ r h. let u = h in omega arith)

  pub op_retn-Total : Total Stepped (op_retn s)
  unfolding op_retn
  op_retn-Total = ret_iff-Total

  pub op_reti-Total : Total Stepped (op_reti s)
  unfolding op_reti
  op_reti-Total = ret_iff-Total

  pub op_rst-Total : (opcode : ℕ) → Total Stepped (op_rst opcode s)
  unfolding op_rst
  op_rst-Total opcode =
      Total-bind IsWf Stepped (push_word _ s) _ (push_word-Total s w _) (λ t u. omega arith)

  pub op_djnz-Total : Total Stepped (op_djnz s)
  unfolding op_djnz
  op_djnz-Total =
      Total-bind (With 256) Stepped (read_operand_byte s) _ (read_operand_byte-Total s w)
        (λ r h. let u = h.1 in ground arith)

  pub op_ex_de_hl-Total : Total Stepped (op_ex_de_hl s)
  unfolding op_ex_de_hl
  op_ex_de_hl-Total = omega arith

  pub op_interrupt_enable-Total : (enabled : Bool) → Total Stepped (op_interrupt_enable enabled s)
  unfolding op_interrupt_enable
  op_interrupt_enable-Total true = omega arith
  op_interrupt_enable-Total false = omega arith

  pub op_im-Total : (mode : ℕ) → mode < 3 → Total Stepped (op_im mode s)
  unfolding op_im
  op_im-Total mode h = omega arith

  pub op_ed_nop-Total : Total Stepped (op_ed_nop s)
  unfolding op_ed_nop
  op_ed_nop-Total = omega arith

  pub op_exx-Total : Total Stepped (op_exx s)
  unfolding op_exx write_pair
  op_exx-Total = omega (arith, hl-lt s w, de-lt s w, bc-lt s w)

  pub op_ex_sp_hl-Total : Total Stepped (op_ex_sp_hl s)
  unfolding op_ex_sp_hl
  op_ex_sp_hl-Total = omega (bit_bounds, hl-lt s w)

  pub op_halt-Total : Total Stepped (op_halt s)
  unfolding op_halt
  op_halt-Total = omega arith

  pub op_nop-Total : Total Stepped (op_nop s)
  unfolding op_nop
  op_nop-Total = omega arith

  pub op_ex_af_af-Total : Total Stepped (op_ex_af_af s)
  unfolding op_ex_af_af
  op_ex_af_af-Total = omega bit_bounds
