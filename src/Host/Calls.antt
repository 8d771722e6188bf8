-- ===== src/Host/Calls.antt =====
-- Calls and interrupts return on flat memory.
use z80_python.Base.{◌&&◌, ◌≡◌, arith, false, inc16, ltb, refl, true}
use z80_python.Contract.{IsWf}
use z80_python.Control.{op_call, op_ret, op_retn, ret_iff}
use z80_python.Core.{inc_r, pop_word, push_word, read_operand_byte, read_operand_word}
use z80_python.Core.Lifecycle.{accept_non_maskable_interrupt}
use z80_python.Cpu.{Cpu}
use z80_python.Host.{Memory, done, flat, run}
use z80_python.Host.Stack.{popped_word, pushed, sp_back}
use z80_python.Prog.{◌>>=◌}

-- On flat memory, from registers within their widths, `op_call` for the unconditional CALL with PC
-- at its operand, and then `op_ret`, return: PC and WZ hold the address behind the operand, Q is
-- 0, every other register is as before, and memory has the word that was pushed.
pub op_ret-op_call :
    (s : Cpu) (m : Memory)
    → IsWf s
    → let next = inc16 (inc16 s.pc) in
      run flat (op_call 0xCD s >>= λ r. op_ret r.1) m
      ≡ (done (10, record s { pc = next; wz = next; q = 0 }), pushed next s.sp m)
unfolding run flat op_call op_ret read_operand_word read_operand_byte pop_word push_word
op_ret-op_call s m w =
    let next = inc16 (inc16 s.pc) in
    rw (sp_back s.sp w.sp-lt, popped_word next s.sp m (omega arith) w.sp-lt) refl

-- On flat memory, from registers within their widths, with an NMI pending and where the IFF2
-- erratum does not strike, the acceptance of the NMI and then `op_retn` return to the interrupted
-- PC with SP and IFF1 as they were; IFF2 then is IFF1 too, WZ is that PC, Q is 0, R has counted
-- one fetch, the CPU is not halted, the request is spent, and memory has the word that was pushed.
pub op_retn-accept_non_maskable_interrupt :
    (s : Cpu) (m : Memory)
    → IsWf s
    → s.non_maskable_interrupt_pending ≡ true
    → (s.ei_nmi_iff2_erratum && ltb 0 s.ei_delay) ≡ false
    → run flat (accept_non_maskable_interrupt s >>= λ r. op_retn r.1) m ≡ (
      done (
        14,
        record (inc_r s) {
          iff2 = s.iff1;
          wz = s.pc;
          q = 0;
          halted = false;
          non_maskable_interrupt_pending = false;
        },
      ),
      pushed s.pc s.sp m,
    )
unfolding run flat accept_non_maskable_interrupt op_retn ret_iff pop_word push_word inc_r
op_retn-accept_non_maskable_interrupt s m w requested spared =
    rw (requested, spared, sp_back s.sp w.sp-lt, popped_word s.pc s.sp m w.pc-lt w.sp-lt) refl
