-- ===== src/Control/Exchange.antt =====
-- An exchange done twice changes nothing.
use z80_python.Base.{◌%◌, ◌*◌, ◌+◌, ◌/◌, ◌<◌, ◌>>>◌, ◌∙◌, ◌≡◌, ap, arith, refl, u16, u8, ℕ}
use z80_python.Base.Bits.Words.{bit_or-shifted}
use z80_python.Contract.{IsWf}
use z80_python.Control.Misc.{op_exx}
use z80_python.Core.{bc, de, hl, write_pair}
use z80_python.Cpu.{Cpu}
use z80_python.Dispatch.Execute.{plus_t_states}
use z80_python.Prog.{◌>>=◌, ret}

narrow : (v : ℕ) → v < 65536 → u16 v ≡ v
narrow v h = omega arith

-- What EXX does, with registers within their widths: BC, DE and HL have the bytes of BC', DE' and
-- HL', which have theirs.
abbrev pub exchanged : Cpu → Cpu
exchanged s = record s {
  b = s.bc_alt / 256;
  c = s.bc_alt % 256;
  d = s.de_alt / 256;
  e = s.de_alt % 256;
  h = s.hl_alt / 256;
  l = s.hl_alt % 256;
  bc_alt = s.b * 256 + s.c;
  de_alt = s.d * 256 + s.e;
  hl_alt = s.h * 256 + s.l;
  q = 0;
}

upper : (v : ℕ) → v < 65536 → u8 (v >>> 8) ≡ v / 256
upper v h = omega arith

high_of : (high low : ℕ) → low < 256 → (high * 256 + low) / 256 ≡ high
high_of high low q = omega arith

low_of : (high low : ℕ) → low < 256 → (high * 256 + low) % 256 ≡ low
low_of high low q = omega arith

whole : (v : ℕ) → v / 256 * 256 + v % 256 ≡ v
whole v = omega arith

exchanged-IsWf : (s : Cpu) → IsWf s → IsWf (exchanged s)
exchanged-IsWf s w = omega arith

exchanged-exchanged : (s : Cpu) → IsWf s → exchanged (exchanged s) ≡ record s { q = 0 }
exchanged-exchanged s w =
    rw
      (
        high_of s.b s.c w.c-lt,
        high_of s.d s.e w.e-lt,
        high_of s.h s.l w.l-lt,
        low_of s.b s.c w.c-lt,
        low_of s.d s.e w.e-lt,
        low_of s.h s.l w.l-lt,
        whole s.bc_alt,
        whole s.de_alt,
        whole s.hl_alt,
      )
      refl

op_exx-exchanged : (s : Cpu) → IsWf s → op_exx s ≡ ret (4, exchanged s)
unfolding op_exx write_pair hl de bc
op_exx-exchanged s w =
    rw
      (
        narrow s.bc_alt w.bc_alt-lt,
        narrow s.de_alt w.de_alt-lt,
        narrow s.hl_alt w.hl_alt-lt,
        upper s.bc_alt w.bc_alt-lt,
        upper s.de_alt w.de_alt-lt,
        upper s.hl_alt w.hl_alt-lt,
        bit_or-shifted s.b s.c w.c-lt,
        bit_or-shifted s.d s.e w.e-lt,
        bit_or-shifted s.h s.l w.l-lt,
      )
      refl

-- From registers within their widths, EXX takes 4 T-states, puts BC', DE' and HL' into BC, DE and HL
-- and these into them, and sets Q to 0; and EXX twice takes 8 T-states and leaves every register as
-- before, but Q at 0.
pub op_exx-op_exx :
    (s : Cpu)
    → IsWf s
    → (op_exx s ≡ ret (4, exchanged s))
      × ((do r ← op_exx s; plus_t_states r.0 (op_exx r.1)) ≡ ret (8, record s { q = 0 }))
op_exx-op_exx s w = (op_exx-exchanged s w, twice)
  where
    twice : (op_exx s >>= λ r. plus_t_states r.0 (op_exx r.1)) ≡ ret (8, record s { q = 0 })
    twice =
        ap (λ p. p >>= λ r. plus_t_states r.0 (op_exx r.1)) (op_exx-exchanged s w)
        ∙ (ap (plus_t_states 4) (op_exx-exchanged (exchanged s) (exchanged-IsWf s w))
            ∙ ap (λ t. ret (8, t)) (exchanged-exchanged s w))
