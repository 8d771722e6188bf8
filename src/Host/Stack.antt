-- ===== src/Host/Stack.antt =====
-- The stack on flat memory: what is pushed is popped, and calls return.
use z80_python.Base.{◌<<<◌, ◌<◌, ◌>>>◌, ◌≡◌, ◌≢◌, arith, bit_or, dec16, inc16, refl, u8, ℕ}
use z80_python.Base.Bits.Words.{join}
use z80_python.Core.{pop_word, push_word}
use z80_python.Cpu.{Cpu}
use z80_python.Host.{Memory, done, flat, poke, run}
use z80_python.Prog.{◌>>=◌}

poke_same : (a v : ℕ) (m : Memory) → poke a v m a ≡ v
unfolding poke
poke_same a v m = ground arith

poke_other : (a v x : ℕ) (m : Memory) → x ≢ a → poke a v m x ≡ m x
unfolding poke
poke_other a v x m h = ground arith

-- Memory after a push of `value` with SP at `sp`.
abbrev pub pushed : ℕ → ℕ → Memory → Memory
pushed value sp m = poke (dec16 (dec16 sp)) (u8 value) (poke (dec16 sp) (u8 (value >>> 8)) m)

pub sp_back : (sp : ℕ) → sp < 65536 → inc16 (inc16 (dec16 (dec16 sp))) ≡ sp
sp_back sp h = omega arith

-- The word that a pop puts together after a push.
pub popped_word :
    (value sp : ℕ) (m : Memory)
    → value < 65536
    → sp < 65536
    → bit_or
        (pushed value sp m (inc16 (dec16 (dec16 sp))) <<< 8)
        (pushed value sp m (dec16 (dec16 sp)))
      ≡ value
popped_word value sp m h k =
    let above : inc16 (dec16 (dec16 sp)) ≡ dec16 sp = omega arith in
    let apart : dec16 sp ≢ dec16 (dec16 sp) = omega arith in
    let low = u8 value in
    let high = u8 (value >>> 8) in
    let m' = poke (dec16 sp) high m in
    rw
      (
        above,
        poke_other (dec16 (dec16 sp)) low (dec16 sp) m' apart,
        poke_same (dec16 sp) high m,
        poke_same (dec16 (dec16 sp)) low m',
      )
      (join value h)

-- On flat memory, with a 16-bit SP, a 16-bit word that is pushed is what the next pop returns,
-- with the CPU as before; memory has the two bytes of the word below SP.
pub pop_word-push_word :
    (value : ℕ) (s : Cpu) (m : Memory)
    → value < 65536
    → s.sp < 65536
    → run flat (push_word value s >>= pop_word) m ≡ (done (value, s), pushed value s.sp m)
unfolding run flat push_word pop_word
pop_word-push_word value s m h k = rw (sp_back s.sp k, popped_word value s.sp m h k) refl
