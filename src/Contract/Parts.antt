-- ===== src/Contract/Parts.antt =====
-- The parts that handlers are made of keep the registers within their widths.
use z80_python.Base.{◌<◌, ◌≢◌, ◌≤◌, Bool, arith, bit_and, if-keeps, ℕ}
use z80_python.Alu.{add, alu_a, and, cp, dec, inc, or, set_a, sub, xor}
use z80_python.Alu.Ops16.{add16_keep_szpv}
use z80_python.Base.Bits.{bit_bounds}
use z80_python.Contract.{IsWf, Safe, Stepped, Total}
use z80_python.Contract.Numbers.{
  add16_keep_flags-lt, add_flags-lt, cp_flags-lt, flag_bounds, helper_bounds, sub_flags-lt,
}
use z80_python.Core.{
  bc, de, fetch_byte, flagged, hl, inc_r, pop_word, push_word, read_operand_byte, read_operand_word,
  read_pair, read_reg, unflagged, write_pair, write_reg,
}
use z80_python.Cpu.{Cpu}
use z80_python.Flags.{flag_c}
use z80_python.Prog.{
  ◌>>=◌, Error, Prog, out_of_fuel, raise, read_byte, read_port, ret, write_byte, write_port,
}
use z80_python.Rotate.{rl, rlc, rot_apply, rr, rrc, sla, sll, sra, srl}

-- A number below the bound, with a well-formed state.
abbrev pub With : ℕ → ℕ × Cpu → Type 0
With bound r = (r.0 < bound) × IsWf r.1

module _ {A B : Type 0} (F : Type 0) (E : Error → Type 0) (P : A → Type 0) (Q : B → Type 0) where
  -- The rule for a sequence.
  pub Safe-bind :
      (p : Prog A) (f : A → Prog B)
      → Safe F E P p
      → ((a : A) → P a → Safe F E Q (f a))
      → Safe F E Q (p >>= f)
  Safe-bind (ret a) f h k = k a h
  Safe-bind (raise e) f h k = h
  Safe-bind out_of_fuel f h k = h
  Safe-bind (read_byte a c) f h k = (h.0, λ v hv. Safe-bind (c v) f (h.1 v hv) k)
  Safe-bind (write_byte a v p) f h k = (h.0, h.1, Safe-bind p f h.2 k)
  Safe-bind (read_port a c) f h k = (h.0, λ v hv. Safe-bind (c v) f (h.1 v hv) k)
  Safe-bind (write_port a v p) f h k = (h.0, h.1, Safe-bind p f h.2 k)

module _ {A : Type 0} (F F' : Type 0) (E E' : Error → Type 0) (P P' : A → Type 0) where
  -- A weaker contract.
  pub Safe-mono :
      (F → F')
      → ((e : Error) → E e → E' e)
      → ((a : A) → P a → P' a)
      → (p : Prog A) → Safe F E P p
      → Safe F' E' P' p
  Safe-mono mf me mp (ret a) h = mp a h
  Safe-mono mf me mp (raise e) h = me e h
  Safe-mono mf me mp out_of_fuel h = mf h
  Safe-mono mf me mp (read_byte a c) h = (h.0, λ v hv. Safe-mono mf me mp (c v) (h.1 v hv))
  Safe-mono mf me mp (write_byte a v p) h = (h.0, h.1, Safe-mono mf me mp p h.2)
  Safe-mono mf me mp (read_port a c) h = (h.0, λ v hv. Safe-mono mf me mp (c v) (h.1 v hv))
  Safe-mono mf me mp (write_port a v p) h = (h.0, h.1, Safe-mono mf me mp p h.2)

module _ (s : Cpu) (w : IsWf s) where
  pub hl-lt : hl s < 65536
  unfolding hl
  hl-lt = omega bit_bounds

  pub bc-lt : bc s < 65536
  unfolding bc
  bc-lt = omega bit_bounds

  pub de-lt : de s < 65536
  unfolding de
  de-lt = omega bit_bounds

  pub inc_r-IsWf : IsWf (inc_r s)
  unfolding inc_r
  inc_r-IsWf = omega bit_bounds

  pub fetch_byte-Total : Total (With 256) (fetch_byte s)
  unfolding fetch_byte inc_r
  fetch_byte-Total = omega bit_bounds

  pub read_operand_byte-Total : Total (With 256) (read_operand_byte s)
  unfolding read_operand_byte
  read_operand_byte-Total = omega arith

  pub read_operand_word-Total : Total (With 65536) (read_operand_word s)
  unfolding read_operand_word read_operand_byte
  read_operand_word-Total = omega bit_bounds

  pub push_word-Total : (v : ℕ) → Total IsWf (push_word v s)
  unfolding push_word
  push_word-Total v = omega arith

  pub pop_word-Total : Total (With 65536) (pop_word s)
  unfolding pop_word
  pop_word-Total = omega bit_bounds

  pub read_pair-lt : (index : ℕ) → read_pair index s < 65536
  unfolding read_pair
  read_pair-lt index = ground (arith, bc-lt, de-lt, hl-lt)

  pub write_pair-IsWf : (index v : ℕ) → IsWf (write_pair index v s)
  unfolding write_pair
  write_pair-IsWf index v = ground arith

  pub read_reg-Total : (index : ℕ) → index < 8 → index ≢ 6 → Total (λ v. v < 256) (read_reg index s)
  unfolding read_reg
  read_reg-Total index h n = ground arith

  pub write_reg-Total : (index v : ℕ) → index < 8 → index ≢ 6 → Total IsWf (write_reg index v s)
  unfolding write_reg
  write_reg-Total index v h n = ground arith

  pub add-With : (x y c : ℕ) → x < 256 → y < 256 → c < 2 → With 256 (add x y c s)
  unfolding add
  add-With x y c p q r = omega (arith, add_flags-lt x y c p q r)

  pub sub-With : (x y c : ℕ) → x < 256 → y < 256 → c < 2 → With 256 (sub x y c s)
  unfolding sub
  sub-With x y c p q r = omega (arith, sub_flags-lt x y c p q r)

  pub add16_keep_szpv-IsWf : (x y : ℕ) → x < 65536 → y < 65536 → IsWf (add16_keep_szpv x y s).1
  unfolding add16_keep_szpv
  add16_keep_szpv-IsWf x y p q = omega (arith, add16_keep_flags-lt s.f x y w.f-lt p q)

  pub inc-With : (x : ℕ) → With 256 (inc x s)
  unfolding inc
  inc-With x = omega helper_bounds

  pub dec-With : (x : ℕ) → With 256 (dec x s)
  unfolding dec
  dec-With x = omega helper_bounds

  pub carry-lt : bit_and s.f flag_c < 2
  carry-lt = omega bit_bounds

  set_a-IsWf : (r : ℕ × Cpu) → With 256 r → IsWf (set_a r)
  unfolding set_a
  set_a-IsWf r h = omega arith

  logic-IsWf :
      (x y : ℕ)
      → x < 256
      → y < 256
      → IsWf (set_a (and x y s)) × IsWf (set_a (or x y s)) × IsWf (set_a (xor x y s))
  unfolding set_a and or xor
  logic-IsWf x y p q = (omega flag_bounds, omega flag_bounds, omega flag_bounds)

  cp-IsWf : (x y : ℕ) → x < 256 → y < 256 → IsWf (cp x y s)
  unfolding cp
  cp-IsWf x y p q = omega (arith, cp_flags-lt x y p q)

  pub alu_a-IsWf : (group v : ℕ) → v < 256 → IsWf (alu_a group v s)
  unfolding alu_a
  alu_a-IsWf group v h =
      let logic = logic-IsWf s.a v w.a-lt h in
      let keeps = λ (t : Bool) (x y : Cpu). if-keeps IsWf t {x = x} {y = y} in
      keeps _ _ _ (set_a-IsWf _ (add-With s.a v 0 w.a-lt h (omega arith))) (
        keeps _ _ _ (set_a-IsWf _ (add-With s.a v _ w.a-lt h carry-lt)) (
          keeps _ _ _ (set_a-IsWf _ (sub-With s.a v 0 w.a-lt h (omega arith))) (
            keeps _ _ _ (set_a-IsWf _ (sub-With s.a v _ w.a-lt h carry-lt)) (
              keeps _ _ _ logic.0
                (keeps _ _ _ logic.2 (keeps _ _ _ logic.1 (cp-IsWf s.a v w.a-lt h)))))))

  rotates-With :
      (x : ℕ)
      → x < 256
      → With 256 (rlc x s) × With 256 (rrc x s) × With 256 (rl x s) × With 256 (rr x s)
  unfolding rlc rrc rl rr
  rotates-With x h = (omega flag_bounds, omega flag_bounds, omega flag_bounds, omega flag_bounds)

  shifts-With :
      (x : ℕ)
      → x < 256
      → With 256 (sla x s) × With 256 (sra x s) × With 256 (sll x s) × With 256 (srl x s)
  unfolding sla sra sll srl
  shifts-With x h = (omega flag_bounds, omega flag_bounds, omega flag_bounds, omega flag_bounds)

  pub rot_apply-With : (group x : ℕ) → x < 256 → With 256 (rot_apply group x s)
  unfolding rot_apply
  rot_apply-With group x h =
      let turns = rotates-With x h in
      let shifts = shifts-With x h in
      let keeps = λ (t : Bool) (x y : ℕ × Cpu). if-keeps (With 256) t {x = x} {y = y} in
      keeps _ _ _ turns.0 (
        keeps _ _ _ turns.1 (
          keeps _ _ _ turns.2 (
            keeps _ _ _ turns.3
              (keeps _ _ _ shifts.0 (keeps _ _ _ shifts.1 (keeps _ _ _ shifts.2 shifts.3))))))

-- The two ways in which a handler ends.
pub flagged-Stepped : (t : ℕ) (s : Cpu) → 0 < t → t ≤ 23 → IsWf s → Total Stepped (flagged t s)
flagged-Stepped t s p q w = omega arith

pub unflagged-Stepped : (t : ℕ) (s : Cpu) → 0 < t → t ≤ 23 → IsWf s → Total Stepped (unflagged t s)
unflagged-Stepped t s p q w = omega arith

-- The rule for a sequence of parts that raise nothing.
pub Total-bind :
    {A B : Type 0} (P : A → Type 0) (Q : B → Type 0) (p : Prog A) (f : A → Prog B)
    → Total P p
    → ((a : A) → P a → Total Q (f a))
    → Total Q (p >>= f)
Total-bind P Q p f h k = Safe-bind ⊥ (λ e. ⊥) P Q p f h k

-- A handler on a register operand: read, and go on.
pub with_reg :
    (index : ℕ) (s : Cpu) (f : ℕ → Prog (ℕ × Cpu))
    → IsWf s
    → index < 8
    → index ≢ 6
    → ((v : ℕ) → v < 256 → Total Stepped (f v))
    → Total Stepped (read_reg index s >>= f)
with_reg index s f w h n k =
    Total-bind (λ v. v < 256) Stepped (read_reg index s) f (read_reg-Total s w index h n) k

-- A handler that stores its result in a register, and ends.
pub store_reg :
    (index v : ℕ) (s : Cpu) (f : Cpu → Prog (ℕ × Cpu))
    → IsWf s
    → index < 8
    → index ≢ 6
    → ((t : Cpu) → IsWf t → Total Stepped (f t))
    → Total Stepped (write_reg index v s >>= f)
store_reg index v s f w h n k =
    Total-bind IsWf Stepped (write_reg index v s) f (write_reg-Total s w index v h n) k
